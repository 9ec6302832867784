-- ===== src/Mysql/Answer.antt =====
-- What the handlers of mysql_async_con.cc and QuerySession leave of the rows of a session.
use ltapp.Base.{
  ℕ, ◌≡◌, refl, ap, String, List, [], ◌∷◌, ◌++◌, Option, some, arith, ==_iff, Bool-cases, inl, inr,
}
use ltapp.Base.Int.{ℤ}
use ltapp.Outcome.{Outcome, check_some}
use ltapp.Mysql.Session
use ltapp.Mysql.Session.{QuerySession, ResultRow}
use ltapp.Mysql.Store
use ltapp.Mysql.Store.{Store}
use ltapp.Mysql.Api.{MysqlApi, ResultSet, Row}
use ltapp.Mysql.Conn.{answer}
use ltapp.Mysql.Conn.Step.{add_row, left_fields, parse_result_desc, read_row, is_empty}

pub check_some-some :
    {A B : Type 0} {o : Option A} {a : A} (k : A → Outcome B) → o ≡ some a → check_some o k ≡ k a
unfolding check_some
check_some-some k e = ap (λ x. check_some x k) e

pub parse_result_desc-results :
    (names : List String) (s : QuerySession) → (parse_result_desc names s).results ≡ s.results
unfolding parse_result_desc Session.push_header
parse_result_desc-results [] s = refl
parse_result_desc-results (name ∷ names) s =
    parse_result_desc-results names (Session.push_header name s)

pub modified-results :
    (q : ℕ) (f : QuerySession → QuerySession) (s : Store)
    → ((Store.modify q f s).sessions q).results ≡ (f (s.sessions q)).results
unfolding Store.modify
modified-results q f s = rw ((==_iff q q).1 refl) refl

pub completed-results :
    (q : ℕ) (f : QuerySession → QuerySession) (s : Store)
    → ((Store.complete q (Store.modify q f s)).sessions q).results ≡ (f (s.sessions q)).results
unfolding Store.complete Store.modify Session.on_query_done
completed-results q f s = rw ((==_iff q q).1 refl) refl

module _ {M : Type 0} (api : MysqlApi M) where
  pub add_row-results :
      (res : ResultSet) (row : Row) (s : QuerySession)
      → (add_row api res row s).results ≡ s.results ++ read_row 0 res.num_fields row ∷ []
  unfolding add_row Session.pending_row
  add_row-results res row s = elim (Bool-cases (is_empty s.column_names)) [
    | inl e ↦
        rw e (
          ap (λ l. l ++ read_row 0 res.num_fields row ∷ [])
            (parse_result_desc-results res.fields s))
    | inr e ↦ rw e refl
  ]

  pub left_fields-num_fields :
      (res : ResultSet) (s : QuerySession) → (left_fields api res s).num_fields ≡ res.num_fields
  unfolding left_fields
  left_fields-num_fields res s = ground arith

  pub answer-results :
      (code : ℤ) (message : Option String) (n : ℕ) (s : QuerySession)
      → (answer api code message n s).results ≡ s.results
  unfolding answer Session.set_affected_rows Session.set_code
  answer-results code message n s = ground arith
