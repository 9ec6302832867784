-- ===== src/Mysql/Client/Closing.antt =====
-- Close of a client (mysql_client_impl.cc): once the tasks that it posts have run, after those that
-- were there before, no connection has a query left.
use ltapp.Base.{
  ℕ, zero, suc, ◌≡◌, refl, subst, Option, none, some, List, [], ◌∷◌, length, get_elem?, Bool-cases,
  inl, inr,
}
use ltapp.Base.Count.{set_elem, take_at}
use ltapp.Outcome.{Ensures, holds, stops}
use ltapp.Mysql.Api.{MysqlApi}
use ltapp.Mysql.Run.{
  Run, returned, aborted, and_then, Leaves, leaves, aborts, Leaves-returned, Leaves-and_then,
  Leaves-outcome,
}
use ltapp.Mysql.Conn.{Conn, clean_up}
use ltapp.Mysql.Conn.Entry.{sync_close}
use ltapp.Mysql.History.{syncs_close, perform}
use ltapp.Mysql.Client.{Client, Task, sync_close_on}
use ltapp.Mysql.Client.Work.{put_back, on_connection, run_task, happen, runs}
use ltapp.Mysql.Client.Work.Places.{left, held}

module _ {M : Type 0} where
  -- The first connections have no query left.
  abbrev pub Emptied : ℕ → List (Conn M) → Type 0
  Emptied zero cs = Unit {0}
  Emptied (suc i) [] = Unit {0}
  Emptied (suc i) (c ∷ cs) = (left c ≡ []) × Emptied i cs

  Emptied-set_elem :
      (i : ℕ) (cs : List (Conn M)) (c : Conn M)
      → left c ≡ []
      → Emptied i cs
      → Emptied (suc i) (set_elem cs i c)
  Emptied-set_elem zero [] c l e = tt
  Emptied-set_elem (suc i) [] c l e = tt
  Emptied-set_elem zero (x ∷ cs) c l e = (l, tt)
  Emptied-set_elem (suc i) (x ∷ cs) c l e = (e.0, Emptied-set_elem i cs c l e.1)

  pub held-Emptied : (cs : List (Conn M)) → Emptied (length cs) cs → held cs ≡ []
  held-Emptied [] e = refl
  held-Emptied (c ∷ cs) e = rw (e.0, held-Emptied cs e.1) refl

module _ {M : Type 0} (api : MysqlApi M) where
  sync_close-left : (c : Conn M) → Ensures (λ c'. left c' ≡ []) (sync_close api c)
  unfolding sync_close clean_up
  sync_close-left c = elim (Bool-cases c.in_loop_thread) [
    | inl e ↦ rw (e, clean_up) (holds refl)
    | inr e ↦ rw (e, clean_up) stops
  ]

  on_connection-Emptied :
      (n i : ℕ) (k : Client M)
      → Emptied i k.connections
      → Leaves (λ k'. Emptied (suc i) k'.connections) (on_connection api n i syncs_close k)
  unfolding on_connection perform put_back
  on_connection-Emptied n i k e = go (get_elem? k.connections i)
    where
      go :
          (o : Option (Conn M))
          → Leaves
              (λ k'. Emptied (suc i) k'.connections)
              (elim o [
                | none ↦ aborted
                | some c ↦
                    and_then
                      (perform api n syncs_close (record c { store = k.store }))
                      λ c'. returned (put_back i c' k)
              ])
      go none = aborts
      go (some c) =
          Leaves-and_then (Leaves-outcome (sync_close-left (record c { store = k.store })))
            λ c' l. leaves (Emptied-set_elem i k.connections c' l e)

  -- The next task of Close is run.
  pub runs-Emptied :
      (n i : ℕ) (k k' : Client M) (rest : List Task)
      → k.tasks ≡ sync_close_on i ∷ rest
      → Emptied i k.connections
      → happen api n (runs 0) k ≡ returned k'
      → Emptied (suc i) k'.connections
  unfolding happen run_task
  runs-Emptied n i k k' rest t e h =
      Leaves-returned (on_connection-Emptied n i (record k { tasks = rest }) e)
        (subst (λ ts. first ts ≡ returned k') t h)
    where
      first : List Task → Run (Client M)
      first ts = elim (take_at ts 0) [
        | none ↦ returned k
        | some (u, us) ↦ run_task api n u (record k { tasks = us })
      ]
