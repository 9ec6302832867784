-- ===== src/Mysql/Store.antt =====
-- The query sessions that shared pointers (RefQuerySession) reach, by reference, with a record of
-- the calls of OnQueryDone and of the callbacks that these ran, each in order.
use ltapp.Base.{ℕ, String, List, [], ◌∷◌, ◌++◌, opt_list, ◌==◌, if◌then◌else◌}
use ltapp.Base.Int.{ℤ}
use ltapp.Mysql.Session
use ltapp.Mysql.Session.{QuerySession}

pub record Store : Type 0 where
  pub sessions : ℕ → QuerySession
  pub finished : List ℕ
  pub invoked : List ℕ

unfoldable pub modify : ℕ → (QuerySession → QuerySession) → Store → Store
modify r f s = record s { sessions = λ j. if j == r then f (s.sessions j) else s.sessions j }

-- query->OnQueryDone()
unfoldable pub complete : ℕ → Store → Store
unfolding modify Session.on_query_done
complete r s =
    let (callback, left) = Session.on_query_done (s.sessions r) in
    record (modify r (λ _. left) s) {
      finished = s.finished ++ r ∷ [];
      invoked = s.invoked ++ opt_list callback;
    }

-- query->SetCode(code, message); query->OnQueryDone();
unfoldable pub complete_with : ℕ → ℤ → String → Store → Store
unfolding modify complete Session.set_code
complete_with r code message s = complete r (modify r (Session.set_code code message) s)

-- The loop of clean_up and of the destructor over query_list_.
unfoldable pub complete_all : ℤ → String → List ℕ → Store → Store
complete_all code message [] s = s
complete_all code message (r ∷ rs) s = complete_all code message rs (complete_with r code message s)
