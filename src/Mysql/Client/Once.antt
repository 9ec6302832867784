-- ===== src/Mysql/Client/Once.antt =====
-- A client whose connections are in their loops (mysql_client_impl.cc) over a whole history: all of
-- it returns with one fuel, its tasks can all be run, and each query is done once.
use ltapp.Base.{
  sym, append-nil, ℕ, zero, suc, ◌+◌, ◌<◌, ◌≡◌, refl, ap, subst, ◌∙◌, List, [], ◌∷◌, ◌++◌, length,
}
use ltapp.Base.Count.{count}
use ltapp.Mysql.Store.{Store}
use ltapp.Outcome.{ok}
use ltapp.Mysql.Api.{MysqlApi, MysqlOptions}
use ltapp.Mysql.Run.{returned}
use ltapp.Mysql.Total.{GivesRowsOnce}
use ltapp.Mysql.Client.Reaches.{
  ComeInTurn, first_tasks, Reaches-append, run_events-Reaches, first_tasks-Reaches, Left,
}
use ltapp.Mysql.Client.Init.{init_with_option-Sound, init_with_option-whereabouts}
use ltapp.Mysql.Client.{Garbage, init_with_option, Client}
use ltapp.Mysql.Client.Work.{Event, run_events}
use ltapp.Mysql.Client.Work.Places.{whereabouts, handed, all_handed}
use ltapp.Mysql.Client.Sound.{Sound}
use ltapp.Mysql.Client.End.{new, destroy_client, run_events-destroy_client}

pub all_handed-first_tasks : (j : ℕ) → all_handed (first_tasks j) ≡ []
all_handed-first_tasks zero = refl
all_handed-first_tasks (suc j) = all_handed-first_tasks j

all_handed-then_tasks : (es : List Event) (j : ℕ) → all_handed (es ++ first_tasks j) ≡ all_handed es
all_handed-then_tasks [] j = all_handed-first_tasks j
all_handed-then_tasks (e ∷ es) j = ap (λ x. handed e ++ x) (all_handed-then_tasks es j)

module _ {M : Type 0} (api : MysqlApi M) where
  -- With some fuel the history returns, and so does the running of the tasks that it left, of
  -- which there are some number; once the client is destroyed then, each query is done as often
  -- as in `before` and in the history together.
  abbrev pub AllOnce : List ℕ → List Event → Client M → Type 0
  AllOnce before es k =
      (n : ℕ) × (j : ℕ) × (k' : Client M) × (run_events api n (es ++ first_tasks j) k ≡ returned k')
      × (k'.tasks ≡ [])
      × ((a : ℕ)
          → count a (destroy_client k').store.finished ≡ count a before + count a (all_handed es))

module _ {M : Type 0} (rows_left : M → ℕ) (api : MysqlApi M)
    (once : GivesRowsOnce rows_left api) where
  run_events-AllOnce :
      (es : List Event) (k : Client M)
      → Sound k
      → ComeInTurn api es k
      → AllOnce api (whereabouts k) es k
  run_events-AllOnce es k v c =
      let r = run_events-Reaches rows_left api once es k v c in
      let j = length r.1.tasks in
      let (m, k2, run, u, (tasks, _)) =
        Reaches-append rows_left api once es (first_tasks j) k (λ _. Unit {0})
          (Left [] (length r.1.connections)) r
          (first_tasks-Reaches rows_left api once r.1.tasks [] r.1 r.3
            (sym (append-nil r.1.tasks))) in
      (
        m,
        j,
        k2,
        run,
        tasks,
        λ a.
            run_events-destroy_client api m (es ++ first_tasks j) k k2 run tasks a
            ∙ ap (λ hs. count a (whereabouts k) + count a hs) (all_handed-then_tasks es j),
      )

  -- If the client library gives each row once: take a new client that is to have connections
  -- at least one and whose InitWithOption does not stop the process, and events that come in
  -- turn, be they queries that are handed over, tasks that are run, Close, or events and
  -- timers of connections where one is installed. Then, with some fuel, all of it returns,
  -- and so does the running of the tasks that are left, after which none is left; once the
  -- client is destroyed then, each query was done as often as in the store before and as it
  -- was handed over, together.
  pub init_with_option-AllOnce :
      (g : Garbage M) (o : MysqlOptions) (conns use_index : ℕ) (s : Store) (k : Client M)
      (es : List Event)
      → 0 < conns
      → init_with_option api g o (new conns use_index s) ≡ ok k
      → ComeInTurn api es k
      → AllOnce api s.finished es k
  unfolding new
  init_with_option-AllOnce g o conns use_index s k es p h c =
      let (_, v) = init_with_option-Sound api g o (new conns use_index s) k refl refl p h in
      subst (λ qs. AllOnce api qs es k)
        (init_with_option-whereabouts api g o (new conns use_index s) k refl h
          ∙ append-nil s.finished)
        (run_events-AllOnce es k v c)
