-- ===== src/Mysql/Client/AllDone.antt =====
-- A client (mysql_client_impl.cc) that is closed at the end of its history: once the tasks that are
-- left have run, every query is done.
use ltapp.Base.{
  ℕ, zero, suc, ◌+◌, ◌<◌, ◌≡◌, refl, sym, ap, subst, ◌∙◌, List, [], ◌∷◌, ◌++◌, length, arith,
  append-nil,
}
use ltapp.Base.Count.{count, count-append}
use ltapp.Outcome.{ok}
use ltapp.Mysql.Store.{Store}
use ltapp.Mysql.Api.{MysqlApi, MysqlOptions}
use ltapp.Mysql.Run.{returned}
use ltapp.Mysql.Conn.{Conn}
use ltapp.Mysql.Total.{GivesRowsOnce}
use ltapp.Mysql.Client.{Garbage, init_with_option, Client, sync_close_on, close, close_tasks}
use ltapp.Mysql.Client.Work.{Event, runs, closes_client, happen, run_events}
use ltapp.Mysql.Client.Work.Places.{whereabouts, queued, handed, held, all_handed}
use ltapp.Mysql.Client.Work.Whereabouts.{run_events-whereabouts}
use ltapp.Mysql.Client.Sound.{Sound, task, closing}
use ltapp.Mysql.Client.End.{new}
use ltapp.Mysql.Client.Init.{init_with_option-Sound, init_with_option-whereabouts}
use ltapp.Mysql.Client.Closing.{Emptied, runs-Emptied, held-Emptied}
use ltapp.Mysql.Client.Once.{all_handed-first_tasks}
use ltapp.Mysql.Client.Reaches.{
  ComeInTurn, first_tasks, Reaches, Left, runs-tasks, one_more-Reaches, Reaches-append,
  run_events-Reaches, first_tasks-Reaches,
}

first_tasks-add : (i j : ℕ) → first_tasks (i + j) ≡ first_tasks i ++ first_tasks j
first_tasks-add zero j = ap first_tasks (omega arith)
first_tasks-add (suc i) j =
    let one_more : suc i + j ≡ suc (i + j) = omega arith in
    ap first_tasks one_more ∙ ap (λ es. runs 0 ∷ es) (first_tasks-add i j)

-- The history, Close, and so many of the tasks that are left then, in order.
abbrev pub closing_after : List Event → ℕ → List Event
closing_after es j = es ++ closes_client ∷ first_tasks j

all_handed-closing_after :
    (es : List Event) (j : ℕ) → all_handed (closing_after es j) ≡ all_handed es
all_handed-closing_after [] j = all_handed-first_tasks j
all_handed-closing_after (e ∷ es) j = ap (λ x. handed e ++ x) (all_handed-closing_after es j)

module _ {M : Type 0} (api : MysqlApi M) where
  -- With some fuel the history returns, and so do Close and the tasks that are left then, of which
  -- there are some number. No task and no query is left, and each query is done as often as in
  -- `before` and in the history together.
  abbrev pub AllDone : List ℕ → List Event → Client M → Type 0
  AllDone before es k =
      (n : ℕ) × (j : ℕ) × (k' : Client M) × (run_events api n (closing_after es j) k ≡ returned k')
      × (k'.tasks ≡ [])
      × (held k'.connections ≡ [])
      × ((a : ℕ) → count a k'.store.finished ≡ count a before + count a (all_handed es))

module _ {M : Type 0} (rows_left : M → ℕ) (api : MysqlApi M)
    (once : GivesRowsOnce rows_left api) where
  abbrev NoneLeft : Client M → Type 0
  NoneLeft k = (k.tasks ≡ []) × (held k.connections ≡ [])

  -- The tasks of Close, from one connection on.
  close_tasks-Reaches :
      (i : ℕ) (cs : List (Conn M)) (k : Client M)
      → Sound k
      → k.tasks ≡ close_tasks i cs
      → Emptied i k.connections
      → i + length cs ≡ length k.connections
      → Reaches rows_left api once (first_tasks (length cs)) k NoneLeft
  unfolding close_tasks run_events
  close_tasks-Reaches i [] k v t e l =
      let all : i ≡ length k.connections = omega (arith, l) in
      (0, k, refl, v, (t, held-Emptied k.connections (subst (λ j. Emptied j k.connections) all e)))
  close_tasks-Reaches i (_ ∷ cs) k v t e l =
      one_more-Reaches rows_left api once (runs 0) (first_tasks (length cs)) k NoneLeft v (task 0)
        (λ n k' p w.
          let (tasks, same) =
            runs-tasks api n k k' (sync_close_on i) (close_tasks (i + 1) cs) t p in
          let next : suc i ≡ i + 1 = omega arith in
          close_tasks-Reaches (i + 1) cs k' w tasks
            (subst (λ j. Emptied j k'.connections) next
              (runs-Emptied api n i k k' (close_tasks (i + 1) cs) t e p))
            (omega (arith, l, same)))

  -- The tasks from before Close, and its own.
  closed-Reaches :
      (k : Client M)
      → Sound (close k)
      → Reaches rows_left api once
          (first_tasks (length k.tasks) ++ first_tasks (length k.connections))
          (close k)
          NoneLeft
  unfolding close
  closed-Reaches k w =
      let before =
        first_tasks-Reaches rows_left api once k.tasks (close_tasks 0 k.connections) (close k) w
          refl in
      Reaches-append rows_left api once (first_tasks (length k.tasks))
        (first_tasks (length k.connections)) (close k)
        (Left (close_tasks 0 k.connections) (length k.connections)) NoneLeft before
        (close_tasks-Reaches 0 k.connections before.1 before.3 before.4.0 tt
          (omega (arith, before.4.1)))

  close-Reaches :
      (k : Client M)
      → Sound k
      → Reaches rows_left api once
          (closes_client ∷ first_tasks (length k.tasks + length k.connections))
          k
          NoneLeft
  unfolding happen
  close-Reaches k v =
      let drained = first_tasks (length k.tasks + length k.connections) in
      one_more-Reaches rows_left api once closes_client drained k NoneLeft v closing λ n k' p w.
        let same : close k ≡ k' = cc in
        subst (λ x. Reaches rows_left api once drained x NoneLeft) same
          (subst (λ es. Reaches rows_left api once es (close k) NoneLeft)
            (sym (first_tasks-add (length k.tasks) (length k.connections)))
            (closed-Reaches k (subst Sound (sym same) w)))

  run_events-AllDone :
      (es : List Event) (k : Client M)
      → Sound k
      → ComeInTurn api es k
      → AllDone api (whereabouts k) es k
  run_events-AllDone es k v c =
      let r = run_events-Reaches rows_left api once es k v c in
      let j = length r.1.tasks + length r.1.connections in
      let (n, k', run, _, (tasks, none)) =
        Reaches-append rows_left api once es (closes_client ∷ first_tasks j) k (λ _. Unit {0})
          NoneLeft r (close-Reaches r.1 r.3) in
      (
        n,
        j,
        k',
        run,
        tasks,
        none,
        λ a. omega (
          arith,
          run_events-whereabouts api n (closing_after es j) k k' run a,
          ap (count a) (all_handed-closing_after es j),
          count-append a k'.store.finished (held k'.connections ++ queued k'.tasks),
          ap (λ l. count a (l ++ queued k'.tasks)) none,
          ap (λ ts. count a (queued ts)) tasks,
        ),
      )

  -- If the client library gives each row once: take a new client that is to have connections
  -- at least one and whose InitWithOption does not stop the process, and events that come in
  -- turn, be they queries that are handed over, tasks that are run, Close, or events and
  -- timers of connections where one is installed. If Close is called after them and the
  -- tasks that are left then are run in order, all of this returns, with some fuel; no task
  -- and no query is left, and each query was done as often as in the store before and as it
  -- was handed over, together, without the client being destroyed.
  pub init_with_option-AllDone :
      (g : Garbage M) (o : MysqlOptions) (conns use_index : ℕ) (s : Store) (k : Client M)
      (es : List Event)
      → 0 < conns
      → init_with_option api g o (new conns use_index s) ≡ ok k
      → ComeInTurn api es k
      → AllDone api s.finished es k
  unfolding new
  init_with_option-AllDone g o conns use_index s k es p h c =
      let (_, v) = init_with_option-Sound api g o (new conns use_index s) k refl refl p h in
      subst (λ qs. AllDone api qs es k)
        (init_with_option-whereabouts api g o (new conns use_index s) k refl h
          ∙ append-nil s.finished)
        (run_events-AllDone es k v c)
