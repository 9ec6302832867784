-- ===== src/Mysql/Client/Reaches.antt =====
-- Histories of a client whose connections are in their loops (mysql_client_impl.cc): with some fuel
-- they return, and then the tasks that are left can be run.
use ltapp.Base.{
  ℕ, zero, suc, ◌+◌, ◌≡◌, refl, subst, ◌∙◌, Option, none, some, List, [], ◌∷◌, ◌++◌, length,
  get_elem?,
}
use ltapp.Base.Count.{take_at}
use ltapp.Mysql.Api.{MysqlApi}
use ltapp.Mysql.Run.{
  Run, returned, aborted, out_of_fuel, and_then, Leaves, leaves, aborts, runs_out, Leaves-returned,
}
use ltapp.Mysql.Conn.{Conn}
use ltapp.Mysql.History.{Call, starts, syncs_close, perform}
use ltapp.Mysql.Total.{GivesRowsOnce}
use ltapp.Mysql.Client.Fuel.{run_events-Lasts, happen-Lasts, run_events-append}
use ltapp.Mysql.Fuel.{Lasts-unique, then_returns}
use ltapp.Mysql.Client.{Client, Task, query_done, start_query_on, sync_close_on}
use ltapp.Mysql.Client.Work.{Event, runs, put_back, on_connection, run_task, happen, run_events}
use ltapp.Mysql.Client.Sound.{length-set_elem, Sound, Comes, task}
use ltapp.Mysql.Client.Total.{happen-total}

module _ {M : Type 0} (api : MysqlApi M) where
  -- The events of a history come one after another, each at the client that those before it
  -- have left.
  abbrev pub ComeInTurn : List Event → Client M → Type 0
  ComeInTurn [] k = Unit {0}
  ComeInTurn (e ∷ es) k =
      Comes k e × ((n : ℕ) (k' : Client M) → happen api n e k ≡ returned k' → ComeInTurn es k')

  -- What an event leaves with some fuel, it leaves with any that it returns with.
  pub ComeInTurn-after :
      (e : Event) (es : List Event) (m : ℕ) (k k1 : Client M)
      → happen api m e k ≡ returned k1
      → ComeInTurn es k1
      → (n : ℕ) (k' : Client M) → happen api n e k ≡ returned k'
      → ComeInTurn es k'
  ComeInTurn-after e es m k k1 h c n k' p =
      subst (ComeInTurn es)
        (Lasts-unique (λ n. happen api n e k) m n k1 k' (happen-Lasts api e k) h p) c

  -- What running a task keeps, given the tasks and the number of connections.
  Keeps : List Task → ℕ → Run (Client M) → Type 0
  Keeps ts m r = Leaves (λ k'. (k'.tasks ≡ ts) × (length k'.connections ≡ m)) r

  on_connection-Keeps :
      (n i : ℕ) (call : Call) (k : Client M)
      → Keeps k.tasks (length k.connections) (on_connection api n i call k)
  unfolding on_connection put_back Keeps
  on_connection-Keeps n i call k = go (get_elem? k.connections i)
    where
      put :
          (r : Run (Conn M))
          → Keeps k.tasks (length k.connections) (and_then r (λ c'. returned (put_back i c' k)))
      put (returned c') = leaves (refl, length-set_elem k.connections i c')
      put aborted = aborts
      put out_of_fuel = runs_out

      go :
          (o : Option (Conn M))
          → Keeps k.tasks (length k.connections) (elim o [
            | none ↦ aborted
            | some c ↦
                and_then
                  (perform api n call (record c { store = k.store }))
                  λ c'. returned (put_back i c' k)
          ])
      go none = aborts
      go (some c) = put (perform api n call (record c { store = k.store }))

  run_task-Keeps :
      (n : ℕ) (t : Task) (k : Client M) → Keeps k.tasks (length k.connections) (run_task api n t k)
  unfolding run_task Keeps
  run_task-Keeps n (query_done q) k = leaves (refl, refl)
  run_task-Keeps n (start_query_on i q) k = on_connection-Keeps n i (starts q) k
  run_task-Keeps n (sync_close_on i) k = on_connection-Keeps n i syncs_close k

  -- A task that is run is taken away, and posts no other.
  pub runs-tasks :
      (n : ℕ) (k k' : Client M) (t : Task) (rest : List Task)
      → k.tasks ≡ t ∷ rest
      → happen api n (runs 0) k ≡ returned k'
      → (k'.tasks ≡ rest) × (length k'.connections ≡ length k.connections)
  unfolding happen Keeps
  runs-tasks n k k' t rest e h =
      Leaves-returned (run_task-Keeps n t (record k { tasks = rest }))
        (subst (λ ts. first ts ≡ returned k') e h)
    where
      first : List Task → Run (Client M)
      first ts = elim (take_at ts 0) [
        | none ↦ returned k
        | some (u, us) ↦ run_task api n u (record k { tasks = us })
      ]

-- The first task is run, as often as said.
abbrev pub first_tasks : ℕ → List Event
first_tasks zero = []
first_tasks (suc n) = runs 0 ∷ first_tasks n

-- The tasks and the number of connections that a client has.
abbrev pub Left : {M : Type 0} → List Task → ℕ → Client M → Type 0
Left us m k = (k.tasks ≡ us) × (length k.connections ≡ m)

module _ {M : Type 0} (rows_left : M → ℕ) (api : MysqlApi M)
    (once : GivesRowsOnce rows_left api) where
  abbrev pub Reaches : List Event → Client M → (Client M → Type 0) → Type 0
  Reaches es k P =
      (n : ℕ) × (k' : Client M) × (run_events api n es k ≡ returned k') × Sound k' × P k'

  pub one_more-Reaches :
      (e : Event) (es : List Event) (k : Client M) (P : Client M → Type 0)
      → Sound k
      → Comes k e
      → ((n : ℕ) (k' : Client M) → happen api n e k ≡ returned k' → Sound k' → Reaches es k' P)
      → Reaches (e ∷ es) k P
  unfolding run_events
  one_more-Reaches e es k P v c rest =
      let (n, k1, p, w) = happen-total rows_left api once e k v c in
      let (m, k2, q, u, h) = rest n k1 p w in
      (
        n + m,
        k2,
        then_returns (λ n. happen api n e k) (λ n k'. run_events api n es k') n m k1 k2
            (happen-Lasts api e k) (run_events-Lasts api es k1) p q,
        u,
        h,
      )

  pub run_events-Reaches :
      (es : List Event) (k : Client M)
      → Sound k
      → ComeInTurn api es k
      → Reaches es k (λ _. Unit {0})
  unfolding run_events
  run_events-Reaches [] k v c = (0, k, refl, v, tt)
  run_events-Reaches (e ∷ es) k v (c, cs) =
      one_more-Reaches e es k (λ _. Unit {0}) v c
        (λ n k' p w. run_events-Reaches es k' w (cs n k' p))

  -- One history after another.
  pub Reaches-append :
      (es fs : List Event) (k : Client M) (P Q : Client M → Type 0)
      → (r : Reaches es k P) → Reaches fs r.1 Q
      → Reaches (es ++ fs) k Q
  Reaches-append es fs k P Q (n, k1, p, w, h) (m, k2, q, u, g) = (
    n + m,
    k2,
    run_events-append api (n + m) es fs k
        ∙ then_returns (λ n. run_events api n es k) (λ n k'. run_events api n fs k') n m k1 k2
            (run_events-Lasts api es k) (run_events-Lasts api fs k1) p q,
    u,
    g,
  )

  pub first_tasks-Reaches :
      (ts us : List Task) (k : Client M)
      → Sound k
      → k.tasks ≡ ts ++ us
      → Reaches (first_tasks (length ts)) k (Left us (length k.connections))
  unfolding run_events
  first_tasks-Reaches [] us k v e = (0, k, refl, v, (e, refl))
  first_tasks-Reaches (t ∷ ts) us k v e =
      one_more-Reaches (runs 0) (first_tasks (length ts)) k (Left us (length k.connections)) v
        (task 0)
        (λ n k' p w.
          let (tasks, same) = runs-tasks api n k k' t (ts ++ us) e p in
          subst (λ m. Reaches (first_tasks (length ts)) k' (Left us m)) same
            (first_tasks-Reaches ts us k' w tasks))
