-- ===== src/Mysql/Client.antt =====
-- MysqlAsyncClientImpl of integration/async_mysql/mysql_client_impl.h and .cc: several connections
-- that are used in turn. The callbacks of the MysqlClient interface are empty there.
pub mod Work
pub mod Rotation
pub mod Sound
pub mod Total
pub mod Init
pub mod End
pub mod Fuel
pub mod Closing
pub mod Reaches
pub mod Once
pub mod AllDone
mod Tests
use ltapp.Base.{
  ℕ, zero, suc, ◌+◌, ◌-◌, ◌%◌, ◌^◌, ◌<◌, ◌≡◌, refl, ap, ◌⊎◌, inl, inr, Bool, true, false, Option,
  none, some, List, [], ◌∷◌, ◌++◌, arith, ltb, if◌then◌else◌, length, get_elem?, Bool-cases,
}
use ltapp.Base.Int.{ℤ, negsuc}
use ltapp.Mysql.Session
use ltapp.Mysql.Store
use ltapp.Mysql.Store.{Store}
use ltapp.Outcome.{Outcome, ok, abort, check_some, ◌>>=◌}
use ltapp.Mysql.Api.{MysqlApi, MysqlOptions}
use ltapp.Mysql.Conn.{Conn, State}
use ltapp.Mysql.Conn.Entry.{new, init_connection, sync_connect}

-- The tasks that the client posts to the loops, connections named by their position.
pub data Task : Type 0 where
  query_done : ℕ → Task
  start_query_on : ℕ → ℕ → Task
  sync_close_on : ℕ → Task

pub record Client (M : Type 0) : Type 0 where
  pub count : ℕ  -- const int
  pub use_index : ℕ  -- std::atomic<int>, as its 32 bits
  pub connections : List (Conn M)
  pub store : Store
  pub tasks : List Task

-- use_index_ as the size_t that it becomes in `use_index_ % connections_.size()`.
unfoldable pub as_size : ℕ → ℕ
as_size w = if ltb w (2 ^ 31) then w else w + (2 ^ 64 - 2 ^ 32)

-- What the operating system's memory gives the members that constructors leave unset.
pub record Garbage (M : Type 0) : Type 0 where
  pub handle : M
  pub err_no : ℤ
  pub state : State
  pub option : MysqlOptions

pub get_elem?-in :
    {A : Type 0} (xs : List A) (i : ℕ) → i < length xs → (a : A) × (get_elem? xs i ≡ some a)
get_elem?-in [] i h = elim h [ ]
get_elem?-in (x ∷ xs) zero h = (x, refl)
get_elem?-in (x ∷ xs) (suc i) h = get_elem?-in xs i (omega arith)

module _ {M : Type 0} where
  unfoldable pub next_index : Client M → ℕ
  unfolding as_size
  next_index k = as_size ((k.use_index + 1) % 2 ^ 32) % length k.connections

  -- get_client: `!con` in the loop's test is false once a connection was taken, so that there is
  -- one round. With no connection the division by zero stops the process.
  unfoldable pub get_client : Client M → Outcome (Client M × Option ℕ)
  unfolding check_some
  get_client k =
      let k' = record k { use_index = (k.use_index + 1) % 2 ^ 32 } in
      check_some (get_elem? k.connections (next_index k))
        λ con. ok (k', if con.ready then some (next_index k) else none)

  unfoldable pub post : Task → Client M → Client M
  post t k = record k { tasks = k.tasks ++ t ∷ [] }

  unfoldable pub hand_back : ℕ → Client M → Client M
  unfolding post
  hand_back q k = post (query_done q) (record k {
    store = Store.modify q (Session.set_code (negsuc 0) "connection not ready") k.store;
  })

  -- The rest of PendingQuery. `in_loop` says whether the calling thread has a loop: elsewhere
  -- base::MessageLoop::Current() is null, and posting OnQueryDone to it stops the process.
  unfoldable pub dispatch_query : Bool → ℕ → Option ℕ → Client M → Outcome (Client M)
  unfolding hand_back post
  dispatch_query in_loop q none k = if in_loop then ok (hand_back q k) else abort
  dispatch_query in_loop q (some i) k = ok (post (start_query_on i q) k)

  unfoldable pub pending_query : Bool → ℕ → Client M → Outcome (Client M)
  pending_query in_loop q k = do (k', con) ← get_client k; dispatch_query in_loop q con k'

  unfoldable pub close_tasks : ℕ → List (Conn M) → List Task
  close_tasks i [] = []
  close_tasks i (_ ∷ cs) = sync_close_on i ∷ close_tasks (i + 1) cs

  unfoldable pub close : Client M → Client M
  unfolding close_tasks
  close k = record k { tasks = k.tasks ++ close_tasks 0 k.connections }

  -- InitWithOption, the rounds that are left; LOG(FATAL) stops the process.
  unfoldable pub init_rounds :
      MysqlApi M → Garbage M → MysqlOptions → ℕ → Client M → Outcome (Client M)
  init_rounds api g o zero k = ok k
  init_rounds api g o (suc n) k =
      let (con, connected) =
        sync_connect api
          (init_connection api o (new true g.handle g.err_no g.state g.option true)) in
      let rest = init_rounds api g o n (record k { connections = k.connections ++ con ∷ [] }) in
      if connected then rest else abort

  unfoldable pub init_with_option :
      MysqlApi M → Garbage M → MysqlOptions → Client M → Outcome (Client M)
  unfolding init_rounds
  init_with_option api g o k = init_rounds api g o k.count k

  abbrev next_use : Client M → ℕ
  next_use k = (k.use_index + 1) % 2 ^ 32

  -- How a query is passed on: by a task for the connection whose turn it is, or, if that one is not
  -- ready, back with an error.
  pub data Passes (in_loop : Bool) (q : ℕ) (k k' : Client M) (con : Conn M) : Type 0 where
    on :
        con.ready ≡ true
        → k' ≡ record k {
          use_index = next_use k;
          tasks = k.tasks ++ start_query_on (next_index k) q ∷ [];
        }
        → Passes in_loop q k k' con
    back :
        con.ready ≡ false
        → in_loop ≡ true
        → k'.tasks ≡ k.tasks ++ query_done q ∷ []
        → k'.connections ≡ k.connections
        → k'.use_index ≡ next_use k
        → (k'.store.sessions q).code ≡ negsuc 0
        → k'.store.finished ≡ k.store.finished
        → Passes in_loop q k k' con

  -- PendingQuery of a client with at least one connection looks at one connection only, that
  -- of the next index: the query goes to it if it is ready, and is otherwise handed back
  -- with the code -1, whatever the other connections are. From a thread with a loop it
  -- returns; from one without, it stops the process exactly if that connection is not ready.
  pub pending_query-Passes :
      (in_loop : Bool) (q : ℕ) (k : Client M)
      → 0 < length k.connections
      → (con : Conn M) × (get_elem? k.connections (next_index k) ≡ some con)
        × ((con.ready ≡ false) × (in_loop ≡ false) × (pending_query in_loop q k ≡ abort)
            ⊎ (k' : Client M) × (pending_query in_loop q k ≡ ok k') × Passes in_loop q k k' con)
  unfolding pending_query get_client dispatch_query hand_back Store.modify Session.set_code
  pending_query-Passes in_loop q k h =
      let (con, e) = get_elem?-in k.connections (next_index k) (unfold next_index in omega arith) in
      elim (Bool-cases con.ready) [
        | inl r ↦ (
          con,
          e,
          inr (
            post (start_query_on (next_index k) q) (record k { use_index = next_use k }),
            rw (e, r) refl,
            on r refl,
          ),
        )
        | inr r ↦ (
          con,
          e,
          elim (Bool-cases in_loop) [
            | inl l ↦ inr (
              hand_back q (record k { use_index = next_use k }),
              rw (e, r, l) refl,
              back r l refl refl refl (ground arith) refl,
            )
            | inr l ↦ inl (r, l, rw (e, r, l) refl)
          ],
        )
      ]

  -- From a thread with a loop.
  pub pending_query-in_loop :
      (q : ℕ) (k : Client M)
      → 0 < length k.connections
      → (con : Conn M) × (k' : Client M) × (pending_query true q k ≡ ok k') × Passes true q k k' con
  pending_query-in_loop q k h =
      let (con, e, p) = pending_query-Passes true q k h in
      elim p [ inl (r, l, a) ↦ cc | inr (k', a, w) ↦ (con, k', a, w) ]

  pub Passes-connections :
      (b : Bool) (q : ℕ) (k k' : Client M) (con : Conn M)
      → Passes b q k k' con
      → k'.connections ≡ k.connections
  Passes-connections b q k k' con (on r e) = ap (λ x. x.connections) e
  Passes-connections b q k k' con (back r l t c u n f) = c
