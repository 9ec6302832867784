-- ===== src/Mysql/Client/End.antt =====
-- The constructor and the destructor of MysqlAsyncClientImpl (mysql_client_impl.cc), and what has
-- become of a client's queries at its end.
use ltapp.Base.{ℕ, ◌+◌, ◌≡◌, ap, List, [], ◌∷◌, ◌++◌, arith}
use ltapp.Base.Count.{count, count-append}
use ltapp.Mysql.Store.{Store}
use ltapp.Mysql.Api.{MysqlApi}
use ltapp.Mysql.Run.{returned}
use ltapp.Mysql.Conn.{Conn}
use ltapp.Mysql.Conn.Entry.{destroy}
use ltapp.Mysql.Refine.{finished-left}
use ltapp.Mysql.Client.{Client}
use ltapp.Mysql.Client.Work.{Event, run_events}
use ltapp.Mysql.Client.Work.Places.{left, held, queued, whereabouts, all_handed}
use ltapp.Mysql.Client.Work.Whereabouts.{run_events-whereabouts}

module _ {M : Type 0} where
  -- The constructor leaves use_index_ unset: what it holds is an argument.
  unfoldable pub new : ℕ → ℕ → Store → Client M
  new count use_index store = record {
    count = count;
    use_index = use_index;
    connections = [];
    store = store;
    tasks = [];
  }

  -- connections_.clear(), where no task holds a connection any more.
  unfoldable pub destroy_connections : List (Conn M) → Store → Store
  destroy_connections [] s = s
  destroy_connections (c ∷ cs) s = destroy_connections cs (destroy (record c { store = s })).store

  unfoldable pub destroy_client : Client M → Client M
  unfolding destroy_connections
  destroy_client k = record k {
    connections = [];
    store = destroy_connections k.connections k.store;
  }

  finished-destroy :
      (c : Conn M) (s : Store)
      → (destroy (record c { store = s })).store.finished ≡ s.finished ++ left c
  unfolding destroy
  finished-destroy c s = finished-left c.in_process c.query_list s

  finished-destroy_connections :
      (a : ℕ) (cs : List (Conn M)) (s : Store)
      → count a (destroy_connections cs s).finished ≡ count a s.finished + count a (held cs)
  unfolding destroy_connections
  finished-destroy_connections a [] s = omega arith
  finished-destroy_connections a (c ∷ cs) s = omega (
    arith,
    finished-destroy_connections a cs (destroy (record c { store = s })).store,
    ap (count a) (finished-destroy c s),
    count-append a s.finished (left c),
    count-append a (left c) (held cs),
  )

module _ {M : Type 0} (api : MysqlApi M) where
  -- Whatever is submitted, whichever tasks are run and whatever the connections meet, in any
  -- order, if it all returns and no task is left: once the client is destroyed, every query
  -- was done as often as the client had it, done or not, before and was handed it since:
  -- none is lost, and none is done twice.
  pub run_events-destroy_client :
      (n : ℕ) (es : List Event) (k k' : Client M)
      → run_events api n es k ≡ returned k'
      → k'.tasks ≡ []
      → (a : ℕ)
      → count a (destroy_client k').store.finished
        ≡ count a (whereabouts k) + count a (all_handed es)
  unfolding destroy_client
  run_events-destroy_client n es k k' h t a = omega (
    arith,
    finished-destroy_connections a k'.connections k'.store,
    run_events-whereabouts api n es k k' h a,
    count-append a k'.store.finished (held k'.connections ++ queued k'.tasks),
    count-append a (held k'.connections) (queued k'.tasks),
    ap (λ ts. count a (queued ts)) t,
  )
