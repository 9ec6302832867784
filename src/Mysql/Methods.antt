-- ===== src/Mysql/Methods.antt =====
-- The public methods of a connection: from which states they return, and what they do.
use ltapp.Base.{
  ℕ, ◌≡◌, refl, ◌∙◌, inl, inr, Bool, true, none, some, Option, opt_list, [], ◌∷◌, ◌++◌, arith,
  Bool-cases, is_some, not, ◌&&◌,
}
use ltapp.Base.Int.{ℤ}
use ltapp.Outcome.{Returns, returns, Returns-check, Returns-ok}
use ltapp.Mysql.Run.{returned, and_then, of_outcome}
use ltapp.Mysql.Api.{MysqlApi, MysqlOptions}
use ltapp.Mysql.Conn.{
  State, Conn, LtEvent, reset_wait_event, lt_ev_to_mysql_status, clean_up, detach, Interest,
}
use ltapp.Mysql.Conn.Entry.{
  new, on_wait_event_invoked, on_time_out, handle_state, wake, start_query, wake_close, close,
  connect, init_connection, sync_connect, is_idle, sync_close,
}
use ltapp.Mysql.Refine.{view}
use ltapp.Mysql.Safety.{Inv, Settled}
use ltapp.Mysql.Total.{GivesRowsOnce}
use ltapp.Mysql.Total.Halts.{handle_state-Halts}
use ltapp.Mysql.History.{order, start_query-order}

module _ {M : Type 0} (api : MysqlApi M) where
  -- A new connection that was initialised and then told to connect is in its loop, whatever
  -- the members that the constructor leaves unset hold.
  connect-Inv :
      (has_client : Bool) (m : M) (err : ℤ) (s : State) (o o' : MysqlOptions)
      → Inv (connect api (init_connection api o (new has_client m err s o' true)))
  unfolding connect init_connection new
  connect-Inv has_client m err s o o' = record { fits = ground arith; installed = λ h. cc }

  -- A new connection that was initialised and whose SyncConnect gave true is in its loop,
  -- whatever the members that the constructor leaves unset hold.
  pub sync_connect-Inv :
      (has_client : Bool) (m : M) (err : ℤ) (s : State) (o o' : MysqlOptions)
      → (sync_connect api (init_connection api o (new has_client m err s o' true))).1 ≡ true
      → Inv (sync_connect api (init_connection api o (new has_client m err s o' true))).0
  unfolding sync_connect init_connection new
  sync_connect-Inv has_client m err s o o' h = ground arith

module _ {M : Type 0} (rows_left : M → ℕ) (api : MysqlApi M)
    (once : GivesRowsOnce rows_left api) where
  wake-total :
      (c : Conn M) → Inv c → (n : ℕ) × (c' : Conn M) × (wake api n c ≡ returned c') × Inv c'
  unfolding wake
  wake-total c v = elim (Bool-cases (is_idle c.current_state && not (is_some c.in_process))) [
    | inl e ↦
        let (n, c', r, v', s) = handle_state-Halts rows_left api once 0 c v in
        (n, c', rw (wake, e) r, v')
    | inr e ↦ (0, c, rw (wake, e) refl, v)
  ]

  -- If the client library gives each row once, StartQuery on a connection that is in its
  -- loop returns, with some fuel, leaves it in its loop, and puts the query behind all
  -- others.
  pub start_query-total :
      (q : ℕ) (c : Conn M)
      → Inv c
      → (n : ℕ) × (c' : Conn M) × (start_query api n q c ≡ returned c')
        × Inv c'
        × (order (view c') ≡ order (view c) ++ q ∷ [])
  start_query-total q c v =
      let (n, c', r, v') = wake-total queued queued-Inv in
      (n, c', in_loop n ∙ r, v', start_query-order api n q c c' (in_loop n ∙ r))
    where
      queued : Conn M
      queued = record c { query_list = c.query_list ++ q ∷ [] }

      queued-Inv : Inv queued
      queued-Inv = record { fits = ground (arith, v.fits); installed = v.installed }

      in_loop : (n : ℕ) → start_query api n q c ≡ wake api n queued
      in_loop n = unfold start_query in ground (arith, v.fits)

  reset-Inv :
      (c : Conn M) → Inv c → is_some c.fd_event ≡ true → Returns (λ c'. Inv c') (reset_wait_event c)
  unfolding reset_wait_event
  reset-Inv c v i = Returns-check v.fits.timer (λ t _.
      Returns-check i
        (λ f _. returns (record { fits = ground (arith, v.fits); installed = λ _. refl })))

  resumed-total :
      (e : ℕ) (c : Conn M)
      → Inv c
      → is_some c.fd_event ≡ true
      → (n : ℕ) × (c' : Conn M) × (and_then
            (of_outcome (reset_wait_event c))
            (λ d. handle_state api n e d)
          ≡ returned c')
        × Inv c'
        × Settled c'
  resumed-total e c v i =
      let (d, h, w) = Returns-ok (reset-Inv c v i) in
      let (n, c', r, v', s) = handle_state-Halts rows_left api once e d w in (n, c', rw h r, v', s)

  -- If the client library gives each row once, an event on a connection that is in its loop
  -- and has its event installed is handled: the handler returns, with some fuel, and leaves
  -- a connection that is in its loop and waits, rests or is closed.
  pub event-total :
      (e : LtEvent) (c : Conn M)
      → Inv c
      → is_some c.fd_event ≡ true
      → (n : ℕ) × (c' : Conn M) × (on_wait_event_invoked api n e c ≡ returned c')
        × Inv c'
        × Settled c'
  unfolding on_wait_event_invoked
  event-total e c v i = resumed-total (lt_ev_to_mysql_status api e) c v i

  pub time_out-total :
      (c : Conn M)
      → Inv c
      → is_some c.fd_event ≡ true
      → (n : ℕ) × (c' : Conn M) × (on_time_out api n c ≡ returned c') × Inv c' × Settled c'
  unfolding on_time_out
  time_out-total c v i = resumed-total api.wait_timeout c v i

module _ {M : Type 0} (api : MysqlApi M) where
  -- SyncClose of a connection in its loop returns, and leaves it closed, without queries.
  pub sync_close-Inv :
      (c : Conn M)
      → Inv c
      → Returns (λ c'. Inv c' × (opt_list c'.in_process ++ c'.query_list ≡ [])) (sync_close api c)
  unfolding sync_close clean_up
  sync_close-Inv c v = rw v.fits.in_loop (
      returns (
        record {
          fits = record {
            in_loop = refl;
            timer = timer c.fd_event;
            busy = refl;
            fetched = λ h. cc;
            live = refl;
          };
          installed = λ h. cc;
        },
        refl,
      ))
    where
      timer :
          (o : Option Interest)
          → is_some (elim o [ none ↦ c.timeout | some _ ↦ detach c.timeout ]) ≡ true
      timer none = v.fits.timer
      timer (some _) = ground (arith, v.fits.timer)

module _ {M : Type 0} (api : MysqlApi M) where
  -- Close on an idle connection, called in its loop's thread, only notes the wish: nothing
  -- is closed, and the state machine is not run.
  close-idle :
      (n : ℕ) (c : Conn M)
      → c.in_loop_thread ≡ true
      → c.current_state ≡ State.connection_idle
      → close api n c ≡ returned (record c { schedule_close = true })
  unfolding close wake_close
  close-idle n c l s = ground arith
