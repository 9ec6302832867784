-- ===== src/Mysql/History.antt =====
-- Histories of a connection: any calls of its methods, its events and its timers, in any order.
use ltapp.Base.{
  ℕ, zero, suc, ◌≡◌, refl, sym, ap, ◌∙◌, inl, inr, Bool, true, false, List, [], ◌∷◌, ◌++◌,
  Bool-cases, opt_list, append-nil, append_assoc,
}
use ltapp.Base.Int.{is_zero}
use ltapp.Outcome.{Outcome, ok, abort, Ensures, holds, Ensures-check, Ensures-bind}
use ltapp.Mysql.Api.{MysqlApi}
use ltapp.Mysql.Run.{
  Run, returned, aborted, of_outcome, and_then, Leaves, leaves, aborts, runs_out, Leaves-if,
  Leaves-returned, Leaves-map, Leaves-outcome, Leaves-and_then,
}
use ltapp.Mysql.Conn.{Conn, LtEvent, reset_wait_event}
use ltapp.Mysql.Conn.Entry.{
  step, handle_state, on_time_out, on_wait_event_invoked, wake, start_query, wake_close, close,
  sync_close, do_connection_check, run_posted, destroy,
}
use ltapp.Mysql.Refine.{
  View, view, Serve, keep, take, finish, drop_all, clean_up-Serve, finished-left,
}
use ltapp.Mysql.Refine.Turns.{step-Serve}

-- The queries that a server has been given, in order: done, current and waiting.
abbrev pub order : View → List ℕ
order v = v.done ++ (opt_list v.current ++ v.waiting)

-- The server was given `qs` besides, behind all others, and what was done before stays done, with
-- what is done since behind it.
pub record Follows (qs : List ℕ) (v w : View) : Type 0 where
  pub in_order : order w ≡ order v ++ qs
  pub since : List ℕ
  pub grows : w.done ≡ v.done ++ since

pub Follows-eq : {v w : View} → w ≡ v → Follows [] v w
Follows-eq {v} e = record {
  in_order = ap order e ∙ sym (append-nil (order v));
  since = [];
  grows = ap (λ u. u.done) e ∙ sym (append-nil v.done);
}

pub Follows-trans :
    {ps qs : List ℕ} {u v w : View} → Follows ps u v → Follows qs v w → Follows (ps ++ qs) u w
Follows-trans {ps} {qs} {u} f g = record {
  in_order = g.in_order ∙ ap (λ l. l ++ qs) f.in_order ∙ append_assoc (order u) ps qs;
  since = f.since ++ g.since;
  grows = g.grows ∙ ap (λ l. l ++ g.since) f.grows ∙ append_assoc u.done f.since g.since;
}

Follows-Serve : {v w : View} → Serve v w → Follows [] v w
Follows-Serve (keep e) = Follows-eq e
Follows-Serve {v} (take q n e r) = record {
  in_order = rw (e, n, r) (sym (append-nil _));
  since = [];
  grows = ap (λ u. u.done) e ∙ sym (append-nil v.done);
}
Follows-Serve {v} (finish q n e) = record {
  in_order = rw (e, n) (append_assoc v.done (q ∷ []) v.waiting ∙ sym (append-nil _));
  since = q ∷ [];
  grows = ap (λ u. u.done) e;
}
Follows-Serve {v} (drop_all e) = record {
  in_order = rw e refl;
  since = opt_list v.current ++ v.waiting;
  grows = ap (λ u. u.done) e;
}

-- A query at the end of those that wait.
Follows-submit :
    (q : ℕ) (v : View) → Follows (q ∷ []) v (record v { waiting = v.waiting ++ q ∷ [] })
Follows-submit q v = record {
  in_order = simp (append_assoc);
  since = [];
  grows = sym (append-nil v.done);
}

pub data Call : Type 0 where
  starts : ℕ → Call
  event : LtEvent → Call
  times_out closes syncs_close checks posted_task : Call

-- The query that a call submits, and those of a history.
abbrev pub given : Call → List ℕ
given (starts q) = q ∷ []
given _ = []

abbrev pub submitted : List Call → List ℕ
submitted [] = []
submitted (k ∷ ks) = given k ++ submitted ks

module _ {M : Type 0} (api : MysqlApi M) where
  unfoldable pub perform : ℕ → Call → Conn M → Run (Conn M)
  perform fuel (starts q) c = start_query api fuel q c
  perform fuel (event e) c = on_wait_event_invoked api fuel e c
  perform fuel times_out c = on_time_out api fuel c
  perform fuel closes c = close api fuel c
  perform fuel syncs_close c = of_outcome (sync_close api c)
  perform fuel checks c = returned (do_connection_check api c)
  perform fuel posted_task c = run_posted api fuel c

  unfoldable pub run_calls : ℕ → List Call → Conn M → Run (Conn M)
  run_calls fuel [] c = returned c
  run_calls fuel (k ∷ ks) c = and_then (perform fuel k c) λ c'. run_calls fuel ks c'

  -- A result that follows `c` with the queries `qs`.
  abbrev pub Keeps : List ℕ → Conn M → Run (Conn M) → Type 0
  Keeps qs c r = Leaves (λ c'. Follows qs (view c) (view c')) r

  then-Keeps :
      {ps qs : List ℕ} (c d : Conn M) {r : Run (Conn M)}
      → Follows ps (view c) (view d)
      → Keeps qs d r
      → Keeps (ps ++ qs) c r
  then-Keeps c d f k = Leaves-map (λ c' g. Follows-trans f g) k

  loop-Keeps :
      (n e : ℕ) (c : Conn M)
      → ((d : Conn M) → Keeps [] d (handle_state api n e d))
      → (o : Outcome (Conn M × Bool)) → step api e c ≡ o
      → Keeps [] c (elim o [
        | abort ↦ aborted
        | ok (d, more) ↦ elim more [ true ↦ handle_state api n e d | false ↦ returned d ]
      ])
  loop-Keeps n e c ih abort s = aborts
  loop-Keeps n e c ih (ok (d, true)) s =
      then-Keeps {ps = []} c d (Follows-Serve (step-Serve api e c d true s)) (ih d)
  loop-Keeps n e c ih (ok (d, false)) s = leaves (Follows-Serve (step-Serve api e c d false s))

  handle_state-Keeps : (n e : ℕ) (c : Conn M) → Keeps [] c (handle_state api n e c)
  unfolding handle_state
  handle_state-Keeps zero e c = runs_out
  handle_state-Keeps (suc n) e c = loop-Keeps n e c (handle_state-Keeps n e) (step api e c) refl

  start_query-Keeps : (n q : ℕ) (c : Conn M) → Keeps (q ∷ []) c (start_query api n q c)
  unfolding start_query wake
  start_query-Keeps n q c =
      Leaves-if c.in_loop_thread
        (Leaves-if _
          (then-Keeps {ps = q ∷ []} c queued (Follows-submit q (view c))
            (handle_state-Keeps n 0 queued))
          (leaves (Follows-submit q (view c))))
        aborts
    where
      queued : Conn M
      queued = record c { query_list = c.query_list ++ q ∷ [] }

  -- If StartQuery returns, its query stands behind all others that the connection was given.
  pub start_query-order :
      (n q : ℕ) (c c' : Conn M)
      → start_query api n q c ≡ returned c'
      → order (view c') ≡ order (view c) ++ q ∷ []
  start_query-order n q c c' h = (Leaves-returned (start_query-Keeps n q c) h).in_order

  close-Keeps : (n : ℕ) (c : Conn M) → Keeps [] c (close api n c)
  unfolding close wake_close
  close-Keeps n c =
      Leaves-if c.in_loop_thread
        (Leaves-if _ (handle_state-Keeps n 0 (record c { schedule_close = true }))
          (leaves (Follows-eq refl)))
        aborts

  sync_close-Keeps : (c : Conn M) → Keeps [] c (of_outcome (sync_close api c))
  unfolding sync_close
  sync_close-Keeps c =
      Leaves-outcome (Ensures-bind (clean_up-Serve c) (λ d v. holds (Follows-Serve v)))

  reset-view : (c : Conn M) → Ensures (λ c'. view c' ≡ view c) (reset_wait_event c)
  unfolding reset_wait_event
  reset-view c = Ensures-check (λ t _. Ensures-check (λ i _. holds refl))

  reset-Keeps :
      (n e : ℕ) (c : Conn M)
      → Keeps [] c (and_then (of_outcome (reset_wait_event c)) λ c'. handle_state api n e c')
  reset-Keeps n e c =
      Leaves-and_then (Leaves-outcome (reset-view c))
        λ c' v. then-Keeps {ps = []} c c' (Follows-eq v) (handle_state-Keeps n e c')

  pub perform-Keeps : (n : ℕ) (k : Call) (c : Conn M) → Keeps (given k) c (perform n k c)
  unfolding perform on_wait_event_invoked on_time_out run_posted do_connection_check
  perform-Keeps n (starts q) c = start_query-Keeps n q c
  perform-Keeps n (event e) c = reset-Keeps n _ c
  perform-Keeps n times_out c = reset-Keeps n _ c
  perform-Keeps n closes c = close-Keeps n c
  perform-Keeps n syncs_close c = sync_close-Keeps c
  perform-Keeps n checks c = leaves (
      Follows-eq (elim (Bool-cases (is_zero (api.ping c.mysql).0)) [
        | inl e ↦ rw e refl
        | inr e ↦ rw e refl
      ]))
  perform-Keeps n posted_task c = handle_state-Keeps n 0 c

  run_calls-Keeps :
      (n : ℕ) (ks : List Call) (c : Conn M) → Keeps (submitted ks) c (run_calls n ks c)
  unfolding run_calls
  run_calls-Keeps n [] c = leaves (Follows-eq refl)
  run_calls-Keeps n (k ∷ ks) c =
      Leaves-and_then (perform-Keeps n k c) λ c' f. then-Keeps c c' f (run_calls-Keeps n ks c')

  -- Whatever methods are called and whatever events come, in any order, if they all return:
  -- the queries that are done, the one in process and those that wait are, in this order,
  -- those that the connection had followed by those submitted since.
  run_calls-order :
      (n : ℕ) (ks : List Call) (c c' : Conn M)
      → run_calls n ks c ≡ returned c'
      → order (view c') ≡ order (view c) ++ submitted ks
  run_calls-order n ks c c' h = (Leaves-returned (run_calls-Keeps n ks c) h).in_order

  -- Whatever is called in whatever order, if it all returns: once the connection is
  -- destroyed, OnQueryDone was called on every query that it had and that was submitted
  -- since, once for each submission, in the order of submission.
  pub run_calls-destroy :
      (n : ℕ) (ks : List Call) (c c' : Conn M)
      → run_calls n ks c ≡ returned c'
      → (destroy c').store.finished ≡ order (view c) ++ submitted ks
  unfolding destroy
  run_calls-destroy n ks c c' h =
      finished-left c'.in_process c'.query_list c'.store ∙ run_calls-order n ks c c' h
