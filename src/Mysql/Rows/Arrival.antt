-- ===== src/Mysql/Rows/Arrival.antt =====
-- A row of a query that comes over several waits: HandleState (mysql_async_con.cc) stops, and goes on
-- with the next event of the connection, until the row is there.
use ltapp.Base.{
  ℕ, ◌*◌, ◌≡◌, refl, ap, ◌∙◌, Bool, true, false, ◌&&◌, ◌||◌, List, [], ◌∷◌, ◌++◌, Option, none,
  some, ◌==◌, is_some, Option-cases, Bool-cases, inl, inr,
}
use ltapp.Base.Int.{to_int32}
use ltapp.Outcome.{ok, check_some}
use ltapp.Mysql.Api.{MysqlApi, ResultSet, Row, Async}
use ltapp.Mysql.Conn.{
  State, Conn, Interest, Timeout, LtEvent, has_flag, goto, go_next_state, wait_mysql_status,
  arm_timer, reset_wait_event, lt_ev_to_mysql_status,
}
use ltapp.Mysql.Conn.Step.{handle_fetch_start, handle_fetch_wait}
use ltapp.Mysql.Conn.Entry.{dispatch, step}
use ltapp.Mysql.Answer.{check_some-some}
use ltapp.Mysql.Rows.Drive.{Follows, done, turn, waits}

module _ {M : Type 0} (api : MysqlApi M) where
  -- Status `e` says that something happened for which status `st` asked.
  abbrev pub meets : ℕ → ℕ → Bool
  meets st e =
      (has_flag st api.wait_read && has_flag e api.wait_read)
      || (has_flag st api.wait_write && has_flag e api.wait_write)
      || (has_flag st api.wait_except && has_flag e api.wait_except)
      || (has_flag st api.wait_timeout && has_flag e api.wait_timeout)

  -- A fetch gives `o` after the waits with the statuses of the list, as long as each is continued with
  -- a status that meets it and a result of `n` columns, and `K` holds of the handle then.
  abbrev pub Arrives : ℕ → List ℕ → Option Row → (M → Type 0) → Async (Option Row) M → Type 0
  Arrives n [] o K r = (r.status ≡ 0) × (r.out ≡ o) × K r.handle
  Arrives n (st ∷ sts) o K r =
      (r.status ≡ st)
      × ((st == 0) ≡ false)
      × ((res : ResultSet) (e : ℕ) (row : Option Row)
          → res.num_fields ≡ n
          → meets st e ≡ true
          → Arrives n sts o K (api.fetch_row_cont res e row r.handle))

  -- From a handle on, the library gives the rows of a result of `n` columns and then the end, each
  -- after waits with the statuses of its list.
  abbrev pub Delivers : ℕ → List (List ℕ × Row) → List ℕ → M → Type 0
  Delivers n [] last m =
      (res : ResultSet) (row : Option Row)
      → res.num_fields ≡ n
      → Arrives n last none (λ _. Unit {0}) (api.fetch_row_start res row m)
  Delivers n ((sts, r) ∷ rows) last m =
      (res : ResultSet) (row : Option Row)
      → res.num_fields ≡ n
      → Arrives n sts (some r) (Delivers n rows last) (api.fetch_row_start res row m)

  abbrev pub all_waits : List (List ℕ × Row) → List ℕ → List ℕ
  all_waits [] last = last
  all_waits ((sts, r) ∷ rows) last = sts ++ all_waits rows last

  -- The events that come: for each wait, one that the wait's status asked for.
  abbrev pub Meet : List ℕ → List LtEvent → Type 0
  Meet [] [] = Unit {0}
  Meet (st ∷ sts) (ev ∷ es) = (meets st (lt_ev_to_mysql_status api ev) ≡ true) × Meet sts es
  Meet _ _ = ⊥

  -- Query `q` is in process with its result, no other waits, and the connection has its timer.
  pub record At (q : ℕ) (res : ResultSet) (c : Conn M) : Type 0 where
    pub current : c.in_process ≡ some q
    pub fetched : c.result ≡ some res
    pub alone : c.query_list ≡ []
    pub open_still : c.schedule_close ≡ false
    pub timer : is_some c.timeout ≡ true

  abbrev with_row : Async (Option Row) M → Conn M → Conn M
  with_row r c = record c { result_row = r.out; mysql = r.handle }

  abbrev armed : Interest → Timeout → Conn M → Conn M
  armed x t c = record c {
    current_state = State.fetch_row_wait;
    fd_event = some x;
    timeout = some t;
  }

  abbrev interest : ℕ → Interest
  interest st = record { reading = has_flag st api.wait_read; writing = has_flag st api.wait_write }

  abbrev asked_timer : Conn M → Timeout
  asked_timer c = record {
    attached = true;
    interval = to_int32 (1000 * api.get_timeout_value c.mysql);
  }

  abbrev waiting : ℕ → Option Timeout → Conn M → Conn M
  waiting st o c = record c {
    current_state = State.fetch_row_wait;
    fd_event = some (interest st);
    timeout = o;
  }

  stops_to_wait :
      (st : ℕ) (n : State) (c : Conn M)
      → (st == 0) ≡ false
      → is_some c.timeout ≡ true
      → (x : Interest) × (t : Timeout) × (go_next_state api st State.fetch_row_wait n c
          ≡ ok (armed x t c, false))
  unfolding go_next_state wait_mysql_status arm_timer check_some goto
  stops_to_wait st n c z i = elim (Option-cases c.timeout) [
    | inl e ↦ cc
    | inr (t, e) ↦ elim (Bool-cases (has_flag st api.wait_timeout)) [
      | inl f ↦ (interest st, asked_timer c, rw (z, f, e, go_next_state) refl)
      | inr f ↦ (interest st, t, rw (z, f, go_next_state) (ap (λ o. ok (waiting st o c, false)) e))
    ]
  ]

  -- A row, or the end, is there.
  pub record Arrived (q : ℕ) (res : ResultSet) (o : Option Row) (K : M → Type 0) (c d : Conn M)
      : Type 0 where
    pub state : d.current_state ≡ State.fetch_row_result_ready
    pub at : At q res d
    pub row : d.result_row ≡ o
    pub handle : K d.mysql
    pub store : d.store ≡ c.store

  abbrev calm : Interest → Timeout → Conn M → Conn M
  calm x t c = record c {
    current_state = State.fetch_row_wait;
    fd_event = some (record { reading = false; writing = false });
    timeout = some (record t { attached = false });
  }

  calms :
      (x : Interest) (t : Timeout) (c : Conn M) → reset_wait_event (armed x t c) ≡ ok (calm x t c)
  unfolding reset_wait_event check_some
  calms x t c = refl

  cont_turn :
      (e : ℕ) (res : ResultSet) (c : Conn M)
      → c.current_state ≡ State.fetch_row_wait
      → c.result ≡ some res
      → step api e c
        ≡ go_next_state api
            (api.fetch_row_cont res e c.result_row c.mysql).status
            State.fetch_row_wait
            State.fetch_row_result_ready
            (with_row (api.fetch_row_cont res e c.result_row c.mysql) c)
  unfolding step dispatch handle_fetch_wait
  cont_turn e res c s f = ap (λ x. dispatch api e x c) s ∙ check_some-some _ f

  pub start_turn :
      (e : ℕ) (res : ResultSet) (c : Conn M)
      → c.current_state ≡ State.fetch_row_start
      → c.result ≡ some res
      → step api e c
        ≡ go_next_state api
            (api.fetch_row_start res c.result_row c.mysql).status
            State.fetch_row_wait
            State.fetch_row_result_ready
            (with_row (api.fetch_row_start res c.result_row c.mysql) c)
  unfolding step dispatch handle_fetch_start
  start_turn e res c s f = ap (λ x. dispatch api e x c) s ∙ check_some-some _ f

  goes_on :
      (st : ℕ) (w n : State) (c : Conn M)
      → st ≡ 0
      → go_next_state api st w n c ≡ ok (goto n c, true)
  unfolding go_next_state
  goes_on st w n c z = rw (z, go_next_state) refl

  -- From a call of the library to its answer, over the waits.
  pub arrival :
      (n : ℕ) (sts : List ℕ) (o : Option Row) (K : M → Type 0) (r : Async (Option Row) M) (e : ℕ)
      (later : List ℕ) (q : ℕ) (es : List LtEvent) (res : ResultSet) (c : Conn M)
      → At q res c
      → res.num_fields ≡ n
      → step api e c
        ≡ go_next_state api r.status State.fetch_row_wait State.fetch_row_result_ready
            (with_row r c)
      → Arrives n sts o K r
      → Meet (sts ++ later) es
      → (e' : ℕ) × (es' : List LtEvent) × (d : Conn M) × Follows api e es c e' es' d
        × Meet later es'
        × Arrived q res o K c d
  unfolding goto
  arrival n [] o K r e later q es res c a nf s (z, f, h) l = (
    e,
    es,
    goto State.fetch_row_result_ready (with_row r c),
    turn (s ∙ goes_on _ _ _ _ z) done,
    l,
    record {
      state = refl;
      at = record {
        current = a.current;
        fetched = a.fetched;
        alone = a.alone;
        open_still = a.open_still;
        timer = a.timer;
      };
      row = f;
      handle = h;
      store = refl;
    },
  )
  arrival n (st ∷ sts) o K r e later q [] res c a nf s h l = absurd l
  arrival n (st ∷ sts) o K r e later q (ev ∷ es) res c a nf s (y, z, h) (met, l) =
      let (x, t, stopped) =
        stops_to_wait r.status State.fetch_row_result_ready (with_row r c) (ap (λ v. v == 0) y ∙ z)
          a.timer in
      let d = calm x t (with_row r c) in
      let ev_status = lt_ev_to_mysql_status api ev in
      let b : At q res d = record {
        current = a.current;
        fetched = a.fetched;
        alone = a.alone;
        open_still = a.open_still;
        timer = refl;
      } in
      let (e', es', d', f, m, v) =
        arrival n sts o K (api.fetch_row_cont res ev_status d.result_row d.mysql) ev_status later q
          es res d b nf (cont_turn ev_status res d refl a.fetched)
          (h res ev_status d.result_row nf met) l in
      (
        e',
        es',
        d',
        waits (s ∙ stopped) (calms x t (with_row r c)) f,
        m,
        record { state = v.state; at = v.at; row = v.row; handle = v.handle; store = v.store },
      )
