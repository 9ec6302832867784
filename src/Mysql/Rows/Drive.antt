-- ===== src/Mysql/Rows/Drive.antt =====
-- HandleState (mysql_async_con.cc) with the events of a connection in between: it stops to wait, and
-- OnWaitEventInvoked goes on. A number of turns that is enough does not depend on the fuel.
use ltapp.Base.{ℕ, zero, suc, ◌≤◌, ◌≡◌, refl, ◌∙◌, true, false, List, [], ◌∷◌, arith}
use ltapp.Outcome.{ok}
use ltapp.Mysql.Api.{MysqlApi}
use ltapp.Mysql.Conn.{Conn, LtEvent, reset_wait_event, lt_ev_to_mysql_status}
use ltapp.Mysql.Conn.Entry.{step, handle_state}
use ltapp.Mysql.Run.{Run, returned, and_then, of_outcome}

module _ {M : Type 0} (api : MysqlApi M) where
  -- HandleState, and then the connection's events, one for each time that it waits.
  unfoldable pub drive : ℕ → ℕ → ℕ → List LtEvent → Conn M → Run (Conn M)
  drive first rest e [] c = handle_state api first e c
  drive first rest e (ev ∷ es) c = and_then (handle_state api first e c) λ c'.
      and_then (of_outcome (reset_wait_event c'))
        λ d. drive rest rest (lt_ev_to_mysql_status api ev) es d

  -- From one turn to another, with the events that are left.
  pub data Follows : ℕ → List LtEvent → Conn M → ℕ → List LtEvent → Conn M → Type 0 where
    done : {e : ℕ} {es : List LtEvent} {c : Conn M} → Follows e es c e es c
    turn :
        {e e' : ℕ} {es es' : List LtEvent} {c d c' : Conn M}
        → step api e c ≡ ok (d, true)
        → Follows e es d e' es' c'
        → Follows e es c e' es' c'
    waits :
        {e e' : ℕ} {ev : LtEvent} {es es' : List LtEvent} {c d d' c' : Conn M}
        → step api e c ≡ ok (d, false)
        → reset_wait_event d ≡ ok d'
        → Follows (lt_ev_to_mysql_status api ev) es d' e' es' c'
        → Follows e (ev ∷ es) c e' es' c'

  pub Follows-trans :
      {e e' e'' : ℕ} {es es' es'' : List LtEvent} {c c' c'' : Conn M}
      → Follows e es c e' es' c'
      → Follows e' es' c' e'' es'' c''
      → Follows e es c e'' es'' c''
  Follows-trans done g = g
  Follows-trans (turn s f) g = turn s (Follows-trans f g)
  Follows-trans (waits s r f) g = waits s r (Follows-trans f g)

  drive-turn :
      (first rest e : ℕ) (es : List LtEvent) (c d : Conn M)
      → step api e c ≡ ok (d, true)
      → drive (suc first) rest e es c ≡ drive first rest e es d
  unfolding drive handle_state
  drive-turn first rest e [] c d s = rw (s, handle_state) refl
  drive-turn first rest e (ev ∷ es) c d s = rw (s, handle_state) refl

  drive-waits :
      (first rest e : ℕ) (ev : LtEvent) (es : List LtEvent) (c d d' : Conn M)
      → step api e c ≡ ok (d, false)
      → reset_wait_event d ≡ ok d'
      → drive (suc first) rest e (ev ∷ es) c ≡ drive rest rest (lt_ev_to_mysql_status api ev) es d'
  unfolding drive handle_state
  drive-waits first rest e ev es c d d' s r = rw (s, r, handle_state) refl

  abbrev pub Enough : ℕ → ℕ → List LtEvent → Conn M → Conn M → Type 0
  Enough n e es c x = (first rest : ℕ) → n ≤ first → n ≤ rest → drive first rest e es c ≡ returned x

  turn-Enough :
      (n e : ℕ) (es : List LtEvent) (c d x : Conn M)
      → step api e c ≡ ok (d, true)
      → Enough n e es d x
      → Enough (suc n) e es c x
  turn-Enough n e es c d x s h zero rest p q = absurd (omega (arith, p))
  turn-Enough n e es c d x s h (suc first) rest p q =
      drive-turn first rest e es c d s ∙ h first rest (omega arith) (omega arith)

  waits-Enough :
      (n e : ℕ) (ev : LtEvent) (es : List LtEvent) (c d d' x : Conn M)
      → step api e c ≡ ok (d, false)
      → reset_wait_event d ≡ ok d'
      → Enough n (lt_ev_to_mysql_status api ev) es d' x
      → Enough (suc n) e (ev ∷ es) c x
  waits-Enough n e ev es c d d' x s r h zero rest p q = absurd (omega (arith, p))
  waits-Enough n e ev es c d d' x s r h (suc first) rest p q =
      drive-waits first rest e ev es c d d' s r ∙ h rest rest (omega arith) (omega arith)

  pub Follows-Enough :
      {e e' : ℕ} {es es' : List LtEvent} {c c' x : Conn M} (k : ℕ)
      → Follows e es c e' es' c'
      → Enough k e' es' c' x
      → (n : ℕ) × Enough n e es c x
  Follows-Enough k done g = (k, g)
  Follows-Enough k (turn s f) g =
      let (n, h) = Follows-Enough k f g in (suc n, turn-Enough n _ _ _ _ _ s h)
  Follows-Enough k (waits s r f) g =
      let (n, h) = Follows-Enough k f g in (suc n, waits-Enough n _ _ _ _ _ _ _ s r h)

  pub rests-Enough : (e : ℕ) (c : Conn M) → step api e c ≡ ok (c, false) → Enough 1 e [] c c
  unfolding drive handle_state
  rests-Enough e c s zero rest p q = absurd (omega (arith, p))
  rests-Enough e c s (suc first) rest p q = rw (s, handle_state) refl
