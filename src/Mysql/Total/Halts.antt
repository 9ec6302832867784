-- ===== src/Mysql/Total/Halts.antt =====
-- The loop of HandleState (mysql_async_con.cc) ends: it has fuel enough.
use ltapp.Base.{ℕ, zero, suc, ◌<◌, ◌≡◌, refl, inl, inr, Bool, true, false, arith}
use ltapp.Outcome.{ok, Ensures-ok, Returns-ok}
use ltapp.Mysql.Api.{MysqlApi}
use ltapp.Mysql.Conn.{Conn}
use ltapp.Mysql.Conn.Entry.{step, handle_state}
use ltapp.Mysql.Run.{returned}
use ltapp.Mysql.Safety.{Inv, Settled, Turn}
use ltapp.Mysql.Safety.Turns.{step-Turn}
use ltapp.Mysql.Total.{Measure, Less, measure, GivesRowsOnce}
use ltapp.Mysql.Total.Down.{step-Down}

module _ {M : Type 0} (rows_left : M → ℕ) (api : MysqlApi M) where
  abbrev Halts : ℕ → Conn M → Type 0
  Halts e c = (n : ℕ) × (c' : Conn M) × (handle_state api n e c ≡ returned c') × Inv c' × Settled c'

  -- One more turn in front.
  one_more-Halts :
      (e : ℕ) (c : Conn M) (r : Conn M × Bool)
      → step api e c ≡ ok r
      → Turn r
      → (r.1 ≡ true → Halts e r.0)
      → Halts e c
  unfolding handle_state
  one_more-Halts e c (c', true) h t more =
      let (n, c'', run, v, s) = more refl in (suc n, c'', rw (handle_state, h) run, v, s)
  one_more-Halts e c (c', false) h t more = (1, c', rw (handle_state, h) refl, t.inv, t.stop refl)

  abbrev at : Conn M → Measure
  at c = measure rows_left c.current_state c

  abbrev HaltsBelow : ℕ → ℕ → ℕ → ℕ → Type 0
  HaltsBelow e q k r =
      (c : Conn M) → Inv c → (at c).queries < q → (at c).rank < k → (at c).rows < r → Halts e c

  -- The part of the measure that falls says which bound to use.
  below-Halts :
      (e q k r : ℕ) (b : Measure) (c : Conn M)
      → Inv c
      → b.queries < suc q
      → b.rank < suc k
      → b.rows < suc r
      → ((k' r' : ℕ) → HaltsBelow e q k' r')
      → ((r' : ℕ) → HaltsBelow e (suc q) k r')
      → HaltsBelow e (suc q) (suc k) r
      → Less (at c) b
      → Halts e c
  below-Halts e q k r b c v hq hk hr fq fk fr (inl l) =
      fq (suc (at c).rank) (suc (at c).rows) c v (omega arith) (omega arith) (omega arith)
  below-Halts e q k r b c v hq hk hr fq fk fr (inr (inl l)) =
      fk (suc (at c).rows) c v (omega arith) (omega arith) (omega arith)
  below-Halts e q k r b c v hq hk hr fq fk fr (inr (inr l)) =
      fr c v (omega arith) (omega arith) (omega arith)

  halts : GivesRowsOnce rows_left api → (e q k r : ℕ) → HaltsBelow e q k r
  halts once e zero k r c v hq hk hr = absurd (omega arith)
  halts once e (suc q) zero r c v hq hk hr = absurd (omega arith)
  halts once e (suc q) (suc k) zero c v hq hk hr = absurd (omega arith)
  halts once e (suc q) (suc k) (suc r) c v hq hk hr =
      let (t, h, turn) = Returns-ok (step-Turn api e c v) in
      one_more-Halts e c t h turn λ more.
        below-Halts e q k r (at c) t.0 turn.inv hq hk hr (λ k' r'. halts once e q k' r')
          (λ r'. halts once e (suc q) k r') (halts once e (suc q) (suc k) r)
          (Ensures-ok (step-Down rows_left api once e c) h more)

  -- If the client library gives each row once, HandleState returns from every connection
  -- that is in its loop, with some fuel, and leaves one that is in its loop and waits, rests
  -- or is closed.
  pub handle_state-Halts : GivesRowsOnce rows_left api → (e : ℕ) (c : Conn M) → Inv c → Halts e c
  handle_state-Halts once e c v =
      halts once e (suc (at c).queries) (suc (at c).rank) (suc (at c).rows) c v (omega arith)
        (omega arith) (omega arith)
