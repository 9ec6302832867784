-- ===== src/Mysql/Fuel.antt =====
-- More fuel changes nothing in what a run of the connection (mysql_async_con.cc) returns.
use ltapp.Base.{
  sym, ap, ◌∙◌, ℕ, zero, suc, ◌+◌, ◌≡◌, refl, Bool, true, false, [], ◌∷◌, if◌then◌else◌, is_some,
  not, ◌&&◌, arith, ◌++◌,
}
use ltapp.Outcome.{Outcome, ok, abort}
use ltapp.Mysql.Run.{Run, returned, aborted, out_of_fuel, and_then, of_outcome}
use ltapp.Mysql.Api.{MysqlApi}
use ltapp.Mysql.Conn.{Conn, reset_wait_event, lt_ev_to_mysql_status}
use ltapp.Mysql.Conn.Entry.{
  step, handle_state, on_time_out, on_wait_event_invoked, wake, start_query, is_idle, wake_close,
  close, is_query_start, run_posted,
}
use ltapp.Mysql.History.{
  Call, starts, event, times_out, closes, syncs_close, checks, posted_task, perform,
}

-- What it returns with some fuel, it returns with more.
abbrev pub Lasts : {A : Type 0} → (ℕ → Run A) → Type 0
Lasts {A} f = (n m : ℕ) (a : A) → f n ≡ returned a → f (n + m) ≡ returned a

pub and_then-returned :
    {A B : Type 0} (r : Run A) (f : A → Run B) (b : B)
    → and_then r f ≡ returned b
    → (a : A) × (r ≡ returned a) × (f a ≡ returned b)
and_then-returned (returned a) f b e = (a, refl, e)
and_then-returned aborted f b e = cc
and_then-returned out_of_fuel f b e = cc

module _ {A : Type 0} where
  pub Lasts-if :
      (b : Bool) (f g : ℕ → Run A) → Lasts f → Lasts g → Lasts (λ n. if b then f n else g n)
  Lasts-if true f g hf hg = hf
  Lasts-if false f g hf hg = hg

  pub Lasts-same : (r : Run A) → Lasts (λ _. r)
  Lasts-same r n m a e = e

pub Lasts-unique :
    {A : Type 0} (f : ℕ → Run A) (n m : ℕ) (a b : A)
    → Lasts f
    → f n ≡ returned a
    → f m ≡ returned b
    → a ≡ b
Lasts-unique f n m a b h p q =
    let swap : n + m ≡ m + n = omega arith in
    let both : returned a ≡ returned b = sym (h n m a p) ∙ ap f swap ∙ h m n b q in cc

module _ {A B : Type 0} where
  pub Lasts-and_then :
      (f : ℕ → Run A) (g : ℕ → A → Run B)
      → Lasts f
      → ((a : A) → Lasts (λ n. g n a))
      → Lasts (λ n. and_then (f n) (g n))
  Lasts-and_then f g hf hg n m b e =
      let (a, p, q) = and_then-returned (f n) (g n) b e in rw (hf n m a p) (hg a n m b q)

  -- Each part has its fuel: their sum is enough for both.
  pub then_returns :
      (f : ℕ → Run A) (g : ℕ → A → Run B) (n m : ℕ) (a : A) (b : B)
      → Lasts f
      → Lasts (λ n. g n a)
      → f n ≡ returned a
      → g m a ≡ returned b
      → and_then (f (n + m)) (g (n + m)) ≡ returned b
  then_returns f g n m a b hf hg p q =
      let swap : n + m ≡ m + n = omega arith in rw (hf n m a p, swap) (hg m n b q)

module _ {M : Type 0} (api : MysqlApi M) where
  -- The rest of the loop after a turn.
  abbrev go_on : ℕ → ℕ → Outcome (Conn M × Bool) → Run (Conn M)
  go_on n e o = elim o [
    | abort ↦ aborted
    | ok (d, more) ↦ elim more [ true ↦ handle_state api n e d | false ↦ returned d ]
  ]

  go_on-Lasts :
      (n m e : ℕ) (c' : Conn M)
      → ((d : Conn M)
          → handle_state api n e d ≡ returned c'
          → handle_state api (n + m) e d ≡ returned c')
      → (o : Outcome (Conn M × Bool)) → go_on n e o ≡ returned c'
      → go_on (n + m) e o ≡ returned c'
  go_on-Lasts n m e c' ih abort h = h
  go_on-Lasts n m e c' ih (ok (d, true)) h = ih d h
  go_on-Lasts n m e c' ih (ok (d, false)) h = h

  pub handle_state-Lasts : (e : ℕ) (c : Conn M) → Lasts (λ n. handle_state api n e c)
  unfolding handle_state
  handle_state-Lasts e c zero m c' h = cc
  handle_state-Lasts e c (suc n) m c' h =
      let one_more : suc n + m ≡ suc (n + m) = omega arith in
      rw one_more (go_on-Lasts n m e c' (λ d. handle_state-Lasts e d n m c') (step api e c) h)

  -- The last test of StartQuery and of Close: the loop is run, or nothing is.
  if_run-Lasts :
      (b : Bool) (c : Conn M) → Lasts (λ n. if b then handle_state api n 0 c else returned c)
  if_run-Lasts b c =
      Lasts-if b _ (λ _. returned c) (handle_state-Lasts 0 c) (Lasts-same (returned c))

  in_thread-Lasts :
      (b : Bool) (f : ℕ → Run (Conn M)) → Lasts f → Lasts (λ n. if b then f n else aborted)
  in_thread-Lasts b f h = Lasts-if b f (λ _. aborted) h (Lasts-same aborted)

  pub perform-Lasts : (k : Call) (c : Conn M) → Lasts (λ n. perform api n k c)
  unfolding perform start_query wake on_wait_event_invoked on_time_out close wake_close run_posted
  perform-Lasts (starts q) c =
      in_thread-Lasts c.in_loop_thread
        (λ n. wake api n (record c { query_list = c.query_list ++ q ∷ [] }))
        (if_run-Lasts (is_idle c.current_state && not (is_some c.in_process)) _)
  perform-Lasts (event e) c =
      Lasts-and_then (λ _. of_outcome (reset_wait_event c))
        (λ n d. handle_state api n (lt_ev_to_mysql_status api e) d) (Lasts-same _)
        (handle_state-Lasts _)
  perform-Lasts times_out c =
      Lasts-and_then (λ _. of_outcome (reset_wait_event c))
        (λ n d. handle_state api n api.wait_timeout d) (Lasts-same _) (handle_state-Lasts _)
  perform-Lasts closes c =
      in_thread-Lasts c.in_loop_thread (λ n. wake_close api n (record c { schedule_close = true }))
        (if_run-Lasts (not (is_some c.in_process) && is_query_start c.current_state) _)
  perform-Lasts syncs_close c = Lasts-same _
  perform-Lasts checks c = Lasts-same _
  perform-Lasts posted_task c = handle_state-Lasts 0 c
