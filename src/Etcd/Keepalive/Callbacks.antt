-- ===== src/Etcd/Keepalive/Callbacks.antt =====
-- A KeepAliveContext (content/etcdv3/context/keepalive_ctx.cc) through any callbacks of its stream, in
-- any order, with Cancel in between.
use ltapp.Base.{
  ℕ, ◌≡◌, sym, ap, ◌∙◌, Bool, true, false, List, [], ◌∷◌, ◌++◌, some, if◌then◌else◌, arith,
  append_assoc, append-nil,
}
use ltapp.Base.Int.{ℤ}
use ltapp.Etcd.Keepalive.{
  Action, start_read, start_writes_done, delay_write, KeepAlive, on_done, on_read_done,
  on_write_done, cancel, next_write, resume, act,
}

-- OnWriteDone, OnReadDone and OnDone with what they are given, and Cancel.
pub data Callback : Type 0 where
  written was_read is_done : Bool → Callback
  cancels : Callback

unfoldable pub call_back : Callback → KeepAlive → KeepAlive
unfolding on_write_done on_read_done on_done cancel
call_back (written b) k = on_write_done b k
call_back (was_read b) k = on_read_done b k
call_back (is_done b) k = on_done b k
call_back cancels k = cancel k

unfoldable pub call_all : List Callback → KeepAlive → KeepAlive
call_all [] k = k
call_all (b ∷ bs) k = call_all bs (call_back b k)

-- What the stream is asked for: a read after each write that succeeds, and after each read, good or
-- failed, the next write, or the end of the writes from the Cancel on.
abbrev pub asked : Bool → ℤ → List Callback → List Action
asked cancelled interval [] = []
asked cancelled interval (written true ∷ bs) = start_read ∷ asked cancelled interval bs
asked cancelled interval (written false ∷ bs) = asked cancelled interval bs
asked cancelled interval (was_read b ∷ bs) =
    (if cancelled then start_writes_done else delay_write interval) ∷ asked cancelled interval bs
asked cancelled interval (is_done b ∷ bs) = asked cancelled interval bs
asked cancelled interval (cancels ∷ bs) = asked true interval bs

-- The coroutine, once for each failure and once for each end of the stream.
abbrev pub woken : ℕ → List Callback → List ℕ
woken co [] = []
woken co (written true ∷ bs) = woken co bs
woken co (written false ∷ bs) = co ∷ woken co bs
woken co (was_read true ∷ bs) = woken co bs
woken co (was_read false ∷ bs) = co ∷ woken co bs
woken co (is_done b ∷ bs) = co ∷ woken co bs
woken co (cancels ∷ bs) = woken co bs

-- What is asked for after a read.
abbrev after_read : Bool → ℤ → Action
after_read cancelled interval = if cancelled then start_writes_done else delay_write interval

next_write-act : (k : KeepAlive) → next_write k ≡ act (after_read k.call.cancel k.interval ∷ []) k
unfolding next_write
next_write-act k = ground arith

good_read : (k : KeepAlive) → on_read_done true k ≡ act (after_read k.call.cancel k.interval ∷ []) k
unfolding on_read_done
good_read k = next_write-act k

failed_read :
    (k : KeepAlive)
    → on_read_done false k ≡ act (after_read k.call.cancel k.interval ∷ []) (resume false k)
unfolding on_read_done
failed_read k = next_write-act (resume false k)

pub call_all-asked :
    (bs : List Callback) (k : KeepAlive)
    → (call_all bs k).actions ≡ k.actions ++ asked k.call.cancel k.interval bs
unfolding call_all call_back
call_all-asked [] k = sym (append-nil k.actions)
call_all-asked (written true ∷ bs) k =
    call_all-asked bs (act (start_read ∷ []) k) ∙ append_assoc k.actions (start_read ∷ []) _
call_all-asked (written false ∷ bs) k = call_all-asked bs (resume false k)
call_all-asked (was_read true ∷ bs) k =
    ap (λ m. (call_all bs m).actions) (good_read k)
    ∙ call_all-asked bs (act (after_read k.call.cancel k.interval ∷ []) k)
    ∙ append_assoc k.actions (after_read k.call.cancel k.interval ∷ []) _
call_all-asked (was_read false ∷ bs) k =
    ap (λ m. (call_all bs m).actions) (failed_read k)
    ∙ call_all-asked bs (act (after_read k.call.cancel k.interval ∷ []) (resume false k))
    ∙ append_assoc k.actions (after_read k.call.cancel k.interval ∷ []) _
call_all-asked (is_done b ∷ bs) k = call_all-asked bs (resume b k)
call_all-asked (cancels ∷ bs) k = call_all-asked bs (cancel k)

resume-woken :
    (co : ℕ) (b : Bool) (k : KeepAlive) (later : List ℕ)
    → k.call.resumer ≡ some co
    → (resume b k).call.resumed ++ later ≡ k.call.resumed ++ co ∷ later
unfolding resume
resume-woken co b k later w = rw w (append_assoc k.call.resumed (co ∷ []) later)

call_all-woken :
    (co : ℕ) (bs : List Callback) (k : KeepAlive)
    → k.call.resumer ≡ some co
    → (call_all bs k).call.resumed ≡ k.call.resumed ++ woken co bs
unfolding call_all call_back resume
call_all-woken co [] k w = sym (append-nil k.call.resumed)
call_all-woken co (written true ∷ bs) k w = call_all-woken co bs (act (start_read ∷ []) k) w
call_all-woken co (written false ∷ bs) k w =
    call_all-woken co bs (resume false k) w ∙ resume-woken co false k _ w
call_all-woken co (was_read true ∷ bs) k w =
    ap (λ m. (call_all bs m).call.resumed) (good_read k)
    ∙ call_all-woken co bs (act (after_read k.call.cancel k.interval ∷ []) k) w
call_all-woken co (was_read false ∷ bs) k w =
    ap (λ m. (call_all bs m).call.resumed) (failed_read k)
    ∙ call_all-woken co bs (act (after_read k.call.cancel k.interval ∷ []) (resume false k)) w
    ∙ resume-woken co false k _ w
call_all-woken co (is_done b ∷ bs) k w =
    call_all-woken co bs (resume b k) w ∙ resume-woken co b k _ w
call_all-woken co (cancels ∷ bs) k w = call_all-woken co bs (cancel k) w

-- For a context with a waiting coroutine, whatever callbacks and Cancels come in whatever
-- order: the stream is asked for a read after each write that succeeds, and after each read,
-- also one that failed, for the next write after the interval, or for the end of the writes
-- from the first Cancel on, and for nothing else. The coroutine is resumed once for each
-- failure and each end of the stream, so more than once where these are several.
pub call_all-callbacks :
    (co : ℕ) (bs : List Callback) (k : KeepAlive)
    → k.call.resumer ≡ some co
    → ((call_all bs k).actions ≡ k.actions ++ asked k.call.cancel k.interval bs)
      × ((call_all bs k).call.resumed ≡ k.call.resumed ++ woken co bs)
call_all-callbacks co bs k w = (call_all-asked bs k, call_all-woken co bs k w)
