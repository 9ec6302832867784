-- ===== src/Examples/EtcdTest/Alive.antt =====
-- The test case "keepalive" of examples/etcdclient/test_client.cc: TestKeepAlive, with the callbacks of
-- the stream that come while it sleeps and after it has called Cancel. StrUtil::Concat is a parameter.
use ltapp.Base.{
  ℕ, ◌≡◌, refl, ap, ◌∙◌, Bool, true, false, List, [], ◌∷◌, ◌++◌, if◌then◌else◌, arith, append_assoc,
  inl, some,
}
use ltapp.Base.Int.{ℤ, pos}
use ltapp.Outcome.{Outcome, ok, abort}
use ltapp.Etcd.Client.{
  KeyValue, LeaseStub, PutRequest, Answer, answers, never_resumed, is_in, put_key_value,
  put_key_value-result, put_request, lease_grant, lease_grant-time_to_alive,
}
use ltapp.Etcd.Keepalive
use ltapp.Etcd.Keepalive.{
  KeepAlive, start_call, start_write, act, lease_keepalive, wait, cancel, resume, on_write_done,
  on_read_done, on_done, next_write,
}
use ltapp.Etcd.Keepalive.Callbacks.{
  Callback, written, was_read, is_done, cancels, call_back, call_all, call_all-asked, asked,
}
use ltapp.Etcd.Server.{KvServer, IsEtcd, stub_at, after_put}
use ltapp.Examples.EtcdTest.{◌>>=◌}

-- "/server/keepalive"
abbrev pub keepalive_key : List ℕ
keepalive_key =
    b'/' ∷ b's' ∷ b'e' ∷ b'r' ∷ b'v' ∷ b'e' ∷ b'r' ∷ b'/' ∷ b'k' ∷ b'e' ∷ b'e' ∷ b'p' ∷ b'a' ∷ b'l'
    ∷ b'i' ∷ b'v' ∷ b'e' ∷ []

abbrev lease_text : List ℕ
lease_text = b'l' ∷ b'e' ∷ b'a' ∷ b's' ∷ b'e' ∷ b'_' ∷ []

abbrev pub lease_pair : (List ℕ → ℤ → List ℕ) → ℤ → KeyValue
lease_pair concat lease_id = record {
  key = keepalive_key;
  value = concat lease_text lease_id;
  lease = lease_id;
}

-- The coroutine goes on with the callback that resumes it.
unfoldable pub until_resumed : ℕ → List Callback → KeepAlive → Answer KeepAlive
until_resumed co [] k = never_resumed
until_resumed co (b ∷ bs) k =
    let rest = until_resumed co bs (call_back b k) in
    if is_in co (call_back b k).call.resumed then answers (call_back b k) else rest

-- Cancel, and Wait.
unfoldable pub cancel_and_wait : ℕ → List Callback → KeepAlive → Answer KeepAlive
unfolding cancel wait until_resumed
cancel_and_wait co after k =
    let (k', done) = wait co (cancel k) in if done then answers k' else until_resumed co after k'

-- Once the keep-alive is started: thirty seconds of sleep, and the end.
unfoldable pub hold_lease :
    {S : Type 0}
    → ℕ
    → List Callback
    → List Callback
    → S
    → Outcome KeepAlive
    → Answer (Outcome (S × KeepAlive))
unfolding cancel_and_wait
hold_lease co before after s abort = answers abort
hold_lease co before after s (ok k) = do
  k' ← cancel_and_wait co after (call_all before k)
  answers (ok (s, k'))

-- TestKeepAlive. `unset` is what the members hold that the constructor leaves unset.
unfoldable pub test_keep_alive :
    {S : Type 0}
    → (List ℕ → ℤ → List ℕ)
    → KvServer S
    → ℕ
    → LeaseStub
    → ℤ × ℤ
    → List Callback
    → List Callback
    → S
    → Answer (Outcome (S × KeepAlive))
unfolding hold_lease
test_keep_alive concat server co lease unset before after s = do
  lease_id ← lease_grant lease co (pos 60)
  revision ← put_key_value (stub_at server s) co (lease_pair concat lease_id)
  hold_lease co before after (after_put server (lease_pair concat lease_id) s)
      (lease_keepalive unset.0 unset.1 lease_id (pos 2000))

-- Callbacks that resume nobody: good writes and reads.
abbrev pub Quiet : List Callback → Type 0
Quiet [] = Unit {0}
Quiet (written b ∷ bs) = (b ≡ true) × Quiet bs
Quiet (was_read b ∷ bs) = (b ≡ true) × Quiet bs
Quiet (_ ∷ bs) = ⊥

call_back-Quiet :
    (b : Callback) (bs : List Callback) (k : KeepAlive)
    → Quiet (b ∷ bs)
    → ((call_back b k).call ≡ k.call) × Quiet bs × ((call_back b k).interval ≡ k.interval)
unfolding call_back on_write_done on_read_done next_write
call_back-Quiet (written b) bs k q = (ground (arith, q.0), q.1, ground (arith, q.0))
call_back-Quiet (was_read b) bs k q = (ground (arith, q.0), q.1, ground (arith, q.0))
call_back-Quiet (is_done b) bs k q = elim q [ ]
call_back-Quiet cancels bs k q = elim q [ ]

call_all-Quiet :
    (bs : List Callback) (k : KeepAlive)
    → Quiet bs
    → ((call_all bs k).call ≡ k.call) × ((call_all bs k).interval ≡ k.interval)
unfolding call_all
call_all-Quiet [] k q = (refl, refl)
call_all-Quiet (b ∷ bs) k q =
    let (same, later, every) = call_back-Quiet b bs k q in
    let (same', every') = call_all-Quiet bs (call_back b k) later in (same' ∙ same, every' ∙ every)

wakes :
    (co : ℕ) (st : Bool) (k : KeepAlive)
    → k.call.resumer ≡ some co
    → k.call.resumed ≡ []
    → is_in co (resume st k).call.resumed ≡ true
unfolding resume
wakes co st k w n = rw (w, n) (ground arith)

-- A waiter whom nobody has resumed goes on with the end of the stream.
until_resumed-done :
    (co : ℕ) (bs rest : List Callback) (st : Bool) (k : KeepAlive)
    → k.call.resumer ≡ some co
    → k.call.resumed ≡ []
    → Quiet bs
    → until_resumed co (bs ++ is_done st ∷ rest) k ≡ answers (resume st (call_all bs k))
unfolding until_resumed call_all call_back on_done
until_resumed-done co [] rest st k w n q = rw (wakes co st k w n) refl
until_resumed-done co (b ∷ bs) rest st k w n q =
    let (same, later, _) = call_back-Quiet b bs k q in
    let ih =
      until_resumed-done co bs rest st (call_back b k) (ap (λ c. c.resumer) same ∙ w)
        (ap (λ c. c.resumed) same ∙ n) later in
    let not_yet : is_in co (call_back b k).call.resumed ≡ false =
      ap (is_in co) (ap (λ c. c.resumed) same ∙ n) in
    rw not_yet ih

yields : {A : Type 0} (done : Bool) (x y : A) → done ≡ false → (if done then x else y) ≡ y
yields true x y d = cc
yields false x y d = refl

cancel_and_wait-done :
    (co : ℕ) (bs rest : List Callback) (st : Bool) (k : KeepAlive)
    → k.call.done ≡ false
    → k.call.resumed ≡ []
    → Quiet bs
    → cancel_and_wait co (bs ++ is_done st ∷ rest) k
      ≡ answers (resume st (call_all bs (wait co (cancel k)).0))
unfolding cancel_and_wait wait cancel
cancel_and_wait-done co bs rest st k d n q =
    yields k.call.done _ _ d ∙ until_resumed-done co bs rest st (wait co (cancel k)).0 refl n q

-- What the stream is asked for up to the end of Wait.
wait-asked :
    (co : ℕ) (before after : List Callback) (k : KeepAlive)
    → Quiet before
    → (call_all after (wait co (cancel (call_all before k))).0).actions
      ≡ k.actions ++ (asked k.call.cancel k.interval before ++ asked true k.interval after)
unfolding wait cancel
wait-asked co before after k q =
    call_all-asked after (wait co (cancel (call_all before k))).0
    ∙ ap (λ i. (call_all before k).actions ++ asked true i after) (call_all-Quiet before k q).1
    ∙ ap (λ l. l ++ asked true k.interval after) (call_all-asked before k)
    ∙ append_assoc k.actions _ _

module _ {S : Type 0} (concat : List ℕ → ℤ → List ℕ) (server : KvServer S) (e : IsEtcd server) where
  -- With a server that keeps the pair of each Put and refuses none: if while TestKeepAlive
  -- sleeps, and after its Cancel until the stream ends, writes and reads succeed, then
  -- TestKeepAlive comes to its end with the end of the stream, whose status it reports, and
  -- the server keeps the pair with the lease. The stream was asked for the call, the first
  -- write, a read after each write and, after each read, the next write in two seconds
  -- before the Cancel, and the end of the writes after it.
  pub test_keep_alive-ends :
      (lease : LeaseStub) (co : ℕ) (unset : ℤ × ℤ) (before after rest : List Callback) (st : Bool)
      (s : S)
      → ((r : PutRequest) (t : S) → (server.put r t).1.ok ≡ true)
      → Quiet before
      → Quiet after
      → (s' : S) × (k : KeepAlive) × (test_keep_alive concat server co lease unset before
            (after ++ is_done st ∷ rest)
            s
          ≡ answers (ok (s', k)))
        × (k.call.success ≡ st)
        × (k.actions
            ≡ start_call
              ∷ start_write (lease.lease_grant (pos 60)).response
              ∷ (asked false (pos 2000) before ++ asked true (pos 2000) after))
        × e.Stored (lease_pair concat (lease.lease_grant (pos 60)).response) s'
  unfolding test_keep_alive hold_lease cancel_and_wait lease_keepalive Keepalive.start Keepalive.new
      resume
  test_keep_alive-ends lease co unset before after rest st s accepts q r =
      let id = (lease.lease_grant (pos 60)).response in
      let pair = lease_pair concat id in
      let granted : lease_grant lease co (pos 60) ≡ answers id =
        (lease_grant-time_to_alive lease co (pos 60) (pos 0)).0 in
      let started : KeepAlive = (Keepalive.start id (pos 2000) (Keepalive.new unset.0 unset.1)).0 in
      let (call, _) = call_all-Quiet before started q in
      (
        after_put server pair s,
        resume st (call_all after (wait co (cancel (call_all before started))).0),
        rw
            (
              granted,
              put_key_value-result (stub_at server s) co pair,
              cancel_and_wait-done co after rest st (call_all before started)
                  (ap (λ c. c.done) call) (ap (λ c. c.resumed) call) r,
            )
            refl,
        refl,
        wait-asked co before after started q,
        (e.puts (put_request pair) s (accepts _ s) pair).1 (inl refl),
      )
