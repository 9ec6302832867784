-- ===== src/Etcd/Keepalive/Tests.antt =====
-- A keep-alive through concrete callbacks, and the theorem at them.
use ltapp.Base.{◌≡◌, refl, true, false, [], ◌∷◌, some, none}
use ltapp.Base.Int.{pos}
use ltapp.Etcd.CallContext.{CallContext}
use ltapp.Etcd.Keepalive.Callbacks.{written, was_read, is_done, call_all, call_all-callbacks}
use ltapp.Etcd.Keepalive.{KeepAlive, start_read, delay_write}

abbrev no_call : CallContext
no_call = record { success = false; cancel = false; done = false; resumer = none; resumed = [] }

abbrev a_lease : KeepAlive
a_lease = record {
  call = record no_call { resumer = some 7 };
  lease_id = pos 3;
  interval = pos 1000;
  actions = [];
}

-- A read fails and the stream ends: the coroutine is resumed twice, and a write is scheduled.
call_all-callbacks_example :
    ((call_all (written true ∷ was_read false ∷ is_done false ∷ []) a_lease).actions
      ≡ start_read ∷ delay_write (pos 1000) ∷ [])
    × ((call_all (written true ∷ was_read false ∷ is_done false ∷ []) a_lease).call.resumed
        ≡ 7 ∷ 7 ∷ [])
call_all-callbacks_example =
    call_all-callbacks 7 (written true ∷ was_read false ∷ is_done false ∷ []) a_lease refl
