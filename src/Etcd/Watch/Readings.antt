-- ===== src/Etcd/Watch/Readings.antt =====
-- What the loop of a watch (content/etcdv3/context/watch_context.cc) gives to its handler.
use ltapp.Base.{
  ℕ, ◌≡◌, refl, ap, sym, ◌∙◌, true, false, List, [], ◌∷◌, ◌++◌, map, arith, append-nil,
  append_assoc, ◌⊎◌,
}
use ltapp.Etcd.Watch.{WatchContext, await_read, Reading, take_reading, watch_change_loop}

-- A reading that keeps the loop going.
abbrev pub IsGood : Reading → Type 0
IsGood r = (r.read_ok ≡ true) × (r.response.canceled ≡ false) × (r.cancelled ≡ false)

abbrev pub All : (Reading → Type 0) → List Reading → Type 0
All P [] = Unit {0}
All P (r ∷ rs) = P r × All P rs

abbrev pub batches : List Reading → List (List ℕ)
batches = map λ r. r.response.events

good_round :
    (co : ℕ) (r : Reading) (rs : List Reading) (w : WatchContext)
    → w.read_ctx.cancel ≡ false
    → IsGood r
    → watch_change_loop co (r ∷ rs) w ≡ watch_change_loop co rs (take_reading co r w)
unfolding watch_change_loop
good_round co r rs w n g = ground arith

bad_round :
    (co : ℕ) (r : Reading) (rs : List Reading) (w : WatchContext)
    → ((r.read_ok ≡ false) ⊎ (r.response.canceled ≡ true))
    → watch_change_loop co (r ∷ rs) w ≡ (await_read co r.read_ok w, true)
unfolding watch_change_loop
bad_round co r rs w b = ground arith

-- A loop that is not cancelled gives the handler the events of all readings before the first
-- that fails or says that the watch is cancelled, one coroutine for each reading in order, and
-- ends there.
pub watch_change_loop-good :
    (co : ℕ) (rs : List Reading) (bad : Reading) (rest : List Reading) (w : WatchContext)
    → w.read_ctx.cancel ≡ false
    → All IsGood rs
    → ((bad.read_ok ≡ false) ⊎ (bad.response.canceled ≡ true))
    → ((watch_change_loop co (rs ++ bad ∷ rest) w).0.handlers ≡ w.handlers ++ batches rs)
      × ((watch_change_loop co (rs ++ bad ∷ rest) w).1 ≡ true)
unfolding await_read take_reading
watch_change_loop-good co [] bad rest w n g b =
    rw (bad_round co bad rest w b) (sym (append-nil w.handlers), refl)
watch_change_loop-good co (r ∷ rs) bad rest w n g b =
    let (h, e) = watch_change_loop-good co rs bad rest (take_reading co r w) n g.1 b in
    let s = good_round co r (rs ++ bad ∷ rest) w n g.0 in
    (
      ap (λ x. x.0.handlers) s ∙ h ∙ append_assoc w.handlers (r.response.events ∷ []) (batches rs),
      ap (λ x. x.1) s ∙ e,
    )

-- While the readings are good the loop goes on, with their events handed over.
pub watch_change_loop-batches :
    (co : ℕ) (rs : List Reading) (w : WatchContext)
    → w.read_ctx.cancel ≡ false
    → All IsGood rs
    → ((watch_change_loop co rs w).0.handlers ≡ w.handlers ++ batches rs)
      × ((watch_change_loop co rs w).0.watch_id ≡ w.watch_id)
      × ((watch_change_loop co rs w).0.sent ≡ w.sent)
unfolding watch_change_loop await_read take_reading
watch_change_loop-batches co [] w n g = (sym (append-nil w.handlers), refl, refl)
watch_change_loop-batches co (r ∷ rs) w n g =
    let (h, i, t) = watch_change_loop-batches co rs (take_reading co r w) n g.1 in
    let s = good_round co r rs w n g.0 in
    (
      ap (λ x. x.0.handlers) s ∙ h ∙ append_assoc w.handlers (r.response.events ∷ []) (batches rs),
      ap (λ x. x.0.watch_id) s ∙ i,
      ap (λ x. x.0.sent) s ∙ t,
    )
