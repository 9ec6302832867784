-- ===== src/Mysql/Client/Work/Service.antt =====
-- What the client of mysql_client_impl.h promises as a whole: it takes queries and does each of them
-- once, in no particular order. Its connections, their queues and the posted tasks do not show.
use ltapp.Base.{ℕ, ◌+◌, ◌≡◌, ap, ◌∙◌, List, [], ◌∷◌, ◌++◌, arith}
use ltapp.Base.Count.{count, count-append}
use ltapp.Base.Bag.{Bag, bag, bag-eq, with_one}
use ltapp.Mysql.Api.{MysqlApi}
use ltapp.Mysql.Run.{returned, Leaves-returned}
use ltapp.Mysql.Client.{Client}
use ltapp.Mysql.Client.Work.{Event, happen}
use ltapp.Mysql.Client.Work.Places.{handed, held, queued}
use ltapp.Mysql.Client.Work.Whereabouts.{happen-Adds}
use ltapp.Mysql.Client.Work.Growth.{happen-Done}

pub record Service : Type 0 where
  pub done : Bag
  pub pending : Bag

-- The service takes the queries `qs`, and does pending queries in between.
pub data Moves : List ℕ → Service → Service → Type 0 where
  rest : {v w : Service} → w ≡ v → Moves [] v w
  take :
      {v w : Service} {qs : List ℕ} (q : ℕ)
      → Moves qs (record v { pending = with_one q v.pending }) w
      → Moves (q ∷ qs) v w
  serve :
      {v w : Service} {qs : List ℕ} (q : ℕ) (others : Bag)
      → v.pending ≡ with_one q others
      → Moves qs (record { done = with_one q v.done; pending = others }) w
      → Moves qs v w

abbrev listed : List ℕ → List ℕ → Service
listed d p = record { done = bag d; pending = bag p }

listed-eq :
    {d d' p p' : List ℕ}
    → ((a : ℕ) → count a d' ≡ count a d)
    → ((a : ℕ) → count a p' ≡ count a p)
    → listed d' p' ≡ listed d p
listed-eq {d} {d'} {p} {p'} h k =
    ap (λ b. record { done = b; pending = bag p' }) (bag-eq h)
    ∙ ap (λ b. record { done = bag d; pending = b }) (bag-eq k)

-- What the counts allow is done by taking all queries, and then doing those that are done.
serves :
    (ds d p d' p' : List ℕ)
    → ((a : ℕ) → count a d' ≡ count a d + count a ds)
    → ((a : ℕ) → count a p ≡ count a p' + count a ds)
    → Moves [] (listed d p) (listed d' p')
unfolding with_one
serves [] d p d' p' h k = rest (listed-eq (λ a. omega (arith, h a)) (λ a. omega (arith, k a)))
serves (q ∷ ds) d p d' p' h k =
    serve q (bag (ds ++ p')) (bag-eq λ a. omega (arith, k a, count-append a ds p')) (
      serves ds (q ∷ d) (ds ++ p') d' p' (λ a. omega (arith, h a))
        (λ a. omega (arith, count-append a ds p')))

takes :
    (qs ds d p d' p' : List ℕ)
    → ((a : ℕ) → count a d' ≡ count a d + count a ds)
    → ((a : ℕ) → count a p + count a qs ≡ count a p' + count a ds)
    → Moves qs (listed d p) (listed d' p')
unfolding with_one
takes [] ds d p d' p' h k = serves ds d p d' p' h (λ a. omega (arith, k a))
takes (q ∷ qs) ds d p d' p' h k = take q (takes qs ds d (q ∷ p) d' p' h (λ a. omega (arith, k a)))

-- A client as a service: what it has done, and what its connections and its tasks hold.
abbrev pub service : {M : Type 0} → Client M → Service
service k = listed k.store.finished (held k.connections ++ queued k.tasks)

module _ {M : Type 0} (api : MysqlApi M) where
  -- Whatever event a client meets, if that returns, the client as a service takes the
  -- queries that the event hands to it, and does some of those that are pending, each once
  -- for each time that it was taken; nothing else comes, goes or is undone.
  pub happen-Moves :
      (n : ℕ) (e : Event) (k k' : Client M)
      → happen api n e k ≡ returned k'
      → Moves (handed e) (service k) (service k')
  happen-Moves n e k k' h =
      let (ds, grows) = Leaves-returned (happen-Done api n e k) h in
      takes (handed e) ds k.store.finished (held k.connections ++ queued k.tasks) k'.store.finished
        (held k'.connections ++ queued k'.tasks)
        (λ a. omega (arith, ap (count a) grows, count-append a k.store.finished ds))
        (λ a. omega (
          arith,
          ap (count a) grows,
          count-append a k.store.finished ds,
          Leaves-returned (happen-Adds api a n e k) h,
          count-append a k.store.finished (held k.connections ++ queued k.tasks),
          count-append a k'.store.finished (held k'.connections ++ queued k'.tasks),
        ))
