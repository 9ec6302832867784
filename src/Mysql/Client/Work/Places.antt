-- ===== src/Mysql/Client/Work/Places.antt =====
-- The places where a client's queries (mysql_client_impl.cc) may be, and how lists of connections
-- and of tasks count them.
use ltapp.Base.{
  ℕ, zero, suc, ◌+◌, ◌≡◌, refl, ap, Option, none, some, List, [], ◌∷◌, ◌++◌, arith, opt_list,
  get_elem?,
}
use ltapp.Base.Count.{count, count-append, set_elem, take_at}
use ltapp.Mysql.Conn.{Conn}
use ltapp.Mysql.History.{given}
use ltapp.Mysql.Client.{Client, Task, query_done, start_query_on, sync_close_on, close_tasks}
use ltapp.Mysql.Client.Work.{Event, submits, calls}

-- The queries that an event hands to the client.
abbrev pub handed : Event → List ℕ
handed (submits q) = q ∷ []
handed (calls i call) = given call
handed _ = []

abbrev pub all_handed : List Event → List ℕ
all_handed [] = []
all_handed (e ∷ es) = handed e ++ all_handed es

-- The queries that a connection has not done, and those of all connections.
abbrev pub left : {M : Type 0} → Conn M → List ℕ
left c = opt_list c.in_process ++ c.query_list

abbrev pub held : {M : Type 0} → List (Conn M) → List ℕ
held [] = []
held (c ∷ cs) = left c ++ held cs

-- The queries of tasks.
abbrev pub carried : Task → List ℕ
carried (query_done q) = q ∷ []
carried (start_query_on i q) = q ∷ []
carried (sync_close_on i) = []

abbrev pub queued : List Task → List ℕ
queued [] = []
queued (t ∷ ts) = carried t ++ queued ts

module _ {M : Type 0} where
  -- Where the queries of a client are: done, with a connection, or in a task.
  abbrev pub whereabouts : Client M → List ℕ
  whereabouts k = k.store.finished ++ (held k.connections ++ queued k.tasks)

abbrev pub left_of : {M : Type 0} → Option (Conn M) → List ℕ
left_of none = []
left_of (some c) = left c

pub held-set_elem :
    {M : Type 0} (a : ℕ) (cs : List (Conn M)) (i : ℕ) (c c' : Conn M)
    → get_elem? cs i ≡ some c
    → count a (held (set_elem cs i c')) + count a (left c) ≡ count a (held cs) + count a (left c')
held-set_elem a [] i c c' e = cc
held-set_elem a (x ∷ cs) zero c c' e = omega (
  arith,
  count-append a (left c') (held cs),
  count-append a (left x) (held cs),
  ap (λ o. count a (left_of o)) e,
)
held-set_elem a (x ∷ cs) (suc i) c c' e = omega (
  arith,
  count-append a (left x) (held (set_elem cs i c')),
  count-append a (left x) (held cs),
  held-set_elem a cs i c c' e,
)

-- The queries of a list of tasks are those of the task that is taken and of the others.
abbrev pub Parts : ℕ → List Task → Option (Task × List Task) → Type 0
Parts a ts none = Unit {0}
Parts a ts (some (t, rest)) = count a (queued ts) ≡ count a (carried t) + count a (queued rest)

Parts-later :
    (a : ℕ) (x : Task) (ts : List Task) (o : Option (Task × List Task))
    → Parts a ts o
    → Parts a (x ∷ ts) (elim o [ none ↦ none | some (t, rest) ↦ some (t, x ∷ rest) ])
Parts-later a x ts none h = tt
Parts-later a x ts (some (t, rest)) h =
    omega
      (arith, h, count-append a (carried x) (queued ts), count-append a (carried x) (queued rest))

pub take_at-Parts : (a : ℕ) (ts : List Task) (j : ℕ) → Parts a ts (take_at ts j)
take_at-Parts a [] j = tt
take_at-Parts a (x ∷ ts) zero = omega (arith, count-append a (carried x) (queued ts))
take_at-Parts a (x ∷ ts) (suc j) = Parts-later a x ts (take_at ts j) (take_at-Parts a ts j)

pub queued-append :
    (a : ℕ) (ts us : List Task)
    → count a (queued (ts ++ us)) ≡ count a (queued ts) + count a (queued us)
queued-append a [] us = omega arith
queued-append a (t ∷ ts) us = omega (
  arith,
  count-append a (carried t) (queued (ts ++ us)),
  count-append a (carried t) (queued ts),
  queued-append a ts us,
)

pub queued-close_tasks :
    {M : Type 0} (a i : ℕ) (cs : List (Conn M)) → count a (queued (close_tasks i cs)) ≡ 0
unfolding close_tasks
queued-close_tasks a i [] = refl
queued-close_tasks a i (c ∷ cs) = queued-close_tasks a (i + 1) cs
