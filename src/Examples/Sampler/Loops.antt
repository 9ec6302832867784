-- ===== src/Examples/Sampler/Loops.antt =====
-- The main of examples/main.cc: five loops that send their requests to one sampler. A request adds
-- to its count in one atomic step, so that what happens is an interleaving of the loops' requests.
pub mod Tally
pub mod Total
use ltapp.Base.{ℕ, zero, suc, ◌≡◌, refl, List, [], ◌∷◌, ◌++◌, some, get_elem?}
use ltapp.Base.Count.{set_elem}

abbrev pub abc : List ℕ
abc = 97 ∷ 98 ∷ 99 ∷ []

abbrev pub abc2 : List ℕ
abc2 = 97 ∷ 98 ∷ 99 ∷ 50 ∷ []

abbrev pub abc3 : List ℕ
abc3 = 97 ∷ 98 ∷ 99 ∷ 51 ∷ []

abbrev pub abc4 : List ℕ
abc4 = 97 ∷ 98 ∷ 99 ∷ 52 ∷ []

abbrev pub abc5 : List ℕ
abc5 = 97 ∷ 98 ∷ 99 ∷ 53 ∷ []

-- The requests of a round of the loop in `func` before sleep(0), and those after it.
unfoldable pub before_sleep : List (List ℕ)
before_sleep = abc ∷ abc2 ∷ abc3 ∷ abc4 ∷ abc5 ∷ abc5 ∷ abc5 ∷ abc5 ∷ abc5 ∷ []

unfoldable pub after_sleep : List (List ℕ)
after_sleep = abc ∷ abc2 ∷ abc3 ∷ abc4 ∷ abc5 ∷ abc5 ∷ abc5 ∷ abc5 ∷ abc5 ∷ []

-- `while (i-- > 0)`, the rounds that are left.
unfoldable pub func : ℕ → List (List ℕ)
unfolding before_sleep after_sleep
func zero = []
func (suc i) = before_sleep ++ (after_sleep ++ func i)

-- The requests of the loops that main starts.
unfoldable pub loops : ℕ → ℕ → List (List (List ℕ))
unfolding func
loops zero i = []
loops (suc n) i = func i ∷ loops n i

abbrev pub AllDone : List (List (List ℕ)) → Type 0
AllDone [] = Unit {0}
AllDone (todo ∷ todos) = (todo ≡ []) × AllDone todos

-- A run of the loops: each request is the next one of some loop, until none has any left.
pub data Interleaves : List (List (List ℕ)) → List (List ℕ) → Type 0 where
  over : {todos : List (List (List ℕ))} → AllDone todos → Interleaves todos []
  turn :
      {todos : List (List (List ℕ))} {key : List ℕ} {rest keys : List (List ℕ)} (t : ℕ)
      → get_elem? todos t ≡ some (key ∷ rest)
      → Interleaves (set_elem todos t rest) keys
      → Interleaves todos (key ∷ keys)

-- The loops' requests one loop after the other.
abbrev pub one_by_one : List (List (List ℕ)) → List (List ℕ)
one_by_one [] = []
one_by_one (todo ∷ todos) = todo ++ one_by_one todos

behind_done :
    {todos : List (List (List ℕ))} {run : List (List ℕ)}
    → Interleaves todos run
    → Interleaves ([] ∷ todos) run
behind_done (over done) = over (refl, done)
behind_done (turn t e later) = turn (suc t) e (behind_done later)

first_loop :
    (todo : List (List ℕ)) {todos : List (List (List ℕ))} {run : List (List ℕ)}
    → Interleaves todos run
    → Interleaves (todo ∷ todos) (todo ++ run)
first_loop [] r = behind_done r
first_loop (key ∷ rest) r = turn zero refl (first_loop rest r)

pub one_by_one-Interleaves : (todos : List (List (List ℕ))) → Interleaves todos (one_by_one todos)
one_by_one-Interleaves [] = over tt
one_by_one-Interleaves (todo ∷ todos) = first_loop todo (one_by_one-Interleaves todos)
