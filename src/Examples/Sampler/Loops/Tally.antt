-- ===== src/Examples/Sampler/Loops/Tally.antt =====
-- How many requests of a bucket the sampler of examples/main.cc samples in a run of several loops.
use ltapp.Base.{
  ==_iff, ℕ, zero, suc, ◌+◌, ◌%◌, ◌^◌, ◌≡◌, ◌≢◌, refl, sym, subst, true, false, ap, ◌∙◌, Bool, List,
  [], ◌∷◌, Option, none, some, ◌==◌, ◌&&◌, if◌then◌else◌, arith, get_elem?,
}
use ltapp.Base.Int.{ℤ}
use ltapp.Base.Count.{count, set_elem}
use ltapp.Outcome.{ok}
use ltapp.Examples.Sampler.{new, abs, add_sample_requests}
use ltapp.Examples.Sampler.Samples.{bucket_of, AllAscii, samples, add_sample_requests-samples}
use ltapp.Examples.Sampler.Loops.{AllDone, Interleaves, over, turn}

-- The requests of bucket `b`.
abbrev pub requests : ℕ → List (List ℕ) → ℕ
requests b [] = 0
requests b (key ∷ keys) = (if bucket_of key == b then 1 else 0) + requests b keys

abbrev pub all_requests : ℕ → List (List (List ℕ)) → ℕ
all_requests b [] = 0
all_requests b (todo ∷ todos) = requests b todo + all_requests b todos

-- Those that were answered with true.
abbrev pub sampled : ℕ → List (List ℕ) → List Bool → ℕ
sampled b (key ∷ keys) (yes_or_no ∷ answers) =
    (if bucket_of key == b && yes_or_no then 1 else 0) + sampled b keys answers
sampled b _ _ = 0

-- The numbers below `n` that are a multiple of `k` modulo 2^16.
abbrev pub multiples : ℕ → ℕ → ℕ
multiples k zero = 0
multiples k (suc n) = multiples k n + (if (n % 2 ^ 16 % k) == 0 then 1 else 0)

-- A request of bucket `c` counts for bucket `b` if these are the same.
abbrev one_more : ℕ → ℕ → ℕ
one_more c b = if c == b then 1 else 0

multiples-add_one :
    (k n : ℕ) → multiples k (n + 1) ≡ (if (n % 2 ^ 16 % k) == 0 then 1 else 0) + multiples k n
multiples-add_one k n =
    let next : n + 1 ≡ suc n = omega arith in ap (multiples k) next ∙ omega arith

-- A request of some bucket, with `m` before it, counts if it is the one in question.
multiples-add :
    (k n m : ℕ) (same : Bool)
    → (same ≡ true → m ≡ n)
    → (if same && ((m % 2 ^ 16 % k) == 0) then 1 else 0) + multiples k n
      ≡ multiples k (n + (if same then 1 else 0))
multiples-add k n m false h =
    let stays : n ≡ n + 0 = omega arith in omega (arith, ap (multiples k) stays)
multiples-add k n m true h = rw (h refl) (sym (multiples-add_one k n))

samples-multiples :
    (k b : ℕ) (keys : List (List ℕ)) (seen : List ℕ)
    → sampled b keys (samples k seen keys) + multiples k (count b seen)
      ≡ multiples k (requests b keys + count b seen)
samples-multiples k b [] seen =
    let all : count b seen ≡ 0 + count b seen = omega arith in omega (arith, ap (multiples k) all)
samples-multiples k b (key ∷ keys) seen = omega (
  arith,
  multiples-add k (count b seen) (count (bucket_of key) seen) (bucket_of key == b)
      (λ same. ap (λ c. count c seen) ((==_iff (bucket_of key) b).0 same)),
  samples-multiples k b keys (bucket_of key ∷ seen),
  ap (multiples k) regroup,
)
  where
    regroup :
        requests b keys + (count b seen + one_more (bucket_of key) b)
        ≡ one_more (bucket_of key) b + requests b keys + count b seen
    regroup = omega arith

all_requests-set_elem :
    (b t : ℕ) (key : List ℕ) (rest : List (List ℕ)) (todos : List (List (List ℕ)))
    → get_elem? todos t ≡ some (key ∷ rest)
    → all_requests b todos ≡ one_more (bucket_of key) b + all_requests b (set_elem todos t rest)
all_requests-set_elem b t key rest [] e = cc
all_requests-set_elem b zero key rest (todo ∷ todos) e = omega (arith, ap (λ o. requests_of o) e)
  where
    requests_of : Option (List (List ℕ)) → ℕ
    requests_of none = 0
    requests_of (some keys) = requests b keys
all_requests-set_elem b (suc t) key rest (todo ∷ todos) e =
    omega (arith, all_requests-set_elem b t key rest todos e)

all_requests-AllDone :
    (b : ℕ) (todos : List (List (List ℕ))) → AllDone todos → all_requests b todos ≡ 0
all_requests-AllDone b [] h = refl
all_requests-AllDone b (todo ∷ todos) h =
    omega (arith, ap (requests b) h.0, all_requests-AllDone b todos h.1)

-- A run has the requests of its loops.
requests-Interleaves :
    (b : ℕ) {todos : List (List (List ℕ))} {run : List (List ℕ)}
    → Interleaves todos run
    → requests b run ≡ all_requests b todos
requests-Interleaves b {todos} (over done) = sym (all_requests-AllDone b todos done)
requests-Interleaves b {todos} (turn {key = key} {rest = rest} t e later) =
    omega (arith, requests-Interleaves b later, all_requests-set_elem b t key rest todos e)

-- Every loop's keys are ASCII and not too long.
abbrev pub EachAscii : List (List (List ℕ)) → Type 0
EachAscii [] = Unit {0}
EachAscii (todo ∷ todos) = AllAscii todo × EachAscii todos

-- The first of the keys, and the others.
abbrev AsciiFirst : List (List (List ℕ)) → ℕ → Option (List (List ℕ)) → Type 0
AsciiFirst todos t (some (key ∷ rest)) = AllAscii (key ∷ []) × EachAscii (set_elem todos t rest)
AsciiFirst todos t _ = Unit {0}

EachAscii-set_elem :
    (todos : List (List (List ℕ))) (t : ℕ)
    → EachAscii todos
    → AsciiFirst todos t (get_elem? todos t)
EachAscii-set_elem [] t a = tt
EachAscii-set_elem ([] ∷ todos) zero a = tt
EachAscii-set_elem ((key ∷ rest) ∷ todos) zero a = ((a.0.0, tt), (a.0.1, a.1))
EachAscii-set_elem (todo ∷ todos) (suc t) a =
    behind (get_elem? todos t) (EachAscii-set_elem todos t a.1)
  where
    behind :
        (o : Option (List (List ℕ))) → AsciiFirst todos t o → AsciiFirst (todo ∷ todos) (suc t) o
    behind none h = tt
    behind (some []) h = tt
    behind (some (key ∷ rest)) h = (h.0, (a.0, h.1))

Interleaves-AllAscii :
    {todos : List (List (List ℕ))} {run : List (List ℕ)}
    → EachAscii todos
    → Interleaves todos run
    → AllAscii run
Interleaves-AllAscii a (over done) = tt
Interleaves-AllAscii {todos} a (turn {key = key} {rest = rest} t e later) =
    let first = subst (AsciiFirst todos t) e (EachAscii-set_elem todos t a) in
    (first.0.0, Interleaves-AllAscii first.1 later)

-- With an interval other than 0 and ASCII keys of less than 2^56 bytes, a run of several loops
-- never stops the process, and of each bucket it samples as many requests as there are multiples
-- of the interval, modulo 2^16, below the number of all loops' requests of the bucket: as many
-- in every order in which the loops take their turns.
pub Interleaves-sampled :
    (k : ℤ) (todos : List (List (List ℕ))) (run : List (List ℕ))
    → abs k ≢ 0
    → EachAscii todos
    → Interleaves todos run
    → (answers : List Bool) × (add_sample_requests k run new ≡ ok answers)
      × ((b : ℕ) → sampled b run answers ≡ multiples (abs k) (all_requests b todos))
Interleaves-sampled k todos run n a turns = (
  samples (abs k) [] run,
  add_sample_requests-samples k run n (Interleaves-AllAscii a turns),
  as_many,
)
  where
    as_many :
        (b : ℕ) → sampled b run (samples (abs k) [] run) ≡ multiples (abs k) (all_requests b todos)
    as_many b =
        let whole : requests b run + 0 ≡ all_requests b todos =
          omega (arith, requests-Interleaves b turns) in
        omega (arith, samples-multiples (abs k) b run [], ap (multiples (abs k)) whole)
