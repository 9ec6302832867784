-- ===== src/Examples/Sampler/Loops/Total.antt =====
-- How many requests the main of examples/main.cc samples in all, one in 1000 of each bucket.
use ltapp.Base.{
  ℕ, zero, suc, ◌+◌, ◌*◌, ◌/◌, ◌%◌, ◌≡◌, refl, ap, ◌∙◌, Bool, List, [], ◌∷◌, ◌++◌, arith,
}
use ltapp.Base.Int.{pos}
use ltapp.Outcome.{ok}
use ltapp.Examples.Sampler.{new, add_sample_requests}
use ltapp.Examples.Sampler.Samples.{AllAscii}
use ltapp.Examples.Sampler.Loops.{before_sleep, after_sleep, func, loops, Interleaves}
use ltapp.Examples.Sampler.Loops.Tally.{
  requests, all_requests, sampled, multiples, EachAscii, Interleaves-sampled,
}

-- The 16 bits of a count run over after 66 samples, 536 requests after the last of them.
abbrev pub one_in_1000 : ℕ → ℕ
one_in_1000 n = n / 65536 * 66 + (n % 65536 + 999) / 1000

multiples-one_in_1000 : (n : ℕ) → multiples 1000 n ≡ one_in_1000 n
multiples-one_in_1000 zero = refl
multiples-one_in_1000 (suc n) = ground (arith, multiples-one_in_1000 n)

requests-append :
    (b : ℕ) (keys more : List (List ℕ))
    → requests b (keys ++ more) ≡ requests b keys + requests b more
requests-append b [] more = omega arith
requests-append b (key ∷ keys) more = omega (arith, requests-append b keys more)

-- The requests of a bucket in a round.
abbrev pub in_round : ℕ → ℕ
in_round b = requests b before_sleep + requests b after_sleep

requests-func : (b i : ℕ) → requests b (func i) ≡ i * in_round b
unfolding func
requests-func b zero = omega arith
requests-func b (suc i) = grind (
  arith,
  requests-append b before_sleep (after_sleep ++ func i),
  requests-append b after_sleep (func i),
  requests-func b i,
)

all_requests-loops : (b n i : ℕ) → all_requests b (loops n i) ≡ n * (i * in_round b)
unfolding loops
all_requests-loops b zero i = omega arith
all_requests-loops b (suc n) i = grind (arith, all_requests-loops b n i, requests-func b i)

AllAscii-append :
    (keys more : List (List ℕ)) → AllAscii keys → AllAscii more → AllAscii (keys ++ more)
AllAscii-append [] more a m = m
AllAscii-append (key ∷ keys) more a m = (a.0, AllAscii-append keys more a.1 m)

func-AllAscii : (i : ℕ) → AllAscii (func i)
unfolding func before_sleep after_sleep
func-AllAscii zero = tt
func-AllAscii (suc i) =
    AllAscii-append before_sleep (after_sleep ++ func i) (omega arith)
      (AllAscii-append after_sleep (func i) (omega arith) (func-AllAscii i))

loops-EachAscii : (n i : ℕ) → EachAscii (loops n i)
unfolding loops
loops-EachAscii zero i = tt
loops-EachAscii (suc n) i = (func-AllAscii i, loops-EachAscii n i)

-- Whatever the number of loops and of their rounds, and in whatever order the loops take their
-- turns, no request stops the process, and of the requests of each bucket in all loops and
-- rounds, 66 are sampled of every whole 65536, and of the others one in 1000, rounded up.
pub loops-sampled :
    (n i : ℕ) (run : List (List ℕ))
    → Interleaves (loops n i) run
    → (answers : List Bool) × (add_sample_requests (pos 1000) run new ≡ ok answers)
      × ((b : ℕ) → sampled b run answers ≡ one_in_1000 (n * (i * in_round b)))
loops-sampled n i run turns =
    let (answers, done, tally) =
      Interleaves-sampled (pos 1000) (loops n i) run (omega arith) (loops-EachAscii n i) turns in
    (
      answers,
      done,
      λ b. tally b ∙ multiples-one_in_1000 _ ∙ ap one_in_1000 (all_requests-loops b n i),
    )
