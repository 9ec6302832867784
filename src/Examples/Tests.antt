-- ===== src/Examples/Tests.antt =====
-- The sampler on concrete requests, and the theorems about it at them.
use ltapp.Base.{ℕ, ◌≡◌, refl, ◌*◌, Bool, true, false, List, [], ◌∷◌, arith}
use ltapp.Base.Int.{pos}
use ltapp.Outcome.{ok, abort}
use ltapp.Examples.Sampler.{vector_size, new, add_sample_request, add_sample_requests}
use ltapp.Examples.Sampler.Samples.{add_sample_requests-samples}
use ltapp.Examples.Sampler.Samples.{bucket_of}
use ltapp.Examples.Sampler.Loops.{
  abc, abc5, before_sleep, after_sleep, loops, one_by_one, one_by_one-Interleaves,
}
use ltapp.Examples.Sampler.Loops.Tally.{sampled}
use ltapp.Examples.Sampler.Loops.Total.{one_in_1000, in_round, loops-sampled}
use ltapp.Examples.Sampler.Negative.{add_sample_request-Negative}

-- "a", "b" and "a" again, one in two sampled.
abbrev keys : List (List ℕ)
keys = (97 ∷ []) ∷ (98 ∷ []) ∷ (97 ∷ []) ∷ (97 ∷ []) ∷ []

add_sample_requests-samples_example :
    add_sample_requests (pos 2) keys new ≡ ok (true ∷ true ∷ false ∷ true ∷ [])
unfolding vector_size
add_sample_requests-samples_example = add_sample_requests-samples (pos 2) keys (omega arith) (
  ((omega arith, tt), omega arith),
  (
    ((omega arith, tt), omega arith),
    (((omega arith, tt), omega arith), (((omega arith, tt), omega arith), tt)),
  ),
)

-- A letter of two bytes in UTF-8.
add_sample_request-Negative_example : add_sample_request (195 ∷ 188 ∷ []) (pos 2) new ≡ abort
add_sample_request-Negative_example =
    add_sample_request-Negative 195 (188 ∷ []) (pos 2) new
      ((omega arith, omega arith), ((omega arith, omega arith), tt)) (omega arith)

-- The program's own numbers, five loops of ten million rounds, one loop after the other.
loops-sampled_example :
    (answers : List Bool) × (add_sample_requests (pos 1000) (one_by_one (loops 5 10000000)) new
      ≡ ok answers)
    × ((b : ℕ)
        → sampled b (one_by_one (loops 5 10000000)) answers
          ≡ one_in_1000 (5 * (10000000 * in_round b)))
loops-sampled_example =
    loops-sampled 5 10000000 (one_by_one (loops 5 10000000))
      (one_by_one-Interleaves (loops 5 10000000))

-- The program's main sends 100000000 requests for "abc" and samples 100708 of them.
main_samples_abc : one_in_1000 (5 * (10000000 * in_round (bucket_of abc))) ≡ 100708
unfolding vector_size before_sleep after_sleep
main_samples_abc = refl

main_samples_abc5 : one_in_1000 (5 * (10000000 * in_round (bucket_of abc5))) ≡ 503540
unfolding vector_size before_sleep after_sleep
main_samples_abc5 = refl
