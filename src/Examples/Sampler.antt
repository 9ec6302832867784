-- ===== src/Examples/Sampler.antt =====
-- RawSampleManager of examples/main.cc: it counts requests in buckets chosen by a hash of their key,
-- and samples one in so many of each bucket. A std::string is its list of bytes, and a char is
-- signed, as on x86.
pub mod Samples
pub mod Negative
pub mod Loops
use ltapp.Base.{
  ℕ, zero, suc, ◌+◌, ◌-◌, ◌*◌, ◌%◌, ◌^◌, ◌≤◌, ◌<◌, ◌≡◌, ◌≢◌, refl, sym, ap, ◌∙◌, Bool, true, false,
  List, [], ◌∷◌, if◌then◌else◌, ltb, ◌==◌, arith, Bool-cases, ◌⊎◌, inl, inr, length, map,
}
use ltapp.Base.Int.{ℤ, pos, negsuc}
use ltapp.Base.Count.{count}
use ltapp.Outcome.{Outcome, ok, abort, ◌>>=◌}

unfoldable pub vector_size : ℕ
vector_size = 4 * 1024 * 1024

-- The counts below `vector_size`, each a uint16_t.
pub record RawSampleManager : Type 0 where
  pub request_count : ℕ → ℕ

unfoldable pub new : RawSampleManager
new = record { request_count = λ _. 0 }

-- `result += int(c)` for a uint64_t, where a byte from 128 on is a negative char.
unfoldable pub add_char : ℕ → ℕ → ℕ
add_char result c = (result + (if ltb c 128 then c else 2 ^ 64 - (256 - c))) % 2 ^ 64

unfoldable pub sum_chars : ℕ → List ℕ → ℕ
unfolding add_char
sum_chars result [] = result
sum_chars result (c ∷ cs) = sum_chars (add_char result c) cs

unfoldable pub to_int64 : ℕ → ℤ
to_int64 w = if ltb w (2 ^ 63) then pos w else negsuc (2 ^ 64 - 1 - w)

unfoldable pub get_hash_key : List ℕ → ℤ
unfolding sum_chars to_int64
get_hash_key uid = to_int64 (sum_chars 0 uid)

-- `uidInt % Vector_Size`, which has the sign of uidInt.
unfoldable pub bucket : ℤ → ℤ
unfolding vector_size
bucket (pos n) = pos (n % vector_size)
bucket (negsuc n) = elim (suc n % vector_size) [ zero ↦ pos 0 | suc r ↦ negsuc r ]

unfoldable pub set_count : ℕ → ℕ → RawSampleManager → RawSampleManager
set_count i x m = record m { request_count = λ j. if j == i then x else m.request_count j }

abbrev pub abs : ℤ → ℕ
abs (pos n) = n
abs (negsuc n) = suc n

-- AddSampleRequest on request_count_[i]: the old count decides. A division by zero stops the process.
unfoldable pub sample_at : ℕ → ℤ → RawSampleManager → Outcome (RawSampleManager × Bool)
unfolding set_count
sample_at i sample_interval m =
    let x = m.request_count i in
    if abs sample_interval == 0
    then abort
    else ok (set_count i ((x + 1) % 2 ^ 16) m, (x % abs sample_interval) == 0)

-- A negative index lies outside of the vector: undefined, and `abort` here.
unfoldable pub add_sample_request :
    List ℕ → ℤ → RawSampleManager → Outcome (RawSampleManager × Bool)
unfolding get_hash_key bucket sample_at
add_sample_request key sample_interval m = elim (bucket (get_hash_key key)) [
  | pos i ↦ sample_at i sample_interval m
  | negsuc n ↦ abort
]

-- Requests one after the other, and what they answer.
unfoldable pub add_sample_requests : ℤ → List (List ℕ) → RawSampleManager → Outcome (List Bool)
unfolding add_sample_request
add_sample_requests k [] m = ok []
add_sample_requests k (key ∷ keys) m = do
  (m', need_sample) ← add_sample_request key k m
  rest ← add_sample_requests k keys m'
  ok (need_sample ∷ rest)
