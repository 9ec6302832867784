-- ===== src/Examples/Sampler/Negative.antt =====
-- Keys for which the sampler of examples/main.cc reads outside of its vector.
use ltapp.Base.{
  ℕ, zero, suc, ◌+◌, ◌-◌, ◌*◌, ◌%◌, ◌^◌, ◌≤◌, ◌<◌, ◌≡◌, refl, ap, ◌∙◌, List, [], ◌∷◌, arith, length,
}
use ltapp.Base.Int.{ℤ, pos, negsuc}
use ltapp.Outcome.{abort}
use ltapp.Examples.Sampler.{
  vector_size, RawSampleManager, add_char, sum_chars, to_int64, get_hash_key, bucket,
  add_sample_request,
}

-- Keys of negative chars.
abbrev pub Negative : List ℕ → Type 0
Negative [] = Unit {0}
Negative (c ∷ cs) = ((128 ≤ c) × (c < 256)) × Negative cs

abbrev debt : List ℕ → ℕ
debt [] = 0
debt (c ∷ cs) = (256 - c) + debt cs

debt-bound : (cs : List ℕ) → Negative cs → debt cs ≤ 128 * length cs
debt-bound [] n = omega arith
debt-bound (c ∷ cs) n = omega (arith, n.0.0, debt-bound cs n.1)

add_char-Negative :
    (d c : ℕ)
    → 128 ≤ c
    → c < 256
    → d < 2 ^ 63
    → add_char ((2 ^ 64 - d) % 2 ^ 64) c ≡ (2 ^ 64 - (d + (256 - c))) % 2 ^ 64
unfolding add_char
add_char-Negative d c l h e = ground arith

sum_chars-Negative :
    (d : ℕ) (cs : List ℕ)
    → Negative cs
    → d + debt cs < 2 ^ 63
    → sum_chars ((2 ^ 64 - d) % 2 ^ 64) cs ≡ (2 ^ 64 - (d + debt cs)) % 2 ^ 64
unfolding sum_chars
sum_chars-Negative d [] n h = omega arith
sum_chars-Negative d (c ∷ cs) n h =
    ap (λ x. sum_chars x cs) (add_char-Negative d c n.0.0 n.0.1 (omega arith))
    ∙ sum_chars-Negative (d + (256 - c)) cs n.1 (omega arith)
    ∙ omega arith

to_int64-Negative : (d : ℕ) → d < 2 ^ 63 - 1 → to_int64 ((2 ^ 64 - suc d) % 2 ^ 64) ≡ negsuc d
unfolding to_int64
to_int64-Negative d h = ground arith

below : (x : ℕ) → x < vector_size → x % vector_size ≡ x
unfolding vector_size
below x h = omega arith

bucket-Negative : (d : ℕ) → suc d < vector_size → bucket (negsuc d) ≡ negsuc d
unfolding bucket
bucket-Negative d h = ap (λ r. elim r [ zero ↦ pos 0 | suc r ↦ negsuc r ]) (below (suc d) h)

debt-suc :
    (c : ℕ) (cs : List ℕ)
    → Negative (c ∷ cs)
    → length (c ∷ cs) < 2 ^ 15
    → (d : ℕ) × (debt (c ∷ cs) ≡ suc d) × (suc d < vector_size)
unfolding vector_size
debt-suc c cs n l =
    (255 - c + debt cs, omega (arith, n.0.0, n.0.1), omega (arith, n.0.0, n.0.1, debt-bound cs n.1))

bucket-get_hash_key :
    (key : List ℕ) (d : ℕ)
    → Negative key
    → debt key ≡ suc d
    → suc d < vector_size
    → bucket (get_hash_key key) ≡ negsuc d
unfolding get_hash_key vector_size
bucket-get_hash_key key d n e h =
    ap (λ w. bucket (to_int64 w))
      (ap (λ x. sum_chars x key) (omega arith)
        ∙ sum_chars-Negative 0 key n (omega (arith, e))
        ∙ ap (λ x. (2 ^ 64 - x) % 2 ^ 64) (omega (arith, e)))
    ∙ ap bucket (to_int64-Negative d (omega arith))
    ∙ bucket-Negative d h

-- A key of up to 32767 bytes that are all from 128 on, as in UTF-8 text without an ASCII
-- character, makes the index negative: the access lies outside of the vector, whatever the
-- interval and the counts.
pub add_sample_request-Negative :
    (c : ℕ) (cs : List ℕ) (k : ℤ) (m : RawSampleManager)
    → Negative (c ∷ cs)
    → length (c ∷ cs) < 2 ^ 15
    → add_sample_request (c ∷ cs) k m ≡ abort
unfolding add_sample_request
add_sample_request-Negative c cs k m n l =
    let (d, e, h) = debt-suc c cs n l in
    rw (bucket-get_hash_key (c ∷ cs) d n e h, add_sample_request) refl
