-- ===== src/Examples/Sampler/Samples.antt =====
-- Which requests the sampler of examples/main.cc samples, for ASCII keys.
use ltapp.Base.{
  ℕ, ◌+◌, ◌*◌, ◌%◌, ◌^◌, ◌≤◌, ◌<◌, ◌≡◌, ◌≢◌, refl, ap, ◌∙◌, Bool, true, false, List, [], ◌∷◌, ◌==◌,
  arith, Bool-cases, ◌⊎◌, inl, inr, length,
}
use ltapp.Base.Int.{ℤ, pos}
use ltapp.Base.Count.{count}
use ltapp.Outcome.{Outcome, ok, ◌>>=◌}
use ltapp.Examples.Sampler.{
  vector_size, RawSampleManager, new, add_char, sum_chars, to_int64, get_hash_key, bucket,
  set_count, abs, sample_at, add_sample_request, add_sample_requests,
}

-- ASCII keys of a length that does not run over.
abbrev pub Ascii : List ℕ → Type 0
Ascii [] = Unit {0}
Ascii (c ∷ cs) = (c < 128) × Ascii cs

abbrev pub sum : List ℕ → ℕ
sum [] = 0
sum (c ∷ cs) = c + sum cs

sum-bound : (cs : List ℕ) → Ascii cs → sum cs ≤ 127 * length cs
sum-bound [] a = omega arith
sum-bound (c ∷ cs) a = omega (arith, a.0, sum-bound cs a.1)

add_char-Ascii : (r c : ℕ) → c < 128 → r + c < 2 ^ 63 → add_char r c ≡ r + c
unfolding add_char
add_char-Ascii r c h l = ground arith

sum_chars-Ascii :
    (r : ℕ) (cs : List ℕ) → Ascii cs → r + sum cs < 2 ^ 63 → sum_chars r cs ≡ r + sum cs
unfolding sum_chars
sum_chars-Ascii r [] a h = omega arith
sum_chars-Ascii r (c ∷ cs) a h =
    ap (λ x. sum_chars x cs) (add_char-Ascii r c a.0 (omega arith))
    ∙ sum_chars-Ascii (r + c) cs a.1 (omega arith)
    ∙ omega arith

get_hash_key-Ascii : (cs : List ℕ) → Ascii cs → length cs < 2 ^ 56 → get_hash_key cs ≡ pos (sum cs)
unfolding get_hash_key to_int64
get_hash_key-Ascii cs a l =
    ap to_int64 (sum_chars-Ascii 0 cs a (omega (arith, sum-bound cs a)))
    ∙ small (0 + sum cs) (omega (arith, sum-bound cs a))
    ∙ ap pos (omega arith)
  where
    small : (w : ℕ) → w < 2 ^ 63 → to_int64 w ≡ pos w
    small w h = ground arith

-- The bucket of an ASCII key.
abbrev pub bucket_of : List ℕ → ℕ
bucket_of key = sum key % vector_size

request-Ascii :
    (k : ℤ) (key : List ℕ) (m : RawSampleManager)
    → Ascii key
    → length key < 2 ^ 56
    → add_sample_request key k m ≡ sample_at (bucket_of key) k m
unfolding add_sample_request bucket
request-Ascii k key m a l = rw (get_hash_key-Ascii key a l, add_sample_request) refl

abbrev pub AllAscii : List (List ℕ) → Type 0
AllAscii [] = Unit {0}
AllAscii (key ∷ keys) = (Ascii key × (length key < 2 ^ 56)) × AllAscii keys

-- The specification: a request is sampled when the number of those of its bucket before it, taken
-- modulo 2^16, is a multiple of the interval.
abbrev pub samples : ℕ → List ℕ → List (List ℕ) → List Bool
samples k seen [] = []
samples k seen (key ∷ keys) =
    ((count (bucket_of key) seen % 2 ^ 16 % k) == 0) ∷ samples k (bucket_of key ∷ seen) keys

-- The counts are those of the buckets seen so far.
abbrev Counts : List ℕ → RawSampleManager → Type 0
Counts seen m = (b : ℕ) → m.request_count b ≡ count b seen % 2 ^ 16

set_count-Counts :
    (b : ℕ) (seen : List ℕ) (m : RawSampleManager)
    → Counts seen m
    → Counts (b ∷ seen) (set_count b ((m.request_count b + 1) % 2 ^ 16) m)
unfolding set_count
set_count-Counts b seen m h j = ground (arith, h j, h b)

sample_at-samples :
    (b : ℕ) (k : ℤ) (seen : List ℕ) (m : RawSampleManager)
    → abs k ≢ 0
    → Counts seen m
    → sample_at b k m
      ≡ ok (set_count b ((m.request_count b + 1) % 2 ^ 16) m, (count b seen % 2 ^ 16 % abs k) == 0)
unfolding sample_at
sample_at-samples b k seen m n h = go (Bool-cases (abs k == 0))
  where
    go :
        (abs k == 0) ≡ true ⊎ (abs k == 0) ≡ false
        → sample_at b k m
          ≡ ok (
            set_count b ((m.request_count b + 1) % 2 ^ 16) m,
            (count b seen % 2 ^ 16 % abs k) == 0,
          )
    go (inl e) = absurd (n (ground arith))
    go (inr e) =
        rw e
          (ap (λ x. ok (set_count b ((m.request_count b + 1) % 2 ^ 16) m, (x % abs k) == 0)) (h b))

requests-seen :
    (k : ℤ) (keys : List (List ℕ)) (seen : List ℕ) (m : RawSampleManager)
    → abs k ≢ 0
    → AllAscii keys
    → Counts seen m
    → add_sample_requests k keys m ≡ ok (samples (abs k) seen keys)
unfolding add_sample_requests
requests-seen k [] seen m n a h = refl
requests-seen k (key ∷ keys) seen m n a h =
    ap (λ o. o >>= after)
      (request-Ascii k key m a.0.0 a.0.1 ∙ sample_at-samples (bucket_of key) k seen m n h)
    ∙ ap (λ o. o >>= λ rest. ok (((count (bucket_of key) seen % 2 ^ 16 % abs k) == 0) ∷ rest))
        (requests-seen k keys (bucket_of key ∷ seen) _ n a.1
          (set_count-Counts (bucket_of key) seen m h))
  where
    after : RawSampleManager × Bool → Outcome (List Bool)
    after (m', need_sample) = do rest ← add_sample_requests k keys m'; ok (need_sample ∷ rest)

-- From the start and with an interval other than 0, requests with ASCII keys of less than 2^56
-- bytes never stop the process, whatever their number, and each is sampled exactly when the
-- number of earlier requests of its bucket is, modulo 2^16, a multiple of the interval.
pub add_sample_requests-samples :
    (k : ℤ) (keys : List (List ℕ))
    → abs k ≢ 0
    → AllAscii keys
    → add_sample_requests k keys new ≡ ok (samples (abs k) [] keys)
unfolding new
add_sample_requests-samples k keys n a = requests-seen k keys [] new n a (λ b. omega arith)
