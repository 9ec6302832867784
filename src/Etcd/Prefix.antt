-- ===== src/Etcd/Prefix.antt =====
-- The range of keys under a prefix, as EtcdClientV3::Range (content/etcdv3/etcd_client.cc) and
-- EtcdWatcher::Watch (content/etcdv3/etcd_watcher.cc) compute it. A std::string is its list of bytes.
use mathlib.Core.Option.{some-injective}
use ltapp.Base.{
  ℕ, ◌+◌, ◌%◌, ◌<◌, ◌≡◌, refl, ◌∙◌, subst, Bool, true, false, not, ◌&&◌, ◌||◌, List, [], ◌∷◌,
  Option, none, some, arith, ltb, ◌==◌,
}

-- range_end.back() = (int) range_end[length - 1] + 1, stored in a char, for the key `b ∷ bs`.
unfoldable pub raise_last : ℕ → List ℕ → List ℕ
raise_last b [] = (b + 1) % 256 ∷ []
raise_last b (c ∷ cs) = b ∷ raise_last c cs

-- The empty key has no last byte: reading it is undefined, and `none` here.
unfoldable pub range_end : List ℕ → Option (List ℕ)
unfolding raise_last
range_end [] = none
range_end (b ∷ bs) = some (raise_last b bs)

-- The order of keys in etcd: bytewise.
unfoldable pub key_lt : List ℕ → List ℕ → Bool
key_lt [] [] = false
key_lt [] (y ∷ ys) = true
key_lt (x ∷ xs) [] = false
key_lt (x ∷ xs) (y ∷ ys) = ltb x y || (x == y && key_lt xs ys)

unfoldable pub is_prefix : List ℕ → List ℕ → Bool
is_prefix [] k = true
is_prefix (b ∷ bs) [] = false
is_prefix (b ∷ bs) (x ∷ xs) = b == x && is_prefix bs xs

unfoldable pub key_eq : List ℕ → List ℕ → Bool
key_eq [] [] = true
key_eq [] (y ∷ ys) = false
key_eq (x ∷ xs) [] = false
key_eq (x ∷ xs) (y ∷ ys) = x == y && key_eq xs ys

pub key_eq_refl : (k : List ℕ) → key_eq k k ≡ true
unfolding key_eq
key_eq_refl [] = refl
key_eq_refl (x ∷ xs) = ground (arith, key_eq_refl xs)

pub key_eq-eq : (k l : List ℕ) → key_eq k l ≡ true → k ≡ l
unfolding key_eq
key_eq-eq [] [] h = refl
key_eq-eq [] (y ∷ ys) h = cc
key_eq-eq (x ∷ xs) [] h = cc
key_eq-eq (x ∷ xs) (y ∷ ys) h = ground (arith, key_eq-eq xs ys)

-- The keys k that a server gives: those of [key, end), where an empty end asks for the key alone,
-- and the end "\0" for all keys from `key` on.
abbrev pub in_range : List ℕ → List ℕ → List ℕ → Bool
in_range key [] k = key_eq key k
in_range key (e ∷ []) k = not (key_lt k key) && (e == 0 || key_lt k (e ∷ []))
in_range key (e ∷ f ∷ end) k = not (key_lt k key) && key_lt k (e ∷ f ∷ end)

abbrev between : List ℕ → List ℕ → List ℕ → Bool
between key end k = not (key_lt k key) && key_lt k end

-- An end of two bytes or more is one of the ordinary kind.
in_range-between :
    (key k : List ℕ) (b c : ℕ) (cs : List ℕ)
    → in_range key (raise_last b (c ∷ cs)) k ≡ between key (raise_last b (c ∷ cs)) k
unfolding raise_last
in_range-between key k b c [] = refl
in_range-between key k b c (d ∷ ds) = refl

abbrev pub last_byte : ℕ → List ℕ → ℕ
last_byte b [] = b
last_byte b (c ∷ cs) = last_byte c cs

raise_last-prefix :
    (b : ℕ) (bs k : List ℕ)
    → last_byte b bs < 255
    → between (b ∷ bs) (raise_last b bs) k ≡ is_prefix (b ∷ bs) k
unfolding raise_last key_lt is_prefix
raise_last-prefix b [] [] l = ground arith
raise_last-prefix b [] (x ∷ []) l = ground arith
raise_last-prefix b [] (x ∷ y ∷ xs) l = ground arith
raise_last-prefix b (c ∷ cs) [] l = ground arith
raise_last-prefix b (c ∷ cs) (x ∷ xs) l = ground (arith, raise_last-prefix c cs xs l)

in_range-prefix :
    (b : ℕ) (bs k : List ℕ)
    → last_byte b bs < 255
    → in_range (b ∷ bs) (raise_last b bs) k ≡ is_prefix (b ∷ bs) k
unfolding raise_last
in_range-prefix b [] k l = ground (arith, raise_last-prefix b [] k l)
in_range-prefix b (c ∷ cs) k l =
    in_range-between (b ∷ c ∷ cs) k b c cs ∙ raise_last-prefix b (c ∷ cs) k l

-- For a key whose last byte is below 255, a key lies in the range that is asked for exactly
-- when the key is its prefix.
pub range_end-prefix :
    (b : ℕ) (bs e : List ℕ)
    → last_byte b bs < 255
    → range_end (b ∷ bs) ≡ some e
    → (k : List ℕ) → in_range (b ∷ bs) e k ≡ is_prefix (b ∷ bs) k
unfolding range_end
range_end-prefix b bs e l h k =
    subst (λ x. in_range (b ∷ bs) x k ≡ is_prefix (b ∷ bs) k) (some-injective (raise_last b bs) e h)
      (in_range-prefix b bs k l)

raise_last-empty :
    (b : ℕ) (bs k : List ℕ) → last_byte b bs ≡ 255 → between (b ∷ bs) (raise_last b bs) k ≡ false
unfolding raise_last key_lt
raise_last-empty b [] [] l = ground arith
raise_last-empty b [] (x ∷ []) l = ground arith
raise_last-empty b [] (x ∷ y ∷ xs) l = ground arith
raise_last-empty b (c ∷ cs) [] l = ground arith
raise_last-empty b (c ∷ cs) (x ∷ xs) l = ground (arith, raise_last-empty c cs xs l)

-- For a key of two bytes or more whose last one is 255, no key lies in the range that is asked
-- for, not even the key itself.
pub range_end-empty :
    (b c : ℕ) (cs e : List ℕ)
    → last_byte c cs ≡ 255
    → range_end (b ∷ c ∷ cs) ≡ some e
    → (k : List ℕ) → in_range (b ∷ c ∷ cs) e k ≡ false
unfolding range_end
range_end-empty b c cs e l h k =
    subst (λ x. in_range (b ∷ c ∷ cs) x k ≡ false) (some-injective (raise_last b (c ∷ cs)) e h)
      (in_range-between (b ∷ c ∷ cs) k b c cs ∙ raise_last-empty b (c ∷ cs) k l)
