-- ===== src/Wire/Bytes/Stores.antt =====
-- Stores at a fixed distance from an offset, and loads of what they wrote.
use mesher.Prelude.{
  ℕ, zero, suc, ◌+◌, ◌%◌, ◌^◌, ◌<◌, ◌≤◌, ◌≡◌, refl, List, [], ◌∷◌, Option, some, none, arith,
  length, get_elem?, set, length-set, lt→ltb, if◌then◌else◌, ◌==◌,
}
use mesher.Prelude.Go.{ret, store}
use mesher.Wire.Bytes.{byte_at, long2bytes, short2bytes, int2bytes}

-- `v` if the index is in range.
abbrev pub fill {ℓ} : {A : Type ℓ} → A → Option A → Option A
fill v none = none
fill v (some a) = some v

module _ {ℓ} {A : Type ℓ} where
  get_elem?-set_any :
      (xs : List A) (i j : ℕ) (v : A)
      → get_elem? (set xs i v) j ≡ (if i == j then fill v (get_elem? xs j) else get_elem? xs j)
  get_elem?-set_any [] i j v = ground arith
  get_elem?-set_any (x ∷ xs) zero zero v = refl
  get_elem?-set_any (x ∷ xs) zero (suc j) v = ground arith
  get_elem?-set_any (x ∷ xs) (suc i) zero v = ground arith
  get_elem?-set_any (x ∷ xs) (suc i) (suc j) v = ground (arith, get_elem?-set_any xs i j v)

  -- The test is on the distances, so at two numerals it computes.
  pub get_elem?-set :
      (xs : List A) (off i j : ℕ) (v : A)
      → get_elem? (set xs (off + i) v) (off + j)
        ≡ (if i == j then fill v (get_elem? xs (off + j)) else get_elem? xs (off + j))
  get_elem?-set xs off i j v = ground (arith, get_elem?-set_any xs (off + i) (off + j) v)

  pub get_elem?_in_range :
      (xs : List A) (i : ℕ) → i < length xs → (a : A) × (get_elem? xs i ≡ some a)
  get_elem?_in_range [] i h = elim h [ ]
  get_elem?_in_range (x ∷ xs) zero h = (x, refl)
  get_elem?_in_range (x ∷ xs) (suc i) h = get_elem?_in_range xs i (omega arith)

  pub store_lem : (b : List A) (i : ℕ) (v : A) → i < length b → store b i v ≡ ret (set b i v)
  store_lem b i v h = rw (lt→ltb i (length b) h)

-- The writes of the three encoders, last store outermost.
abbrev pub long_at : ℕ → List ℕ → ℕ → List ℕ
long_at i b off =
    let c =
      set
        (set (set (set b (off + 7) (byte_at i 0)) (off + 6) (byte_at i 8)) (off + 5) (byte_at i 16))
        (off + 4) (byte_at i 24) in
    let c = set c (off + 3) (byte_at i 32) in
    let c = set c (off + 2) (byte_at i 40) in
    let c = set c (off + 1) (byte_at i 48) in set c (off + 0) (byte_at i 56)

-- Each store of a sequence is in range if the last byte is, since a store keeps the length.
pub long2bytes-ret :
    (i : ℕ) (b : List ℕ) (off : ℕ) → off + 8 ≤ length b → long2bytes i b off ≡ ret (long_at i b off)
unfolding long2bytes
long2bytes-ret i b off h = grind (arith, length-set)

abbrev pub short_at : ℕ → List ℕ → ℕ → List ℕ
short_at v b off = set (set b (off + 1) (byte_at v 0)) (off + 0) (byte_at v 8)

pub short2bytes-ret :
    (v : ℕ) (b : List ℕ) (off : ℕ)
    → off + 2 ≤ length b
    → short2bytes v b off ≡ ret (short_at v b off)
unfolding short2bytes
short2bytes-ret v b off h = grind (arith, length-set)

abbrev pub int_at : ℕ → List ℕ → ℕ → List ℕ
int_at value b off =
    let v = value % 2 ^ 32 in
    let c = set (set b (off + 3) (byte_at v 0)) (off + 2) (byte_at v 8) in
    set (set c (off + 1) (byte_at v 16)) (off + 0) (byte_at v 24)

pub int2bytes-ret :
    (v : ℕ) (b : List ℕ) (off : ℕ) → off + 4 ≤ length b → int2bytes v b off ≡ ret (int_at v b off)
unfolding int2bytes
int2bytes-ret v b off h = grind (arith, length-set)
