-- ===== src/Wire/Bytes/RoundTrip.antt =====
-- What is read back after each of the three encoders of protocol/dubbo/utils/bytes.go.
use Prim.Native.Nat.{bit_and}
use mesher.Prelude.{
  ℕ, zero, suc, ◌+◌, ◌*◌, ◌/◌, ◌%◌, ◌^◌, ◌<◌, ◌≤◌, ◌≡◌, refl, List, arith, length, ◌↔◌, Bool, true,
  ◌==◌, ==_iff, ◌&&◌, ap,
}
use mesher.Prelude.Go.{Go, ret, ◌>>=◌}
use mesher.Wire.Bytes.{byte_at, bytes2long, long2bytes, short2bytes, bytes2short}
use mesher.Wire.Bytes.Stores.{
  get_elem?-set, get_elem?_in_range, long2bytes-ret, short2bytes-ret, long_at,
}

-- The number that comes back: the bits 32 to 47 are dropped, and their two bytes are added to the
-- low end.
abbrev pub folded_id : ℕ → ℕ
folded_id i = (i / 2 ^ 48 * 2 ^ 48 + i / 2 ^ 40 % 256 + i / 2 ^ 32 % 256 + i % 2 ^ 32) % 2 ^ 64

pub bytes2long-long_at :
    (i : ℕ) (b : List ℕ) (off : ℕ)
    → i < 2 ^ 64
    → off + 8 ≤ length b
    → bytes2long (long_at i b off) off ≡ ret (folded_id i)
unfolding bytes2long
bytes2long-long_at i b off hi h =
    let (a0, e0) = get_elem?_in_range b (off + 0) (omega arith) in
    let (a1, e1) = get_elem?_in_range b (off + 1) (omega arith) in
    let (a2, e2) = get_elem?_in_range b (off + 2) (omega arith) in
    let (a3, e3) = get_elem?_in_range b (off + 3) (omega arith) in
    let (a4, e4) = get_elem?_in_range b (off + 4) (omega arith) in
    let (a5, e5) = get_elem?_in_range b (off + 5) (omega arith) in
    let (a6, e6) = get_elem?_in_range b (off + 6) (omega arith) in
    let (a7, e7) = get_elem?_in_range b (off + 7) (omega arith) in
    simp (get_elem?-set, e0, e1, e2, e3, e4, e5, e6, e7) (ap ret (omega arith))

pub bytes2long-long2bytes :
    (i : ℕ) (b : List ℕ) (off : ℕ)
    → i < 2 ^ 64
    → off + 8 ≤ length b
    → (do c ← long2bytes i b off; bytes2long c off) ≡ ret (folded_id i)
bytes2long-long2bytes i b off hi h = rw (long2bytes-ret i b off h) (bytes2long-long_at i b off hi h)

ret-injective : {a b : ℕ} → ◌≡◌ {A = Go ℕ} (ret a) (ret b) → a ≡ b
ret-injective e = cc

-- An int64 written by `long2bytes` comes back from `bytes2long` exactly when its bits 32 to 47 are
-- zero, at every offset with eight bytes behind it.
bytes2long-long2bytes_iff :
    (i : ℕ) (b : List ℕ) (off : ℕ)
    → i < 2 ^ 64
    → off + 8 ≤ length b
    → ((do c ← long2bytes i b off; bytes2long c off) ≡ ret i) ↔ (i / 2 ^ 32 % 2 ^ 16 ≡ 0)
bytes2long-long2bytes_iff i b off hi h =
    rw (bytes2long-long2bytes i b off hi h)
      (λ e. omega (arith, ret-injective e), λ e. ap ret (omega arith))

-- The mask by 0xff keeps every number below `n`.
masked_below : ℕ → Bool
masked_below zero = true
masked_below (suc n) = bit_and n 0xff == n && masked_below n

masked_below_lem : (x n : ℕ) → x < n → masked_below n ≡ true → bit_and x 0xff ≡ x
unfolding masked_below
masked_below_lem x zero lt h = elim lt [ ]
masked_below_lem x (suc n) lt h = ground (arith, ==_iff (bit_and n 0xff) n, masked_below_lem x n)

bytes_masked : masked_below 256 ≡ true
unfolding masked_below
bytes_masked = refl

low_byte : (x : ℕ) → x < 256 → bit_and x 0xff ≡ x
low_byte x lt = masked_below_lem x 256 lt bytes_masked

-- What `bytes2short` reads back after `short2bytes` is the low byte alone, whatever the high one was,
-- at every offset with two bytes behind it.
bytes2short-short2bytes :
    (v : ℕ) (b : List ℕ) (off : ℕ)
    → off + 2 ≤ length b
    → (do c ← short2bytes v b off; bytes2short c off) ≡ ret (v % 256)
unfolding bytes2short
bytes2short-short2bytes v b off h =
    let (a0, e0) = get_elem?_in_range b (off + 0) (omega arith) in
    let (a1, e1) = get_elem?_in_range b (off + 1) (omega arith) in
    rw (short2bytes-ret v b off h) (
      simp (get_elem?-set, e0, e1)
        (ap ret (rw (low_byte (byte_at v 0) (omega arith)) (omega arith))))
