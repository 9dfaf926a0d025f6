-- ===== src/TypeUtil/Descriptor.antt =====
-- The arguments that a type descriptor gives.
use mesher.Prelude.{
  ℕ, zero, suc, ◌+◌, ◌≤◌, ◌<◌, ◌≡◌, refl, ap, subst, ◌∙◌, ◌≢◌, List, [], ◌∷◌, ◌++◌, take, drop, set,
  replicate, length, ltb, ltb→lt, lt→ltb, ◌==◌, true, if◌then◌else◌, arith, append_assoc,
  append-nil, Bool-cases, inl, inr, length-append, length-set, take-append,
}
use mathlib.Core.List.{map}
use native.Mathlib.Nat.{zero-add}
use mesher.Prelude.Text.{Text}
use mesher.Prelude.Go.{ret, panic, ◌>>=◌}
use mesher.Message.{Argument}
use mesher.TypeUtil.{zero_argument, typed, fill_matches, type_des_to_args}

length-map : (f : Text → Argument) (xs : List Text) → length (map f xs) ≡ length xs
length-map f [] = refl
length-map f (x ∷ xs) = ap suc (length-map f xs)

set_middle :
    (front : List Argument) (x v : Argument) (back : List Argument)
    → set (front ++ (x ∷ back)) (length front) v ≡ front ++ (v ∷ back)
set_middle [] x v back = refl
set_middle (y ∷ front) x v back = ap (◌∷◌ y) (set_middle front x v back)

-- With `front` filled and room behind it for the matches, the loop fills them in after `front`.
fill_matches-ret :
    (ms : List Text) (front back : List Argument)
    → length ms ≤ length back
    → fill_matches ms (length front) (front ++ back)
      ≡ ret (front ++ (map typed ms ++ drop (length ms) back), length front + length ms)
unfolding fill_matches
fill_matches-ret [] front back h = ap (λ (n : ℕ). ret (front ++ back, n)) (omega arith)
fill_matches-ret (m ∷ ms) front [] h = elim h [ ]
fill_matches-ret (m ∷ ms) front (x ∷ back) h =
    let room : ltb (length front) (length (front ++ (x ∷ back))) ≡ true =
      lt→ltb _ _ (omega (arith, length-append front (x ∷ back))) in
    let filled : List Argument = front ++ (typed m ∷ []) in
    let count : length filled ≡ length front + 1 = length-append front (typed m ∷ []) in
    let rest : List Argument = map typed ms ++ drop (length ms) back in
    let ih = fill_matches-ret ms filled back (omega arith) in
    let ih' =
      rw (count, append_assoc front (typed m ∷ []) back, append_assoc front (typed m ∷ []) rest) at
        ih in
    rw (room, set_middle front x (typed m) back)
      (ih' ∙ ap (λ (n : ℕ). ret (front ++ (typed m ∷ rest), n)) (omega arith))

fill_matches-panic :
    (ms : List Text) (i : ℕ) (args : List Argument)
    → i ≤ length args
    → length args < i + length ms
    → fill_matches ms i args ≡ panic
unfolding fill_matches
fill_matches-panic [] i args h k = absurd (omega arith)
fill_matches-panic (m ∷ ms) i args h k = elim (Bool-cases (ltb i (length args))) [
  | inl inside ↦ rw inside (
      fill_matches-panic ms (i + 1) (set args i (typed m))
        (omega (arith, length-set args i (typed m), ltb→lt i (length args) inside))
        (omega (arith, length-set args i (typed m))))
  | inr outside ↦ rw outside
]

drop-all : (n : ℕ) (xs : List Argument) → length xs ≤ n → drop n xs ≡ []
drop-all zero [] h = refl
drop-all zero (x ∷ xs) h = elim h [ ]
drop-all (suc n) [] h = refl
drop-all (suc n) (x ∷ xs) h = drop-all n xs (omega arith)

take-matches :
    (ms : List Text) (back : List Argument) → take (length ms) (map typed ms ++ back) ≡ map typed ms
take-matches ms back =
    subst (λ k. take k (map typed ms ++ back) ≡ map typed ms) (length-map typed ms)
      (take-append (map typed ms) back)

-- The loop on the 64 entries and the copy of the filled ones.
matched :
    (ms : List Text)
    → (do
      (args, i) ← fill_matches ms 0 (replicate 64 zero_argument)
      if i == 64 then ret args else ret (take i args))
      ≡ (if ltb 64 (length ms) then panic else ret (map typed ms))
matched ms = elim (Bool-cases (ltb 64 (length ms))) [
  | inl over ↦ rw (
    over,
    fill_matches-panic ms 0 (replicate 64 zero_argument) (omega arith)
        (omega (arith, ltb→lt 64 (length ms) over)),
  )
  | inr fits ↦
      rw (fits, fill_matches-ret ms [] (replicate 64 zero_argument) (ground arith))
        (rw zero-add (elim (Bool-cases (length ms == 64)) [
          | inl all ↦
              rw (all, drop-all (length ms) (replicate 64 zero_argument) (ground arith), append-nil)
          | inr some_left ↦ rw (some_left, take-matches)
        ]))
]

-- On a non-empty descriptor with at most 64 matches the arguments are the matches in order, with no
-- values; with more it panics.
type_des_to_args_lem :
    (find_all : Text → List Text) (desc : Text)
    → desc ≢ []
    → type_des_to_args find_all desc
      ≡ (if ltb 64 (length (find_all desc)) then panic else ret (map typed (find_all desc)))
unfolding type_des_to_args
type_des_to_args_lem find_all [] h = absurd (h refl)
type_des_to_args_lem find_all (c ∷ desc) h = matched (find_all (c ∷ desc))
