-- ===== src/Egress/Labels.antt =====
-- What the patterns of a host's labels accept.
use mesher.Prelude.{
  ℕ, ◌≤◌, ◌≡◌, ◌↔◌, ◌⊎◌, inl, inr, refl, sym, ap, ◌∙◌, [], ◌∷◌, ◌++◌, Bool, true, false, ◌||◌,
  arith, length, ==_iff,
}
use mesher.Prelude.Text.{Text}
use mesher.Egress.{
  star, is_alnum, label_rest, dns1123_label_regexp, starred_label, some_suffix, starts_with_star,
  wildcard_prefix_regexp, is_wildcard_dns1123_label,
}

ends_alnum : Text → Bool
ends_alnum [] = false
ends_alnum (c ∷ []) = is_alnum c
ends_alnum (c ∷ d ∷ s) = ends_alnum (d ∷ s)

label_rest-ends : (d : ℕ) (s : Text) → label_rest (d ∷ s) ≡ true → ends_alnum (d ∷ s) ≡ true
unfolding label_rest ends_alnum
label_rest-ends d [] e = e
label_rest-ends d (c ∷ s) e = ground (arith, label_rest-ends c s)

label-ends : (s : Text) → dns1123_label_regexp s ≡ true → ends_alnum s ≡ true
unfolding dns1123_label_regexp ends_alnum
label-ends [] e = e
label-ends (c ∷ []) e = ground arith
label-ends (c ∷ d ∷ s) e = ground (arith, label_rest-ends d s)

starred_label-ends :
    (c d : ℕ) (s : Text) → starred_label (c ∷ d ∷ s) ≡ true → ends_alnum (c ∷ d ∷ s) ≡ true
unfolding starred_label ends_alnum
starred_label-ends c d s e = ground (arith, label-ends (c ∷ d ∷ s), label-ends (d ∷ s))

onto_suffix : (b : Bool) {x y : Bool} → x ≡ y → (b ≡ true → y ≡ true) → (b || x) ≡ y
onto_suffix true e h = sym (h refl)
onto_suffix false e h = e

some_suffix-ends : (s : Text) → some_suffix starred_label s ≡ ends_alnum s
unfolding some_suffix ends_alnum starred_label dns1123_label_regexp label_rest
some_suffix-ends [] = refl
some_suffix-ends (c ∷ []) = ground arith
some_suffix-ends (c ∷ d ∷ s) =
    let ih : some_suffix starred_label (d ∷ s) ≡ ends_alnum (d ∷ s) = some_suffix-ends (d ∷ s) in
    onto_suffix (starred_label (c ∷ d ∷ s)) ih (starred_label-ends c d s)

abbrev pub EndsWithAlnum : Text → Type 0
EndsWithAlnum s = (p : Text) × (c : ℕ) × (s ≡ p ++ (c ∷ [])) × (is_alnum c ≡ true)

ends_alnum-last : (s : Text) → ends_alnum s ≡ true → EndsWithAlnum s
unfolding ends_alnum
ends_alnum-last [] e = cc
ends_alnum-last (c ∷ []) e = ([], c, refl, e)
ends_alnum-last (c ∷ d ∷ s) e =
    let (p, x, split, a) = ends_alnum-last (d ∷ s) e in (c ∷ p, x, ap (◌∷◌ c) split, a)

ends_alnum-append : (p : Text) (c : ℕ) → ends_alnum (p ++ (c ∷ [])) ≡ is_alnum c
unfolding ends_alnum
ends_alnum-append [] c = refl
ends_alnum-append (d ∷ []) c = refl
ends_alnum-append (d ∷ e ∷ p) c = ends_alnum-append (e ∷ p) c

starts_with_star_iff : (s : Text) → (starts_with_star s ≡ true) ↔ ((t : Text) × (s ≡ star ∷ t))
unfolding starts_with_star
starts_with_star_iff [] = (λ e. cc, λ (t, e). cc)
starts_with_star_iff (c ∷ s) =
    (λ e. (s, ap (λ x. x ∷ s) ((==_iff c star).0 e)), λ (t, e). ground (arith, e))

wildcard_parts :
    (s : Text)
    → (is_wildcard_dns1123_label s ≡ true)
      ↔ ((length s ≤ 63) × ((starts_with_star s ≡ true) ⊎ (ends_alnum s ≡ true)))
unfolding is_wildcard_dns1123_label wildcard_prefix_regexp
wildcard_parts s = ground (arith, some_suffix-ends s)

-- A first label is accepted exactly when it has at most 63 bytes and starts with a star or ends with a
-- letter or a digit, whatever stands between.
is_wildcard_dns1123_label_iff :
    (s : Text)
    → (is_wildcard_dns1123_label s ≡ true)
      ↔ ((length s ≤ 63) × (((t : Text) × (s ≡ star ∷ t)) ⊎ EndsWithAlnum s))
is_wildcard_dns1123_label_iff s = (
  λ e.
      let (short, how) = (wildcard_parts s).0 e in
      (
        short,
        elim how [ inl a ↦ inl ((starts_with_star_iff s).0 a) | inr b ↦ inr (ends_alnum-last s b) ],
      ),
  λ (short, how). (wildcard_parts s).1 (
    short,
    elim how [
      | inl a ↦ inl ((starts_with_star_iff s).1 a)
      | inr (p, c, split, a) ↦ inr (ap ends_alnum split ∙ ends_alnum-append p c ∙ a)
    ],
  ),
)
