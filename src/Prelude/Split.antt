-- ===== src/Prelude/Split.antt =====
-- `strings.Split` and `strings.Join` at a separator of one byte.
use Prim.Native.Nat.{ℕ}
use mathlib.Core.Path.{◌≡◌, refl, ap, ◌∙◌, sym, subst}
use mathlib.Core.Logic.{◌≢◌, ◌↔◌}
use mathlib.Core.Bool.{Bool, false, ◌||◌}
use mathlib.Core.List.{List, [], ◌∷◌, ◌++◌}
use native.Mathlib.Omega.{arith}
use mesher.Prelude.Tests.{◌==◌, ==_iff, if◌then◌else◌}
use mesher.Prelude.Text.{Text}

-- The byte in front of the first piece.
abbrev pub onto_first : ℕ → List Text → List Text
onto_first c [] = (c ∷ []) ∷ []
onto_first c (p ∷ ps) = (c ∷ p) ∷ ps

unfoldable pub split : ℕ → Text → List Text
split sep [] = [] ∷ []
split sep (c ∷ s) = if c == sep then [] ∷ split sep s else onto_first c (split sep s)

unfoldable pub join : ℕ → List Text → Text
join sep [] = []
join sep (p ∷ []) = p
join sep (p ∷ q ∷ ps) = p ++ (sep ∷ join sep (q ∷ ps))

-- Whether the byte occurs.
unfoldable pub has_byte : ℕ → Text → Bool
has_byte sep [] = false
has_byte sep (c ∷ s) = c == sep || has_byte sep s

split-ne-nil : (sep : ℕ) (s : Text) → split sep s ≢ []
unfolding split
split-ne-nil sep [] e = cc
split-ne-nil sep (c ∷ s) e = ground arith

join-onto_first :
    (sep c : ℕ) (ps : List Text) → ps ≢ [] → join sep (onto_first c ps) ≡ c ∷ join sep ps
unfolding join
join-onto_first sep c [] h = absurd (h refl)
join-onto_first sep c (p ∷ []) h = refl
join-onto_first sep c (p ∷ q ∷ ps) h = refl

join-empty : (sep : ℕ) (ps : List Text) → ps ≢ [] → join sep ([] ∷ ps) ≡ sep ∷ join sep ps
unfolding join
join-empty sep [] h = absurd (h refl)
join-empty sep (q ∷ ps) h = refl

-- Joining the pieces of a text gives the text.
pub join-split : (sep : ℕ) (s : Text) → join sep (split sep s) ≡ s
unfolding split
join-split sep [] = unfold join in refl
join-split sep (c ∷ s) = ground (
  arith,
  join-split sep s,
  join-empty sep (split sep s) (split-ne-nil sep s),
  join-onto_first sep c (split sep s) (split-ne-nil sep s),
  ==_iff c sep,
)

-- A text without the separator is its only piece.
pub split_whole : (sep : ℕ) (s : Text) → has_byte sep s ≡ false → split sep s ≡ s ∷ []
unfolding split has_byte
split_whole sep [] h = refl
split_whole sep (c ∷ s) h = ground (arith, split_whole sep s)

-- A piece without the separator comes off the front.
pub split-append :
    (sep : ℕ) (p s : Text) → has_byte sep p ≡ false → split sep (p ++ (sep ∷ s)) ≡ p ∷ split sep s
unfolding split has_byte
split-append sep [] s h = ground (arith, ==_iff sep sep)
split-append sep (c ∷ p) s h = ground (arith, split-append sep p s)

-- The pieces do not hold the separator.
abbrev pub NoneHas : ℕ → List Text → Type 0
NoneHas sep [] = Unit {0}
NoneHas sep (p ∷ ps) = (has_byte sep p ≡ false) × NoneHas sep ps

NoneHas-onto_first :
    (sep c : ℕ) (ps : List Text)
    → (c == sep) ≡ false
    → NoneHas sep ps
    → NoneHas sep (onto_first c ps)
unfolding has_byte
NoneHas-onto_first sep c [] h k = ground arith
NoneHas-onto_first sep c (p ∷ ps) h k = ground arith

pub split-NoneHas : (sep : ℕ) (s : Text) → NoneHas sep (split sep s)
unfolding split has_byte
split-NoneHas sep [] = (refl, tt)
split-NoneHas sep (c ∷ s) =
    ground (arith, split-NoneHas sep s, NoneHas-onto_first sep c (split sep s))

-- Two pieces are the two sides of the only separator.
pub split_pair :
    (sep : ℕ) (s a b : Text)
    → (split sep s ≡ a ∷ b ∷ [])
      ↔ ((s ≡ a ++ (sep ∷ b)) × (has_byte sep a ≡ false) × (has_byte sep b ≡ false))
unfolding join
split_pair sep s a b = (
  λ e.
      let free : NoneHas sep (a ∷ b ∷ []) = subst (NoneHas sep) e (split-NoneHas sep s) in
      (sym (join-split sep s) ∙ ap (join sep) e, free.0, free.1.0),
  λ (e, ha, hb). rw (e, split-append sep a b ha, split_whole sep b hb),
)

-- Pieces without the separator come back from a joined text, if there is a piece.
pub split-join :
    (sep : ℕ) (ps : List Text) → ps ≢ [] → NoneHas sep ps → split sep (join sep ps) ≡ ps
unfolding join
split-join sep [] h k = absurd (h refl)
split-join sep (p ∷ []) h k = split_whole sep p k.0
split-join sep (p ∷ q ∷ ps) h k =
    split-append sep p (join sep (q ∷ ps)) k.0
    ∙ ap (λ (l : List Text). p ∷ l) (split-join sep (q ∷ ps) (λ e. cc) k.1)
