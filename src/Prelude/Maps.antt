-- ===== src/Prelude/Maps.antt =====
-- Ranging over a map: an association list that holds each key once.
use mathlib.Core.Path.{◌≡◌, refl, subst}
use mathlib.Core.List.{[], ◌∷◌}
use mathlib.Core.Bool.{Bool, true, ◌&&◌}
use mathlib.Core.Option.{none, some}
use native.Mathlib.Omega.{arith}
use mathlib.Core.Logic.{◌↔◌, inl, inr}
use mesher.Prelude.Tests.{Bool-cases}
use mesher.Prelude.Text.{Text, Table, text_eq, text_eq_iff, lookup}

module _ {ℓ} {V : Type ℓ} where
  abbrev pub IsMap : Table V → Type ℓ
  IsMap [] = Unit {ℓ}
  IsMap ((k, v) ∷ t) = (lookup k t ≡ none) × IsMap t

  -- What holds of every entry, and what holds of every value that is found.
  abbrev pub Entries {κ} : (Text → V → Type κ) → Table V → Type κ
  Entries P [] = Unit {κ}
  Entries P ((k, v) ∷ t) = P k v × Entries P t

  pub Entries-lookup {κ} :
      (P : Text → V → Type κ) (t : Table V) (k : Text) (v : V)
      → Entries P t
      → lookup k t ≡ some v
      → P k v
  unfolding lookup
  Entries-lookup P [] k v h e = cc
  Entries-lookup P ((j, w) ∷ t) k v h e = elim (Bool-cases (text_eq j k)) [
    | inl same ↦
        let j=k : j ≡ k = (text_eq_iff j k).0 same in
        let w=v : w ≡ v = ground arith in subst (λ x. P x v) j=k (subst (λ y. P j y) w=v h.0)
    | inr other ↦ Entries-lookup P t k v h.1 (ground arith)
  ]

  lookup_later :
      (t : Table V) (j k : Text) (w v : V)
      → lookup j t ≡ none
      → lookup k t ≡ some v
      → lookup k ((j, w) ∷ t) ≡ some v
  unfolding lookup
  lookup_later t j k w v h e = ground (arith, text_eq_iff j k)

  pub lookup-Entries {κ} :
      (P : Text → V → Type κ) (t : Table V)
      → IsMap t
      → ((k : Text) (v : V) → lookup k t ≡ some v → P k v)
      → Entries P t
  unfolding lookup
  lookup-Entries P [] m h = tt
  lookup-Entries P ((j, w) ∷ t) m h = (
    h j w (ground (arith, text_eq_iff j j)),
    lookup-Entries P t m.1 (λ k v e. h k v (lookup_later t j k w v m.0 e)),
  )

  abbrev pub all_entries : (Text → V → Bool) → Table V → Bool
  all_entries p [] = true
  all_entries p ((k, v) ∷ t) = p k v && all_entries p t

  -- A loop that ends with false at the first entry that fails.
  pub all_entries_iff {κ} :
      (p : Text → V → Bool) (P : Text → V → Type κ)
      → ((k : Text) (v : V) → (p k v ≡ true) ↔ P k v)
      → (t : Table V) → (all_entries p t ≡ true) ↔ Entries P t
  all_entries_iff p P h [] = (λ e. tt, λ e. refl)
  all_entries_iff p P h ((k, v) ∷ t) =
      let ih = all_entries_iff p P h t in
      (
        λ e. ((h k v).0 (ground arith), ih.0 (ground arith)),
        λ e.
            let x : p k v ≡ true = (h k v).1 e.0 in
            let y : all_entries p t ≡ true = ih.1 e.1 in ground arith,
      )
