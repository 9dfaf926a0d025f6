-- ===== src/Policy/Meaning.antt =====
-- What it means that an invocation falls under a policy.
use mesher.Prelude.{
  ◌∙◌, ap, ◌≡◌, ◌≢◌, ◌↔◌, refl, sym, Option, none, some, true, false, arith, Bool-cases, inl, inr,
}
use mesher.Prelude.Text.{Text, text_eq, text_eq_iff, lookup}
use mesher.Prelude.Maps.{IsMap, Entries-lookup, lookup-Entries, all_entries, all_entries_iff}
use mesher.Wire.Object.{
  Object, nil, text, int16, int32, int64, float32, float64, blob, array, dict, other,
}
use mesher.Policy.{
  Invocation, Policy, default_app, default_version, built_in_tag_app, built_in_tag_version,
  or_default, equals_text, is_text, tag_of, found, tag_holds, metadata_holds, equal_policy,
}

equals_text_iff : (o : Object) (s : Text) → (equals_text o s ≡ true) ↔ (o ≡ text s)
unfolding equals_text
equals_text_iff (text t) s = ground (arith, text_eq_iff t s)
equals_text_iff nil s = ground arith
equals_text_iff (int32 w) s = ground arith
equals_text_iff (float64 w) s = ground arith
equals_text_iff (float32 w) s = ground arith
equals_text_iff (int64 w) s = ground arith
equals_text_iff (int16 w) s = ground arith
equals_text_iff (blob b) s = ground arith
equals_text_iff (array a) s = ground arith
equals_text_iff (dict d) s = ground arith
equals_text_iff (other n) s = ground arith

is_text_iff : (o : Object) → (is_text o ≡ true) ↔ ((s : Text) × (o ≡ text s))
unfolding is_text
is_text_iff (text t) = (λ e. (t, refl), λ e. refl)
is_text_iff nil = (λ e. cc, λ (s, e). cc)
is_text_iff (int32 w) = (λ e. cc, λ (s, e). cc)
is_text_iff (float64 w) = (λ e. cc, λ (s, e). cc)
is_text_iff (float32 w) = (λ e. cc, λ (s, e). cc)
is_text_iff (int64 w) = (λ e. cc, λ (s, e). cc)
is_text_iff (int16 w) = (λ e. cc, λ (s, e). cc)
is_text_iff (blob b) = (λ e. cc, λ (s, e). cc)
is_text_iff (array a) = (λ e. cc, λ (s, e). cc)
is_text_iff (dict d) = (λ e. cc, λ (s, e). cc)
is_text_iff (other n) = (λ e. cc, λ (s, e). cc)

-- The tag app and the tag version name the app and the version of the invocation, with defaults for
-- empty values; any other tag is a key of the metadata with a string.
abbrev pub TagHolds : Invocation → Text → Text → Type 0
TagHolds inv k v =
    (k ≡ built_in_tag_app → or_default default_app v ≡ inv.app_id)
    × (k ≡ built_in_tag_version → or_default default_version v ≡ inv.version)
    × (k ≢ built_in_tag_app
        → k ≢ built_in_tag_version
        → (s : Text) × (lookup k inv.metadata ≡ some (text s)))

app-ne-version : built_in_tag_app ≢ built_in_tag_version
app-ne-version e = cc

text_eq-no : (s t : Text) → text_eq s t ≡ false → s ≢ t
text_eq-no s t f e = ground (arith, text_eq_iff s t)

found_iff : (r : Option Object) → (found r ≡ true) ↔ ((s : Text) × (r ≡ some (text s)))
unfolding found
found_iff none = (λ e. cc, λ (s, e). cc)
found_iff (some o) = (
  λ e. let h = (is_text_iff o).0 e in (h.0, ap (λ x. some x) h.1),
  λ (s, e). (is_text_iff o).1 (s, cc),
)

holds-app :
    (inv : Invocation) (k v : Text)
    → text_eq k built_in_tag_app ≡ true
    → tag_holds inv k v ≡ text_eq (or_default default_app v) inv.app_id
unfolding tag_holds
holds-app inv k v a = ground arith

holds-version :
    (inv : Invocation) (k v : Text)
    → text_eq k built_in_tag_app ≡ false
    → text_eq k built_in_tag_version ≡ true
    → tag_holds inv k v ≡ text_eq (or_default default_version v) inv.version
unfolding tag_holds
holds-version inv k v na b = ground arith

holds-found :
    (inv : Invocation) (k v : Text)
    → text_eq k built_in_tag_app ≡ false
    → text_eq k built_in_tag_version ≡ false
    → tag_holds inv k v ≡ found (lookup k inv.metadata)
unfolding tag_holds
holds-found inv k v na nb = ground arith

tag_holds_iff : (inv : Invocation) (k v : Text) → (tag_holds inv k v ≡ true) ↔ TagHolds inv k v
tag_holds_iff inv k v = elim (Bool-cases (text_eq k built_in_tag_app)) [
  | inl a ↦
      let k=app : k ≡ built_in_tag_app = (text_eq_iff k built_in_tag_app).0 a in
      (
        λ e. (
          λ _.
              (text_eq_iff (or_default default_app v) inv.app_id).0 (sym (holds-app inv k v a) ∙ e),
          λ b. absurd (app-ne-version (sym k=app ∙ b)),
          λ na _. absurd (na k=app),
        ),
        λ h.
            holds-app inv k v a ∙ (text_eq_iff (or_default default_app v) inv.app_id).1 (h.0 k=app),
      )
  | inr na ↦ elim (Bool-cases (text_eq k built_in_tag_version)) [
    | inl b ↦
        let k=version : k ≡ built_in_tag_version = (text_eq_iff k built_in_tag_version).0 b in
        (
          λ e. (
            λ a. absurd (text_eq-no k built_in_tag_app na a),
            λ _.
                (text_eq_iff (or_default default_version v) inv.version).0
                  (sym (holds-version inv k v na b) ∙ e),
            λ _ nb. absurd (nb k=version),
          ),
          λ h.
              holds-version inv k v na b
              ∙ (text_eq_iff (or_default default_version v) inv.version).1 (h.1 k=version),
        )
    | inr nb ↦ (
      λ e. (
        λ a. absurd (text_eq-no k built_in_tag_app na a),
        λ b. absurd (text_eq-no k built_in_tag_version nb b),
        λ _ _. (found_iff (lookup k inv.metadata)).0 (sym (holds-found inv k v na nb) ∙ e),
      ),
      λ h.
          holds-found inv k v na nb
          ∙ (found_iff (lookup k inv.metadata)).1
              (h.2 (text_eq-no k built_in_tag_app na) (text_eq-no k built_in_tag_version nb)),
    )
  ]
]

equal_policy_parts :
    (inv : Invocation) (p : Policy)
    → (equal_policy inv p ≡ true) ↔ (
        (inv.micro_service_name ≡ p.destination)
        × (all_entries (tag_holds inv) p.tags ≡ true)
        × (all_entries (metadata_holds p) inv.metadata ≡ true))
unfolding equal_policy
equal_policy_parts inv p = ground (arith, text_eq_iff inv.micro_service_name p.destination)

-- In maps that hold each key once, an invocation falls under a policy exactly when it goes to the
-- policy's destination, each tag of the policy holds for it, and each value of its metadata is the
-- string that the policy has as a tag of that key, the empty string where it has none.
equal_policy_iff :
    (inv : Invocation) (p : Policy)
    → IsMap p.tags
    → IsMap inv.metadata
    → (equal_policy inv p ≡ true) ↔ (
        (inv.micro_service_name ≡ p.destination)
        × ((k v : Text) → lookup k p.tags ≡ some v → TagHolds inv k v)
        × ((k : Text) (o : Object) → lookup k inv.metadata ≡ some o → o ≡ text (tag_of p k)))
unfolding metadata_holds
equal_policy_iff inv p mt mm =
    let Q : Text → Object → Type 0 = λ k o. o ≡ text (tag_of p k) in
    let tags = all_entries_iff (tag_holds inv) (TagHolds inv) (tag_holds_iff inv) p.tags in
    let meta =
      all_entries_iff (metadata_holds p) Q (λ k o. equals_text_iff o (tag_of p k)) inv.metadata in
    (
      λ e.
          let (n, a, b) = (equal_policy_parts inv p).0 e in
          (
            n,
            λ k v. Entries-lookup (TagHolds inv) p.tags k v (tags.0 a),
            λ k o. Entries-lookup Q inv.metadata k o (meta.0 b),
          ),
      λ (n, a, b). (equal_policy_parts inv p).1 (
        n,
        tags.1 (lookup-Entries (TagHolds inv) p.tags mt a),
        meta.1 (lookup-Entries Q inv.metadata mm b),
      ),
    )
