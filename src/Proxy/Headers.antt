-- ===== src/Proxy/Headers.antt =====
-- Copying the header of a response into that of a writer.
use mesher.Prelude.{
  ◌≡◌, refl, sym, ap, ◌∙◌, subst, List, [], ◌∷◌, ◌++◌, append-nil, append_assoc, Option, none, Bool,
  true, false, Bool-cases, inl, inr, if◌then◌else◌, if-cases,
}
use mesher.Prelude.Text.{
  Text, lookup, insert, erase, text_eq, text_eq_iff, lookup-insert, lookup-erase,
}
use mesher.Prelude.Maps.{IsMap, Entries}
use mesher.Prelude.Strings.{canonical_header_key}
use mesher.Proxy.{Header, all_values, header_add, add_values, copy_header}

-- The values of a key.
abbrev pub values : Text → Header → List Text
values k h = all_values (lookup k h)

-- The keys are canonical.
abbrev pub IsCanonical : Header → Type 0
IsCanonical h = Entries (λ k vs. canonical_header_key k ≡ k) h

values-insert :
    (dst : Header) (k j v : Text)
    → values j (insert k (values k dst ++ (v ∷ [])) dst)
      ≡ values j dst ++ (if text_eq k j then v ∷ [] else [])
values-insert dst k j v = elim (Bool-cases (text_eq k j)) [
  | inl same ↦
      let k=j : k ≡ j = (text_eq_iff k j).0 same in
      ap all_values (lookup-insert k j (values k dst ++ (v ∷ [])) dst)
      ∙ (rw same (ap (λ x. values x dst ++ (v ∷ [])) k=j))
  | inr other ↦
      ap all_values (lookup-insert k j (values k dst ++ (v ∷ [])) dst)
      ∙ (rw other (sym (append-nil (values j dst))))
]

values-add :
    (dst : Header) (k j v : Text)
    → canonical_header_key k ≡ k
    → values j (header_add dst k v) ≡ values j dst ++ (if text_eq k j then v ∷ [] else [])
unfolding header_add
values-add dst k j v c =
    subst
      (λ x.
        values j (insert x (values x dst ++ (v ∷ [])) dst)
        ≡ values j dst ++ (if text_eq k j then v ∷ [] else []))
      (sym c) (values-insert dst k j v)

if-append :
    (b : Bool) (v : Text) (vs : List Text)
    → (if b then v ∷ [] else []) ++ (if b then vs else []) ≡ (if b then v ∷ vs else [])
if-append true v vs = refl
if-append false v vs = refl

if-nil : (b : Bool) → ◌≡◌ {A = List Text} [] (if b then [] else [])
if-nil true = refl
if-nil false = refl

if-none : (b : Bool) → ◌≡◌ {A = Option (List Text)} (if b then none else none) none
if-none true = refl
if-none false = refl

values-add_values :
    (dst : Header) (k j : Text) (vs : List Text)
    → canonical_header_key k ≡ k
    → values j (add_values dst k vs) ≡ values j dst ++ (if text_eq k j then vs else [])
values-add_values dst k j [] c =
    sym (append-nil (values j dst)) ∙ ap (λ x. values j dst ++ x) (if-nil (text_eq k j))
values-add_values dst k j (v ∷ vs) c =
    values-add_values (header_add dst k v) k j vs c
    ∙ ap (λ x. x ++ (if text_eq k j then vs else [])) (values-add dst k j v c)
    ∙ append_assoc (values j dst) (if text_eq k j then v ∷ [] else [])
        (if text_eq k j then vs else [])
    ∙ ap (λ x. values j dst ++ x) (if-append (text_eq k j) v vs)

values-cons :
    (k j : Text) (vs : List Text) (src : Header)
    → lookup k src ≡ none
    → (if text_eq k j then vs else []) ++ values j src ≡ values j ((k, vs) ∷ src)
unfolding lookup
values-cons k j vs src free = elim (Bool-cases (text_eq k j)) [
  | inl same ↦
      let j-free : values j src ≡ [] =
        ap all_values (subst (λ x. lookup x src ≡ none) ((text_eq_iff k j).0 same) free) in
      rw (same, j-free) (append-nil vs)
  | inr other ↦ rw other
]

-- After copyHeader each key has the values it had, and behind them those of the copied header.
pub values-copy_header :
    (dst src : Header) (j : Text)
    → IsMap src
    → IsCanonical src
    → values j (copy_header dst src) ≡ values j dst ++ values j src
unfolding copy_header lookup
values-copy_header dst [] j m c = sym (append-nil (values j dst))
values-copy_header dst ((k, vs) ∷ src) j (free, m) (c, cs) =
    values-copy_header (add_values dst k vs) src j m cs
    ∙ ap (λ x. x ++ values j src) (values-add_values dst k j vs c)
    ∙ append_assoc (values j dst) (if text_eq k j then vs else []) (values j src)
    ∙ ap (λ x. values j dst ++ x) (values-cons k j vs src free)

erase-none : (k j : Text) (h : Header) → lookup j h ≡ none → lookup j (erase k h) ≡ none
erase-none k j h e = lookup-erase k j h ∙ (rw e (if-none (text_eq k j)))

pub erase-IsMap : (k : Text) (h : Header) → IsMap h → IsMap (erase k h)
unfolding erase
erase-IsMap k [] m = tt
erase-IsMap k ((j, vs) ∷ h) (free, m) =
    if-cases (λ (x : Header). IsMap x) (text_eq j k) (erase k h) ((j, vs) ∷ erase k h)
      (λ _. erase-IsMap k h m) (λ _. (erase-none k j h free, erase-IsMap k h m))

pub erase-IsCanonical : (k : Text) (h : Header) → IsCanonical h → IsCanonical (erase k h)
unfolding erase
erase-IsCanonical k [] c = tt
erase-IsCanonical k ((j, vs) ∷ h) (c, cs) =
    if-cases (λ (x : Header). IsCanonical x) (text_eq j k) (erase k h) ((j, vs) ∷ erase k h)
      (λ _. erase-IsCanonical k h cs) (λ _. (c, erase-IsCanonical k h cs))
