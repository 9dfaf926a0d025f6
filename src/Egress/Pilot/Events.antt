-- ===== src/Egress/Pilot/Events.antt =====
-- The events of the pilot's source as a difference of two maps.
use mesher.Prelude.{
  List, [], ◌∷◌, ◌++◌, Option, none, some, Bool, true, false, ◌≡◌, refl, sym, ap, ◌∙◌, inl, inr,
  arith, Bool-cases, if◌then◌else◌,
}
use mesher.Prelude.Text.{
  Text, text_eq, text_eq_refl, text_eq_iff, lookup, insert, erase, lookup-insert, lookup-erase,
}
use mesher.Prelude.Maps.{IsMap}
use mesher.Egress.{EgressPort, EgressRule, Rules}
use mesher.Egress.Pilot.{
  PilotSource, EventType, create, update, delete, Event, lists_equal, ports_equal, pointers_equal,
  rules_equal, deep_equal, changed, changes, copied, gone, deletions, populate_events,
}

-- What an event says of a map.
abbrev pub apply_change : EventType → Text → List EgressRule → Rules → Rules
apply_change create k v m = insert k v m
apply_change update k v m = insert k v m
apply_change delete k v m = erase k m

abbrev pub apply_events : List Event → Rules → Rules
apply_events [] m = m
apply_events (e ∷ events) m = apply_events events (apply_change e.event_type e.key e.value m)

apply_events-append :
    (es fs : List Event) (m : Rules)
    → apply_events (es ++ fs) m ≡ apply_events fs (apply_events es m)
apply_events-append [] fs m = refl
apply_events-append (e ∷ es) fs m =
    apply_events-append es fs (apply_change e.event_type e.key e.value m)

lists_equal-eq :
    {A : Type 0} (eq : A → A → Bool)
    → ((a b : A) → eq a b ≡ true → a ≡ b)
    → (as_ bs : List A) → lists_equal eq as_ bs ≡ true
    → as_ ≡ bs
unfolding lists_equal
lists_equal-eq eq sound [] [] h = refl
lists_equal-eq eq sound [] (b ∷ bs) h = cc
lists_equal-eq eq sound (a ∷ as_) [] h = cc
lists_equal-eq eq sound (a ∷ as_) (b ∷ bs) h =
    let head : eq a b ≡ true = ground arith in
    let tail : lists_equal eq as_ bs ≡ true = ground arith in
    ap (λ x. x ∷ as_) (sound a b head) ∙ ap (λ xs. b ∷ xs) (lists_equal-eq eq sound as_ bs tail)

ports_equal-eq : (p q : EgressPort) → ports_equal p q ≡ true → p ≡ q
unfolding ports_equal
ports_equal-eq p q h = ground (arith, text_eq_iff p.protocol q.protocol)

pointers_equal-eq : (p q : Option EgressPort) → pointers_equal p q ≡ true → p ≡ q
pointers_equal-eq none none h = refl
pointers_equal-eq (some p) (some q) h = ap some (ports_equal-eq p q h)
pointers_equal-eq none (some q) h = cc
pointers_equal-eq (some p) none h = cc

rules_equal-eq : (r q : EgressRule) → rules_equal r q ≡ true → r ≡ q
unfolding rules_equal
rules_equal-eq r q h =
    let hosts : r.hosts ≡ q.hosts =
      lists_equal-eq text_eq (λ s t. (text_eq_iff s t).0) r.hosts q.hosts (ground arith) in
    let ports : r.ports ≡ q.ports =
      lists_equal-eq pointers_equal pointers_equal-eq r.ports q.ports (ground arith) in
    cc

deep_equal-eq : (vs ws : List EgressRule) → deep_equal vs ws ≡ true → vs ≡ ws
deep_equal-eq vs ws h = lists_equal-eq rules_equal rules_equal-eq vs ws h

abbrev or_else : {A : Type 0} → Option A → Option A → Option A
or_else none o = o
or_else (some a) o = some a

or_else-none : {A : Type 0} (o : Option A) → or_else o none ≡ o
or_else-none none = refl
or_else-none (some a) = refl

lookup-kept :
    (k j : Text) (v : List EgressRule) (m : Rules)
    → lookup k m ≡ some v
    → lookup j m ≡ (if text_eq k j then some v else lookup j m)
lookup-kept k j v m h = ground (arith, text_eq_iff k j)

-- What the events for one update leave.
changed-lookup :
    (k j : Text) (v : List EgressRule) (m : Rules) (o : Option (List EgressRule))
    → lookup k m ≡ o
    → lookup j (apply_events (changed k v o) m) ≡ (if text_eq k j then some v else lookup j m)
changed-lookup k j v m none h = lookup-insert k j v m
changed-lookup k j v m (some w) h = elim (Bool-cases (deep_equal w v)) [
  | inl same ↦ rw same (lookup-kept k j v m (h ∙ ap some (deep_equal-eq w v same)))
  | inr other ↦ rw other (lookup-insert k j v m)
]

other_key :
    (k i : Text) (w : List EgressRule) (us : Rules)
    → lookup k us ≡ none
    → lookup i us ≡ some w
    → text_eq k i ≡ false
other_key k i w us n e = ground (arith, text_eq_iff k i)

same_key : (k j : Text) (us : Rules) → lookup k us ≡ none → text_eq k j ≡ true → lookup j us ≡ none
same_key k j us n e = ap (λ i. lookup i us) (sym ((text_eq_iff k j).0 e)) ∙ n

-- An entry in front of a map that does not have its key.
or_else-if :
    (k j : Text) (v : List EgressRule) (us : Rules) (o : Option (List EgressRule))
    → lookup k us ≡ none
    → or_else (lookup j us) (if text_eq k j then some v else o)
      ≡ or_else (if text_eq k j then some v else lookup j us) o
or_else-if k j v us o n = elim (Bool-cases (text_eq k j)) [
  | inl same ↦ rw (same, same_key k j us n same) refl
  | inr other ↦ rw other refl
]

-- The events of the first loop, applied to a map that has the current values of the keys updated.
changes-lookup :
    (j : Text) (cur m us : Rules)
    → IsMap us
    → ((k : Text) (v : List EgressRule) → lookup k us ≡ some v → lookup k m ≡ lookup k cur)
    → lookup j (apply_events (changes cur us) m) ≡ or_else (lookup j us) (lookup j m)
unfolding changes lookup
changes-lookup j cur m [] d h = refl
changes-lookup j cur m ((k, v) ∷ us) d h =
    let o = lookup k cur in
    let m' = apply_events (changed k v o) m in
    let at : lookup k ((k, v) ∷ us) ≡ some v = rw (text_eq_refl k) refl in
    let head = λ (i : Text). changed-lookup k i v m o (h k v at) in
    let tail =
      changes-lookup j cur m' us d.1
        (λ i w e. let other = other_key k i w us d.0 e in head i ∙ rw other (h i w (rw other e))) in
    ap (lookup j) (apply_events-append (changed k v o) (changes cur us) m)
    ∙ tail
    ∙ ap (or_else (lookup j us)) (head j)
    ∙ or_else-if k j v us (lookup j m) d.0

copied-lookup :
    (j : Text) (us m : Rules)
    → IsMap us
    → lookup j (copied us m) ≡ or_else (lookup j us) (lookup j m)
unfolding lookup
copied-lookup j [] m d = refl
copied-lookup j ((k, v) ∷ us) m d =
    copied-lookup j us (insert k v m) d.1
    ∙ ap (or_else (lookup j us)) (lookup-insert k j v m)
    ∙ or_else-if k j v us (lookup j m) d.0

gone-kept :
    (k j : Text) (v w : List EgressRule) (new m : Rules) (o : Option (List EgressRule))
    → lookup k new ≡ o
    → lookup j new ≡ some w
    → lookup j (apply_events (gone k v o) m) ≡ lookup j m
gone-kept k j v w new m none n e = lookup-erase k j m ∙ rw (other_key k j w new n e) refl
gone-kept k j v w new m (some x) n e = refl

gone-none :
    (k j : Text) (v : List EgressRule) (m : Rules) (o : Option (List EgressRule))
    → lookup j m ≡ none
    → lookup j (apply_events (gone k v o) m) ≡ none
gone-none k j v m none n = lookup-erase k j m ∙ ground (arith, n)
gone-none k j v m (some x) n = n

deletions-kept :
    (j : Text) (w : List EgressRule) (new c m : Rules)
    → lookup j new ≡ some w
    → lookup j (apply_events (deletions new c) m) ≡ lookup j m
unfolding deletions
deletions-kept j w new [] m e = refl
deletions-kept j w new ((k, v) ∷ c) m e =
    ap (lookup j) (apply_events-append (gone k v (lookup k new)) (deletions new c) m)
    ∙ deletions-kept j w new c (apply_events (gone k v (lookup k new)) m) e
    ∙ gone-kept k j v w new m (lookup k new) refl e

gone_self :
    (k j : Text) (v : List EgressRule) (new m : Rules)
    → lookup j new ≡ none
    → text_eq k j ≡ true
    → lookup j (apply_events (gone k v (lookup k new)) m) ≡ none
gone_self k j v new m n same =
    let at : lookup k new ≡ none = ap (λ i. lookup i new) ((text_eq_iff k j).0 same) ∙ n in
    ap (λ o. lookup j (apply_events (gone k v o) m)) at ∙ lookup-erase k j m ∙ rw same refl

deletions-none :
    (j : Text) (new c m : Rules)
    → lookup j new ≡ none
    → (lookup j c ≡ none → lookup j m ≡ none)
    → lookup j (apply_events (deletions new c) m) ≡ none
unfolding deletions lookup
deletions-none j new [] m n h = h refl
deletions-none j new ((k, v) ∷ c) m n h =
    let m' = apply_events (gone k v (lookup k new)) m in
    let later : lookup j c ≡ none → lookup j m' ≡ none = λ e. elim (Bool-cases (text_eq k j)) [
      | inl same ↦ gone_self k j v new m n same
      | inr other ↦ gone-none k j v m (lookup k new) (h (rw other e))
    ] in
    ap (lookup j) (apply_events-append (gone k v (lookup k new)) (deletions new c) m)
    ∙ deletions-none j new c m' n later

module _ (updates : Rules) (r : PilotSource) (d : IsMap updates) (j : Text) where
  new-lookup : lookup j (copied updates []) ≡ lookup j updates
  unfolding lookup
  new-lookup = copied-lookup j updates [] d ∙ or_else-none (lookup j updates)

  new_configurations : lookup j (populate_events updates r).1.configurations ≡ lookup j updates
  unfolding populate_events
  new_configurations = new-lookup

  after_changes : Rules
  after_changes = apply_events (changes r.configurations updates) r.configurations

  after_changes-lookup :
      lookup j after_changes ≡ or_else (lookup j updates) (lookup j r.configurations)
  unfolding after_changes
  after_changes-lookup =
      changes-lookup j r.configurations r.configurations updates d (λ k v e. refl)

  after_deletions :
      (o : Option (List EgressRule))
      → lookup j updates ≡ o
      → lookup j (apply_events (deletions (copied updates []) r.configurations) after_changes) ≡ o
  after_deletions none e =
      deletions-none j (copied updates []) r.configurations after_changes (new-lookup ∙ e)
        (λ n. after_changes-lookup ∙ rw e n)
  after_deletions (some w) e =
      deletions-kept j w (copied updates []) r.configurations after_changes (new-lookup ∙ e)
      ∙ after_changes-lookup
      ∙ rw e refl

  -- If no key stands twice in the updates, then the events that populateEvents gives turn the
  -- configurations in force before, at every key, into the updates, and these are in force then.
  pub populate_events-updates :
      (lookup j (apply_events (populate_events updates r).0 r.configurations) ≡ lookup j updates)
      × (lookup j (populate_events updates r).1.configurations ≡ lookup j updates)
  unfolding populate_events after_changes
  populate_events-updates = (
    ap (lookup j) (
          apply_events-append (changes r.configurations updates)
            (deletions (copied updates []) r.configurations) r.configurations)
        ∙ after_deletions (lookup j updates) refl,
    new_configurations,
  )
