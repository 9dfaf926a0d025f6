-- ===== src/Egress/Store.antt =====
-- The rule maps that loading and events can put in force.
use mesher.Prelude.{
  if-cases, inl, inr, ◌≡◌, refl, sym, ap, ◌∙◌, List, [], ◌∷◌, ◌++◌, append-nil, append_assoc,
  Option, none, some, Bool, true, false, arith, Bool-cases,
}
use mesher.Prelude.Text.{Text}
use mesher.Egress.{EgressRule, Rules, validate_egress_rule, flatten, match_host}
use mesher.Egress.Matching.{Matched, match_host_lem, validate-flatten}
use mesher.Egress.Archaius.{
  egress_yaml, contains, refresh, set_egress_rule, collect, replaced_by, decoded, applied, event,
}

collect-valid :
    (d : Rules) (acc : List EgressRule)
    → validate_egress_rule d ≡ true
    → collect d acc ≡ some (acc ++ flatten d)
unfolding collect validate_egress_rule flatten
collect-valid [] acc v = ap some (sym (append-nil acc))
collect-valid ((k, rs) ∷ m) acc v =
    let ih = collect-valid m (acc ++ rs) (ground arith) in
    ground (arith, ih, append_assoc acc rs (flatten m))

collect-invalid :
    (d : Rules) (acc : List EgressRule) → validate_egress_rule d ≡ false → collect d acc ≡ none
unfolding collect validate_egress_rule
collect-invalid [] acc v = cc
collect-invalid ((k, rs) ∷ m) acc v = ground (arith, collect-invalid m (acc ++ rs))

module _ {ℓ} {Value : Type ℓ} (get : Text → Option Value) (unmarshal : Value → Option Rules) where
  -- The steps that the package itself takes: loading a configuration, and an event.
  pub data Reachable : Rules → Type ℓ where
    initial : Reachable []
    refreshed : (configs dests : Rules) → Reachable dests → Reachable (refresh configs dests).0
    on_event :
        (e : Option Text) (dests : Rules)
        → Reachable dests
        → Reachable (event get unmarshal e dests)

  one_key-valid :
      (key : Text) (d : Rules)
      → validate_egress_rule d ≡ true
      → validate_egress_rule ((key, flatten d) ∷ []) ≡ true
  unfolding validate_egress_rule
  one_key-valid key d v = ground (arith, validate-flatten d v)

  applied-keeps :
      (key : Text) (dests : Rules) (d : Option Rules)
      → validate_egress_rule dests ≡ true
      → validate_egress_rule (applied get unmarshal key dests d) ≡ true
  applied-keeps key dests none v = v
  applied-keeps key dests (some d) v = elim (Bool-cases (validate_egress_rule d)) [
    | inl ok ↦
        ap (λ o. validate_egress_rule (replaced_by key dests o)) (collect-valid d [] ok)
        ∙ (unfold set_egress_rule in one_key-valid key d ok)
    | inr bad ↦
        ap (λ o. validate_egress_rule (replaced_by key dests o)) (collect-invalid d [] bad) ∙ v
  ]

  event-keeps :
      (e : Option Text) (dests : Rules)
      → validate_egress_rule dests ≡ true
      → validate_egress_rule (event get unmarshal e dests) ≡ true
  unfolding event
  event-keeps none dests v = v
  event-keeps (some key) dests v =
      if-cases (λ m. validate_egress_rule m ≡ true) (contains key egress_yaml)
        (applied get unmarshal key dests (decoded get unmarshal (get key))) dests
        (λ _. applied-keeps key dests (decoded get unmarshal (get key)) v) (λ _. v)

  refresh-keeps :
      (configs dests : Rules)
      → validate_egress_rule dests ≡ true
      → validate_egress_rule (refresh configs dests).0 ≡ true
  unfolding refresh
  refresh-keeps configs dests v = ground arith

  Reachable-valid : {m : Rules} → Reachable m → validate_egress_rule m ≡ true
  Reachable-valid initial = unfold validate_egress_rule in refl
  Reachable-valid (refreshed configs dests r) = refresh-keeps configs dests (Reachable-valid r)
  Reachable-valid (on_event e dests r) = event-keeps e dests (Reachable-valid r)

  -- On every rule map that loading configurations and events put in force, `Match` without a control
  -- panel panics only if a rule has a nil port, which the validation lets through. Else it returns the
  -- first rule with a host that matches, with its hosts and its ports, or none.
  pub match_host-Reachable :
      (match_string : Text → Text → Bool) {m : Rules} (hostname : Text)
      → Reachable m
      → Matched match_string hostname (flatten m) (match_host match_string none m hostname)
  match_host-Reachable match_string {m} hostname r =
      match_host_lem match_string m hostname (Reachable-valid r)
