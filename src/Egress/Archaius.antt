-- ===== src/Egress/Archaius.antt =====
-- pkg/egress/archaius/egress.go and egress_manager.go: the rule map in force, and the events that
-- replace it. The configuration, `archaius.Get` and `yaml.Unmarshal` are parameters.
use mesher.Prelude.{List, [], ◌∷◌, ◌++◌, Option, none, some, Bool, true, false, ◌||◌, if◌then◌else◌}
use mesher.Prelude.Text.{Text, codes, has_prefix}
use mesher.Egress.{Rules, EgressRule, validate_egress_rule}

abbrev pub egress_yaml : Text
egress_yaml = codes "egress.yaml"

-- `strings.Contains`
unfoldable pub contains : Text → Text → Bool
contains [] part = has_prefix [] part
contains (c ∷ s) part = has_prefix (c ∷ s) part || contains s part

-- `refresh`: the map in force afterwards, and whether there was no error.
unfoldable pub refresh : Rules → Rules → Rules × Bool
refresh configs dests = if validate_egress_rule configs then (configs, true) else (dests, false)

unfoldable pub set_egress_rule : Rules → Rules → Rules
set_egress_rule rule dests = rule

-- The loop over the destinations of an event: the rules appended, or none where a destination is
-- not valid.
unfoldable pub collect : Rules → List EgressRule → Option (List EgressRule)
unfolding validate_egress_rule
collect [] acc = some acc
collect ((k, value) ∷ m) acc =
    let rest = collect m (acc ++ value) in
    if validate_egress_rule ((k, value) ∷ []) then rest else none

abbrev pub replaced_by : Text → Rules → Option (List EgressRule) → Rules
replaced_by key dests none = dests
replaced_by key dests (some rules) = set_egress_rule ((key, rules) ∷ []) dests

module _ {ℓ} {Value : Type ℓ} (get : Text → Option Value) (unmarshal : Value → Option Rules) where
  abbrev pub decoded : Option Value → Option Rules
  decoded none = none
  decoded (some v) = unmarshal v

  abbrev pub applied : Text → Rules → Option Rules → Rules
  applied key dests none = dests
  applied key dests (some destinations) = replaced_by key dests (collect destinations [])

  -- `Event`; none is a nil event.
  unfoldable pub event : Option Text → Rules → Rules
  unfolding collect set_egress_rule
  event none dests = dests
  event (some key) dests =
      if contains key egress_yaml then applied key dests (decoded (get key)) else dests
