-- ===== src/Egress/Pilot/Withdrawn.antt =====
-- When the pilot's source takes all egress rules back.
use mesher.Prelude.{List, [], ◌∷◌, ◌++◌, Option, none, some, Bool, true, false, ◌≡◌, refl}
use mesher.Prelude.Int.{ℤ}
use mesher.Prelude.Text.{Text, text_eq, lookup, insert}
use mesher.Prelude.Split.{split}
use mesher.Health.{atoi}
use mesher.Istio.{bar}
use mesher.Istio.Xds.{Cluster}
use mesher.Prelude.Go.{ret}
use mesher.Egress.{EgressRule, EgressConfig, to_configs, validate_egress_rule}
use mesher.Egress.Pilot.{
  outbound, cluster_original_dst, pilot_key, skipped, bad_port, found, with_port, last_of, rule_of,
  collected, get_egress_config_from_pilot, PilotSource, update, construct_event, populate_events,
  changes, deletions, refresh_configurations, lists_equal, save_to_egress_cache, Value, rules,
  event, tick, dynamic_config_round,
}

-- CDS failed, or a cluster of the original destination is outbound and its port is not a number.
pub data NoRules : Option (List Cluster) → Type 0 where
  cds_failed : NoRules none
  not_a_port :
      (before after : List Cluster) (c : Cluster) (port : Text) (rest : List Text)
      → c.kind ≡ cluster_original_dst
      → split bar c.name ≡ outbound ∷ port ∷ rest
      → (atoi port).1 ≡ false
      → NoRules (some (before ++ c ∷ after))

with_port-bad : (host : Text) (a : ℤ × Bool) → a.1 ≡ false → with_port host a ≡ bad_port
with_port-bad host (z, true) e = cc
with_port-bad host (z, false) e = refl

rule_of-bad_port :
    (c : Cluster) (port : Text) (rest : List Text)
    → c.kind ≡ cluster_original_dst
    → split bar c.name ≡ outbound ∷ port ∷ rest
    → (atoi port).1 ≡ false
    → rule_of c ≡ bad_port
unfolding rule_of text_eq
rule_of-bad_port c port rest k s b = rw (k, s) (with_port-bad (last_of port rest) (atoi port) b)

collected-bad_port :
    (before after : List Cluster) (c : Cluster)
    → rule_of c ≡ bad_port
    → collected (before ++ c ∷ after) ≡ none
unfolding collected
collected-bad_port [] after c b = rw (collected, b) refl
collected-bad_port (d ∷ before) after c b =
    let ih = collected-bad_port before after c b in
    elim (rule_of d)
      as (λ f.
        (elim f as (λ x. Option (List EgressRule)) [
          | skipped ↦ collected (before ++ c ∷ after)
          | bad_port ↦ none
          | found r ↦ elim (collected (before ++ c ∷ after)) [
            | none ↦ none
            | some rs ↦ some (r ∷ rs)
          ]
        ])
        ≡ none) [ skipped ↦ ih | bad_port ↦ refl | found r ↦ rw ih refl ]

NoRules-rules :
    (clusters : Option (List Cluster))
    → NoRules clusters
    → get_egress_config_from_pilot clusters ≡ []
unfolding get_egress_config_from_pilot
NoRules-rules clusters cds_failed = unfold collected in refl
NoRules-rules clusters (not_a_port before after c port rest k s b) =
    rw (collected-bad_port before after c (rule_of-bad_port c port rest k s b)) refl

module _ (clusters : Option (List Cluster)) (fails : NoRules clusters) (r : PilotSource)
    (w : EgressRule) (ws : List EgressRule)
    (in_force : r.configurations ≡ (pilot_key, w ∷ ws) ∷ []) where
  -- If CDS fails, or one outbound cluster of the original destination has a port that is not a number,
  -- then a tick of a source that has rules gives one event, that they are replaced by none, and the source
  -- has none then; and if the manager has the value of the event, the listener empties the cache of the
  -- control panel, whatever it held.
  pub tick-withdraws :
      (get : Text → Option Value) (cache : Option (List EgressConfig))
      → get pilot_key ≡ some (rules [])
      → let withdrawn = construct_event update pilot_key [] in
        (dynamic_config_round clusters tick (r, cache)
          ≡ ret (record r { configurations = (pilot_key, []) ∷ [] }, cache, withdrawn ∷ []))
        × (event get (some withdrawn) cache ≡ ret (some []))
  unfolding dynamic_config_round refresh_configurations populate_events changes deletions lookup
      insert text_eq lists_equal event validate_egress_rule save_to_egress_cache to_configs
  tick-withdraws get cache g = (rw (NoRules-rules clusters fails, in_force) refl, rw g refl)
