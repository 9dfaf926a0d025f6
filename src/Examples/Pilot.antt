-- ===== src/Examples/Pilot.antt =====
-- The theorems on the client of the pilot, and on the egress rules that come from it, at concrete values.
use mesher.Prelude.{List, [], ◌∷◌, Option, none, some, true, ◌≡◌, refl}
use mesher.Prelude.Text.{Text, codes, text_eq, lookup}
use mesher.Prelude.Maps.{IsMap}
use mesher.Prelude.Split.{split}
use mesher.Health.{atoi, parse_uint, digits}
use mesher.Istio.Registry.{LoadAssignment}
use mesher.Istio.Xds.{XdsClient, empty_cache, Stream, Cluster, new_xds_client, cds, eds}
use mesher.Istio.Xds.Versions.{
  Entry, entries, IsAcknowledging, Run, new, cds_called, eds_called, Run-IsAcknowledging,
}
use mesher.Prelude.Go.{ret}
use mesher.Egress.{EgressRule, Rules}
use mesher.Egress.Pilot.{
  PilotSource, pilot_key, update, construct_event, Value, rules, tick, event, dynamic_config_round,
  populate_events,
}
use mesher.Egress.Pilot.Events.{apply_events, populate_events-updates}
use mesher.Egress.Pilot.Withdrawn.{NoRules, not_a_port, tick-withdraws}

abbrev client : XdsClient
client = record {
  pilot_addr = codes "istio-pilot:15010";
  node_id = codes "sidecar~10.0.0.1~p~n";
  node_cluster = codes "p";
  req_caches = λ t. empty_cache;
}

client-new :
    new_xds_client
      (codes "istio-pilot:15010")
      (record { pod_name = codes "p"; namespace = codes "n"; instance_ip = codes "10.0.0.1" })
      true
    ≡ some client
unfolding new_xds_client
client-new = refl

abbrev no_cluster : Text → Option Cluster
no_cluster res = none

abbrev no_assignment : Text → Option LoadAssignment
no_assignment res = none

-- A stream that answers with a version and a nonce.
abbrev stream : Stream
stream = record {
  opened = true;
  send = λ req. true;
  recv = λ req. some (record { version_info = codes "7"; nonce = codes "a"; resources = [] });
}

-- CDS, EDS and CDS again.
abbrev once : XdsClient × List Entry
once =
    ((cds no_cluster stream client).client, entries stream (cds no_cluster stream client).sent [])

abbrev twice : XdsClient × List Entry
twice =
    let c = eds no_assignment stream (codes "x") once.0 in (c.client, entries stream c.sent once.1)

abbrev log : List Entry
log = entries stream (cds no_cluster stream twice.0).sent twice.1

log-Run : Run (cds no_cluster stream twice.0).client log
log-Run = cds_called no_cluster stream (
    eds_called no_assignment stream (codes "x") (
      cds_called no_cluster stream (
        new (codes "istio-pilot:15010")
          (record { pod_name = codes "p"; namespace = codes "n"; instance_ip = codes "10.0.0.1" })
          client client-new)))

Run-IsAcknowledging_example : IsAcknowledging log
Run-IsAcknowledging_example = Run-IsAcknowledging log-Run

abbrev rule : EgressRule
rule = record {
  hosts = codes "a.com" ∷ [];
  ports = some (record { port = 80; protocol = codes "http" }) ∷ [];
}

abbrev source : PilotSource
source = record { configurations = (pilot_key, rule ∷ []) ∷ []; port_to_service = [] }

-- A port that has a name.
abbrev named_port : Cluster
named_port = record { name = codes "outbound|http||a.com"; kind = 4 }

named_port-NoRules : NoRules (some (named_port ∷ []))
unfolding split atoi parse_uint digits
named_port-NoRules =
    not_a_port [] [] named_port (codes "http") ([] ∷ codes "a.com" ∷ []) refl refl refl

abbrev no_values : Text → Option Value
no_values key = some (rules [])

tick-withdraws_example :
    let withdrawn = construct_event update pilot_key [] in
    (dynamic_config_round (some (named_port ∷ [])) tick (source, none)
      ≡ ret (record source { configurations = (pilot_key, []) ∷ [] }, none, withdrawn ∷ []))
    × (event no_values (some withdrawn) none ≡ ret (some []))
tick-withdraws_example =
    tick-withdraws (some (named_port ∷ [])) named_port-NoRules source rule [] refl no_values none
      refl

abbrev two_updates : Rules
two_updates = (pilot_key, rule ∷ []) ∷ (codes "b", []) ∷ []

two_updates-IsMap : IsMap two_updates
unfolding lookup text_eq
two_updates-IsMap = (refl, (refl, tt))

populate_events-updates_example :
    (lookup pilot_key (apply_events (populate_events two_updates source).0 source.configurations)
      ≡ lookup pilot_key two_updates)
    × (lookup pilot_key (populate_events two_updates source).1.configurations
        ≡ lookup pilot_key two_updates)
populate_events-updates_example =
    populate_events-updates two_updates source two_updates-IsMap pilot_key
