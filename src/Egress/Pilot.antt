-- ===== src/Egress/Pilot.antt =====
-- pkg/egress/pilot/pilotsource.go and egress.go, control/istio/egress.go: the egress rules that come
-- from the clusters of the pilot, the events about them, and the cache of the control panel. What CDS
-- answers, the configuration manager of go-archaius and the ticker are parameters. A port is the bit
-- pattern of its int32; a nil list of rules is an empty one, as every list of rules here is made.
pub mod Events
pub mod Withdrawn
use mesher.Prelude.{
  ℕ, zero, suc, ◌+◌, ◌-◌, ◌%◌, ◌^◌, List, [], ◌∷◌, ◌++◌, Option, none, some, Bool, true, false,
  ◌&&◌, length, ltb, ◌==◌, if◌then◌else◌,
}
use mesher.Prelude.Int.{ℤ, pos, negsuc}
use mesher.Prelude.Text.{Text, Table, codes, text_eq, lookup, insert}
use mesher.Prelude.Split.{split}
use mesher.Health.{atoi}
use mesher.Istio.{bar}
use mesher.Istio.Xds.{Cluster}
use mesher.Prelude.Go.{Go, ret, ◌>>=◌}
use mesher.Egress.{EgressPort, EgressRule, EgressConfig, to_configs, validate_egress_rule}

abbrev pub egress_pilot_source_name : Text
egress_pilot_source_name = codes "EgressPilotSource"

abbrev pub outbound : Text
outbound = codes "outbound"

abbrev pub cluster_original_dst : ℕ
cluster_original_dst = 4

abbrev pub pilot_key : Text
pilot_key = codes "pilotEgress"

-- `int32(n)`
abbrev pub int32_of : ℤ → ℕ
int32_of (pos n) = n % 2 ^ 32
int32_of (negsuc n) = 2 ^ 32 - 1 - n % 2 ^ 32

-- What the loop makes of a cluster.
pub data Found : Type 0 where
  skipped : Found
  bad_port : Found
  found : EgressRule → Found

abbrev pub rule_for : Text → ℤ → EgressRule
rule_for host port = record {
  hosts = host ∷ [];
  ports = some (record { port = int32_of port; protocol = codes "http" }) ∷ [];
}

abbrev pub with_port : Text → ℤ × Bool → Found
with_port host (port, true) = found (rule_for host port)
with_port host (port, false) = bad_port

abbrev pub last_of : Text → List Text → Text
last_of s [] = s
last_of s (t ∷ ts) = last_of t ts

-- The parts of a name: at least two, the direction and the port, and the host in the last place.
abbrev pub of_parts : List Text → Found
of_parts (d ∷ p ∷ rest) =
    if text_eq d outbound then with_port (last_of p rest) (atoi p) else skipped
of_parts parts = skipped

unfoldable pub rule_of : Cluster → Found
unfolding split atoi
rule_of c = if c.kind == cluster_original_dst then of_parts (split bar c.name) else skipped

-- none is the early return with nil.
unfoldable pub collected : List Cluster → Option (List EgressRule)
unfolding rule_of
collected [] = some []
collected (c ∷ clusters) =
    let rest = collected clusters in
    elim (rule_of c) [
      | skipped ↦ rest
      | bad_port ↦ none
      | found r ↦ elim rest [ none ↦ none | some rules ↦ some (r ∷ rules) ]
    ]

abbrev or_nil : {A : Type 0} → Option (List A) → List A
or_nil none = []
or_nil (some l) = l

-- `getEgressConfigFromPilot` on the answer of CDS, whose error is dropped: it never reports one.
unfoldable pub get_egress_config_from_pilot : Option (List Cluster) → List EgressRule
unfolding collected
get_egress_config_from_pilot clusters = or_nil (collected (or_nil clusters))

pub record PilotSource : Type 0 where
  pub configurations : Table (List EgressRule)
  pub port_to_service : Table Text

abbrev pub new_pilot_source : PilotSource
new_pilot_source = record { configurations = []; port_to_service = [] }

-- `GetConfigurations`
unfoldable pub get_configurations :
    Option (List Cluster) → PilotSource → Table (List EgressRule) × PilotSource
unfolding get_egress_config_from_pilot
get_configurations clusters r =
    let d : Table (List EgressRule) = (pilot_key, get_egress_config_from_pilot clusters) ∷ [] in
    (d, record r { configurations = d })

unfoldable pub get_configuration_by_key : Text → PilotSource → Option (List EgressRule)
get_configuration_by_key k r = lookup k r.configurations

unfoldable pub set_port_for_destination : Text → Text → PilotSource → PilotSource
set_port_for_destination service port r = record r {
  port_to_service = insert port service r.port_to_service;
}

unfoldable pub refresh_configurations : Option (List Cluster) → Table (List EgressRule)
unfolding get_egress_config_from_pilot
refresh_configurations clusters = (pilot_key, get_egress_config_from_pilot clusters) ∷ []

pub data EventType : Type 0 where
  create update delete : EventType

pub record Event : Type 0 where
  pub event_type : EventType
  pub event_source : Text
  pub key : Text
  pub value : List EgressRule

abbrev pub construct_event : EventType → Text → List EgressRule → Event
construct_event t k v = record {
  event_type = t;
  event_source = egress_pilot_source_name;
  key = k;
  value = v;
}

-- `reflect.DeepEqual` on lists of pointers to rules
unfoldable pub lists_equal : {A : Type 0} → (A → A → Bool) → List A → List A → Bool
lists_equal eq [] [] = true
lists_equal eq [] (b ∷ bs) = false
lists_equal eq (a ∷ as_) [] = false
lists_equal eq (a ∷ as_) (b ∷ bs) = eq a b && lists_equal eq as_ bs

unfoldable pub ports_equal : EgressPort → EgressPort → Bool
unfolding text_eq
ports_equal p q = p.port == q.port && text_eq p.protocol q.protocol

-- Nil, or pointers to ports that are equal.
abbrev pub pointers_equal : Option EgressPort → Option EgressPort → Bool
pointers_equal none none = true
pointers_equal (some p) (some q) = ports_equal p q
pointers_equal p q = false

unfoldable pub rules_equal : EgressRule → EgressRule → Bool
unfolding lists_equal ports_equal text_eq
rules_equal r q = lists_equal text_eq r.hosts q.hosts && lists_equal pointers_equal r.ports q.ports

abbrev pub deep_equal : List EgressRule → List EgressRule → Bool
deep_equal vs ws = lists_equal rules_equal vs ws

abbrev pub changed : Text → List EgressRule → Option (List EgressRule) → List Event
changed k v none = construct_event create k v ∷ []
changed k v (some w) = if deep_equal w v then [] else construct_event update k v ∷ []

-- The first loop, over the updates.
unfoldable pub changes : Table (List EgressRule) → Table (List EgressRule) → List Event
unfolding rules_equal
changes current [] = []
changes current ((k, v) ∷ updates) = changed k v (lookup k current) ++ changes current updates

abbrev pub copied : Table (List EgressRule) → Table (List EgressRule) → Table (List EgressRule)
copied [] new = new
copied ((k, v) ∷ updates) new = copied updates (insert k v new)

abbrev pub gone : Text → List EgressRule → Option (List EgressRule) → List Event
gone k v none = construct_event delete k v ∷ []
gone k v (some w) = []

-- The second loop, over the configurations in force.
unfoldable pub deletions : Table (List EgressRule) → Table (List EgressRule) → List Event
deletions new [] = []
deletions new ((k, v) ∷ current) = gone k v (lookup k new) ++ deletions new current

-- `populateEvents`: it reports no error.
unfoldable pub populate_events : Table (List EgressRule) → PilotSource → List Event × PilotSource
unfolding changes deletions
populate_events updates r =
    let new = copied updates [] in
    (
      changes r.configurations updates ++ deletions new r.configurations,
      record r { configurations = new },
    )

-- `SaveToEgressCache`: what the cache holds under the empty key then. A nil port panics.
unfoldable pub save_to_egress_cache : Table (List EgressRule) → Go (List EgressConfig)
unfolding to_configs
save_to_egress_cache [] = ret []
save_to_egress_cache ((k, rules) ∷ m) = do
  cs ← to_configs rules
  more ← save_to_egress_cache m
  ret (cs ++ more)

-- A value of the configuration manager: rules, or of another type.
pub data Value : Type 0 where
  rules : List EgressRule → Value
  other_value : Value

abbrev stored : Go (List EgressConfig) → Go (Option (List EgressConfig))
stored g = g >>= λ cs. ret (some cs)

abbrev saved : Text → Option Value → Option (List EgressConfig) → Go (Option (List EgressConfig))
saved key none cache = stored (save_to_egress_cache [])
saved key (some other_value) cache = ret cache
saved key (some (rules v)) cache =
    if validate_egress_rule ((key, v) ∷ [])
    then stored (save_to_egress_cache ((key, v) ∷ []))
    else ret cache

-- `pilotEventListener.Event`, with the manager's values by key
unfoldable pub event :
    (Text → Option Value)
    → Option Event
    → Option (List EgressConfig)
    → Go (Option (List EgressConfig))
unfolding save_to_egress_cache validate_egress_rule
event get none cache = ret cache
event get (some e) cache = saved e.key (get e.key) cache

-- `refresh` of egress.go: the rules in force, and whether no value had another type.
abbrev typed_rules : Table Value → Option (Table (List EgressRule))
typed_rules [] = some []
typed_rules ((k, other_value) ∷ m) = none
typed_rules ((k, rules v) ∷ m) = elim (typed_rules m) [ none ↦ none | some d ↦ some ((k, v) ∷ d) ]

abbrev refreshed :
    Table (List EgressRule) → Option (Table (List EgressRule)) → Table (List EgressRule) × Bool
refreshed dests none = (dests, false)
refreshed dests (some d) = (if validate_egress_rule d then d else dests, true)

unfoldable pub refresh : Table Value → Table (List EgressRule) → Table (List EgressRule) × Bool
unfolding validate_egress_rule
refresh configs dests = refreshed dests (typed_rules configs)

-- `setChanForPilot`: the channel has room for ten keys.
unfoldable pub set_chan_for_pilot : Text → List Text → List Text × Bool
set_chan_for_pilot k keys = if ltb (length keys) 10 then (keys ++ k ∷ [], true) else (keys, false)

pub data Signal : Type 0 where
  key_came : Signal
  tick : Signal

-- One round of DynamicConfigHandler: the source, the cache, and the events for the callback.
unfoldable pub dynamic_config_round :
    Option (List Cluster)
    → Signal
    → PilotSource × Option (List EgressConfig)
    → Go (PilotSource × Option (List EgressConfig) × List Event)
unfolding get_configurations refresh_configurations populate_events save_to_egress_cache
dynamic_config_round clusters key_came (r, cache) =
    let (d, r') = get_configurations clusters r in
    save_to_egress_cache d >>= λ cs. ret (r', some cs, [])
dynamic_config_round clusters tick (r, cache) =
    let (events, r') = populate_events (refresh_configurations clusters) r in
    ret (r', cache, events)
