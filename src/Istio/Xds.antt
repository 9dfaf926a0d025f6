-- ===== src/Istio/Xds.antt =====
-- pkg/infras/istio/xds.go: the client of the pilot's discovery services, with the version and the nonce
-- that it keeps for each of them. A stream is what the connection, which every call opens anew, makes of
-- a request; `proto.Unmarshal` of each kind of resource is a parameter, none for an error.
pub mod Versions
use mesher.Prelude.{ℕ, List, [], ◌∷◌, ◌++◌, Option, none, some, Bool, true, false, if◌then◌else◌}
use mesher.Prelude.Text.{Text, codes, text_eq}
use mesher.Istio.{XdsClusterInfo, parse_cluster_name}
use mesher.Istio.Registry.{LoadAssignment}

pub data XdsType : Type 0 where
  type_cds type_eds type_lds type_rds : XdsType

pub record XdsReqCache : Type 0 where
  pub nonce : Text
  pub version_info : Text

pub record NodeInfo : Type 0 where
  pub pod_name : Text
  pub namespace : Text
  pub instance_ip : Text

-- The map of caches has all four types; whether there is a TLS configuration is left to the stream.
pub record XdsClient : Type 0 where
  pub pilot_addr : Text
  pub node_id : Text
  pub node_cluster : Text
  pub req_caches : XdsType → XdsReqCache

abbrev pub empty_cache : XdsReqCache
empty_cache = record { nonce = []; version_info = [] }

abbrev sidecar_id : NodeInfo → Text
sidecar_id n =
    codes "sidecar~" ++ (n.instance_ip ++ (codes "~" ++ (n.pod_name ++ (codes "~" ++ n.namespace))))

-- `NewXdsClient`, and whether the client of Kubernetes could be created
unfoldable pub new_xds_client : Text → NodeInfo → Bool → Option XdsClient
new_xds_client addr node k8s =
    if k8s
    then some (record {
      pilot_addr = addr;
      node_id = sidecar_id node;
      node_cluster = node.pod_name;
      req_caches = λ t. empty_cache;
    })
    else none

abbrev pub same_type : XdsType → XdsType → Bool
same_type type_cds type_cds = true
same_type type_eds type_eds = true
same_type type_lds type_lds = true
same_type type_rds type_rds = true
same_type t u = false

abbrev pub updated : XdsType → XdsReqCache → (XdsType → XdsReqCache) → XdsType → XdsReqCache
updated t c caches u = if same_type t u then c else caches u

abbrev pub get_version_info : XdsClient → XdsType → Text
get_version_info client t = (client.req_caches t).version_info

abbrev pub get_nonce : XdsClient → XdsType → Text
get_nonce client t = (client.req_caches t).nonce

unfoldable pub set_version_info : XdsClient → XdsType → Text → XdsClient
set_version_info client t version = record client {
  req_caches =
      updated t (record (client.req_caches t) { version_info = version }) client.req_caches;
}

unfoldable pub set_nonce : XdsClient → XdsType → Text → XdsClient
set_nonce client t nonce = record client {
  req_caches = updated t (record (client.req_caches t) { nonce = nonce }) client.req_caches;
}

pub record DiscoveryRequest : Type 0 where
  pub type_url : Text
  pub version_info : Text
  pub response_nonce : Text
  pub node_id : Text
  pub node_cluster : Text
  pub resource_names : List Text

-- A response, whose resources are bytes.
pub record DiscoveryResponse : Type 0 where
  pub version_info : Text
  pub nonce : Text
  pub resources : List Text

abbrev pub type_url : XdsType → Text
type_url type_cds = codes "type.googleapis.com/envoy.api.v2.Cluster"
type_url type_eds = codes "type.googleapis.com/envoy.api.v2.ClusterLoadAssignment"
type_url type_lds = codes "type.googleapis.com/envoy.api.v2.Listener"
type_url type_rds = codes "type.googleapis.com/envoy.api.v2.RouteConfiguration"

abbrev pub discovery_request : XdsClient → XdsType → List Text → DiscoveryRequest
discovery_request client t names = record {
  type_url = type_url t;
  version_info = get_version_info client t;
  response_nonce = get_nonce client t;
  node_id = client.node_id;
  node_cluster = client.node_cluster;
  resource_names = names;
}

-- Whether the stream could be opened, whether the request could be sent, and what was received.
pub record Stream : Type 0 where
  pub opened : Bool
  pub send : DiscoveryRequest → Bool
  pub recv : DiscoveryRequest → Option DiscoveryResponse

-- The part that the four calls share: the requests that were sent, the resources of the response, and
-- the client afterwards.
pub record Exchange : Type 0 where
  pub sent : List DiscoveryRequest
  pub resources : Option (List Text)
  pub client : XdsClient

abbrev pub failed : List DiscoveryRequest → XdsClient → Exchange
failed sent client = record { sent = sent; resources = none; client = client }

abbrev pub received : XdsType → DiscoveryRequest → XdsClient → Option DiscoveryResponse → Exchange
received t req client none = failed (req ∷ []) client
received t req client (some resp) = record {
  sent = req ∷ [];
  resources = some resp.resources;
  client = set_version_info (set_nonce client t resp.nonce) t resp.version_info;
}

unfoldable pub exchange : Stream → XdsType → List Text → XdsClient → Exchange
unfolding set_nonce set_version_info
exchange s t names client =
    let req = discovery_request client t names in
    if s.opened
    then (if s.send req then received t req client (s.recv req) else failed [] client)
    else failed [] client

pub record Cluster : Type 0 where
  pub name : Text
  pub kind : ℕ

-- A host of a route configuration, with the cluster of each of its routes.
pub record VirtualHost : Type 0 where
  pub name : Text
  pub routes : List Text

-- The resources that can be decoded; the others are logged.
unfoldable pub decodable : {A : Type 0} → (Text → Option A) → List Text → List A
decodable unmarshal [] = []
decodable unmarshal (res ∷ resources) =
    let rest = decodable unmarshal resources in
    elim (unmarshal res) [ none ↦ rest | some a ↦ a ∷ rest ]

abbrev decoded : {A : Type 0} → (Text → Option A) → Option (List Text) → Option (List A)
decoded unmarshal none = none
decoded unmarshal (some resources) = some (decodable unmarshal resources)

-- What a call makes of its exchange: the requests that were sent, its result, none for an error, and the
-- client afterwards.
pub record Called (A : Type 0) : Type 0 where
  pub sent : List DiscoveryRequest
  pub result : Option A
  pub client : XdsClient

abbrev called : {A : Type 0} → Exchange → (Option (List Text) → Option A) → Called A
called e f = record { sent = e.sent; result = f e.resources; client = e.client }

abbrev no_assignment : LoadAssignment
no_assignment = record { cluster_name = []; endpoints = [] }

-- The loop of EDS: it ends at the first resource that can be decoded, and the error of one before it is
-- returned with it.
unfoldable pub load_assignment :
    (Text → Option LoadAssignment) → Bool → List Text → Option LoadAssignment
load_assignment unmarshal error [] = if error then none else some no_assignment
load_assignment unmarshal error (res ∷ resources) =
    let rest = load_assignment unmarshal true resources in
    elim (unmarshal res) [ none ↦ rest | some a ↦ if error then none else some a ]

abbrev assigned : (Text → Option LoadAssignment) → Option (List Text) → Option LoadAssignment
assigned unmarshal none = none
assigned unmarshal (some resources) = load_assignment unmarshal false resources

unfoldable pub cds : (Text → Option Cluster) → Stream → XdsClient → Called (List Cluster)
unfolding exchange decodable
cds unmarshal s client = called (exchange s type_cds [] client) (decoded unmarshal)

unfoldable pub eds :
    (Text → Option LoadAssignment) → Stream → Text → XdsClient → Called LoadAssignment
unfolding exchange load_assignment
eds unmarshal s name client = called (exchange s type_eds (name ∷ []) client) (assigned unmarshal)

-- A listener is what its bytes decode to.
unfoldable pub lds :
    {Listener : Type 0} → (Text → Option Listener) → Stream → XdsClient → Called (List Listener)
unfolding exchange decodable
lds unmarshal s client = called (exchange s type_lds [] client) (decoded unmarshal)

-- The hosts of a service and a port.
unfoldable pub hosts_of : Text → List VirtualHost → List VirtualHost
hosts_of name [] = []
hosts_of name (host ∷ hosts) =
    let rest = hosts_of name hosts in if text_eq host.name name then host ∷ rest else rest

unfoldable pub virtual_hosts : Text → List (List VirtualHost) → List VirtualHost
unfolding hosts_of
virtual_hosts name [] = []
virtual_hosts name (route ∷ routes) = hosts_of name route ++ virtual_hosts name routes

abbrev matching :
    (Text → Option (List VirtualHost))
    → XdsClusterInfo
    → Option (List Text)
    → Option (List VirtualHost)
matching unmarshal info none = none
matching unmarshal info (some resources) =
    some (
      virtual_hosts (info.service_name ++ (codes ":" ++ info.port)) (decodable unmarshal resources))

abbrev pub rds_of :
    (Text → Option (List VirtualHost))
    → Stream
    → Text
    → XdsClient
    → Option XdsClusterInfo
    → Called (List VirtualHost)
rds_of unmarshal s name client none = record { sent = []; result = none; client = client }
rds_of unmarshal s name client (some info) =
    called (exchange s type_rds (name ∷ []) client) (matching unmarshal info)

unfoldable pub rds :
    (Text → Option (List VirtualHost)) → Stream → Text → XdsClient → Called (List VirtualHost)
unfolding exchange decodable virtual_hosts parse_cluster_name
rds unmarshal s name client = rds_of unmarshal s name client (parse_cluster_name name)

unfoldable pub routed : List VirtualHost → List Text
routed [] = []
routed (h ∷ hosts) = h.routes ++ routed hosts

abbrev routes_of : Option (List VirtualHost) → Option (List Text)
routes_of none = none
routes_of (some hosts) = some (routed hosts)

-- `getRouterClusters`
unfoldable pub get_router_clusters :
    (Text → Option (List VirtualHost)) → Stream → Text → XdsClient → Called (List Text)
unfolding rds routed
get_router_clusters unmarshal s name client =
    let c = rds unmarshal s name client in
    record { sent = c.sent; result = routes_of c.result; client = c.client }
