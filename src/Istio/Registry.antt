-- ===== src/Istio/Registry.antt =====
-- plugins/registry/istiov2/registry.go, the part of cache.go that reads and fills the cache of
-- instances, and GetEndpointsByTags of pkg/infras/istio/xds.go. The pilot and Kubernetes are parameters,
-- with what they answer to a call; an error is none.
use mesher.Prelude.{
  ℕ, List, [], ◌∷◌, ◌++◌, Option, none, some, Bool, false, ◌&&◌, not, if◌then◌else◌,
}
use mesher.Prelude.Text.{Text, Table, codes, text_eq, is_empty, has_prefix}
use mesher.Prelude.Split.{split}
use mesher.Prelude.Strings.{sprint_d}
use mesher.Schema.Cache.{MicroService}
use mesher.Istio.{
  bar, XdsClusterInfo, parse_cluster_name, MicroServiceInstance, EndpointCache, set_subset,
  delete_subset, get_with_tags, tags_match,
}

-- An address and a port of an endpoint.
pub record SocketAddress : Type 0 where
  pub address : Text
  pub port : ℕ

-- The answer of EDS: a cluster's name and its endpoints.
pub record LoadAssignment : Type 0 where
  pub cluster_name : Text
  pub endpoints : List (List SocketAddress)

pub record Pilot : Type 0 where
  pub cds : Option (List Text)
  pub eds : Text → Option LoadAssignment
  pub get_subset_tags : Text → Text → Text → Option (Table Text)
  pub protocol_rest : Text
  pub default_version : Text
  pub default_app : Text

-- The version and the app are constants of go-chassis.
abbrev pub to_micro_service : Pilot → Text → MicroService
to_micro_service pilot name = record {
  service_id = name;
  service_name = name;
  version = pilot.default_version;
  app_id = pilot.default_app;
}

unfoldable pub to_micro_service_instance :
    Text → Text → SocketAddress → Table Text → MicroServiceInstance
unfolding sprint_d
to_micro_service_instance protocol_rest cluster_name e tags =
    let endpoint = e.address ++ (codes ":" ++ sprint_d e.port) in
    record {
      instance_id = e.address ++ (codes "_" ++ sprint_d e.port);
      host_name = cluster_name;
      endpoints_map = (protocol_rest, endpoint) ∷ [];
      default_endpoint = endpoint;
      default_protocol = protocol_rest;
      metadata = tags;
    }

unfoldable pub to_instances :
    Text → Text → Table Text → List SocketAddress → List MicroServiceInstance
unfolding to_micro_service_instance
to_instances protocol_rest name tags [] = []
to_instances protocol_rest name tags (e ∷ es) =
    to_micro_service_instance protocol_rest name e tags ∷ to_instances protocol_rest name tags es

-- Whether the fourth part of a cluster's name starts with the id and a dot.
abbrev pub names_service : Text → List Text → Bool
names_service id (d ∷ p ∷ s ∷ host ∷ more) = has_prefix host (id ++ codes ".")
names_service id parts = false

-- The name of the first cluster of the service, empty if there is none.
unfoldable pub target_cluster : Text → List Text → Text
unfolding split
target_cluster id [] = []
target_cluster id (name ∷ names) =
    let rest = target_cluster id names in if names_service id (split bar name) then name else rest

abbrev pub flattened : List (List SocketAddress) → List SocketAddress
flattened [] = []
flattened (es ∷ items) = es ++ flattened items

-- The cache after the answer of the pilot: without endpoints the entry of the cluster is deleted.
abbrev subset_name_of : Option XdsClusterInfo → Text
subset_name_of none = []
subset_name_of (some info) = info.subset

unfoldable pub update_instance_index_cache :
    Text → List SocketAddress → Text → Table Text → EndpointCache → EndpointCache
unfolding set_subset delete_subset to_instances parse_cluster_name
update_instance_index_cache protocol_rest [] name tags cache = delete_subset name cache
update_instance_index_cache protocol_rest (e ∷ es) name tags cache =
    set_subset name
      (record {
        subset_name = subset_name_of (parse_cluster_name name);
        tags = tags;
        instances = to_instances protocol_rest name tags (e ∷ es);
      })
      cache

-- Whether the labels of a subset, if they could be read, have the tags.
abbrev pub has_tags : Table Text → Option (Table Text) → Bool
has_tags tags none = false
has_tags tags (some labels) = tags_match labels tags

module _ (pilot : Pilot) where
  abbrev service_of : Text → Option (List Text) → Option (Option MicroService)
  service_of id none = none
  service_of id (some names) = some (some (to_micro_service pilot (target_cluster id names)))

  -- `GetMicroService`: the address of a variable is never nil.
  unfoldable pub get_micro_service : Text → Option (Option MicroService)
  unfolding target_cluster
  get_micro_service id = service_of id pilot.cds

  abbrev instances_of : Option LoadAssignment → Option (List MicroServiceInstance)
  instances_of none = none
  instances_of (some a) =
      some (to_instances pilot.protocol_rest a.cluster_name [] (flattened a.endpoints))

  abbrev of_service : Option (Option MicroService) → Option (List MicroServiceInstance)
  of_service (some (some svc)) = instances_of (pilot.eds svc.service_name)
  of_service r = none

  abbrev all_services : List Text → List MicroService
  all_services [] = []
  all_services (name ∷ names) = to_micro_service pilot name ∷ all_services names

  abbrev services_of : Option (List Text) → Option (List MicroService)
  services_of none = none
  services_of (some names) = some (all_services names)

  unfoldable get_all_micro_services : Option (List MicroService)
  get_all_micro_services = services_of pilot.cds

  -- `GetMicroServiceInstances`
  unfoldable pub get_micro_service_instances : Text → Option (List MicroServiceInstance)
  unfolding get_micro_service to_instances
  get_micro_service_instances provider = of_service (get_micro_service provider)

  abbrev pub subset_matches : Text → Table Text → Option XdsClusterInfo → Bool
  subset_matches service tags none = false
  subset_matches service tags (some info) =
      not (is_empty info.subset)
      && (text_eq info.service_name service
          && has_tags tags (pilot.get_subset_tags info.namespace info.service_name info.subset))

  abbrev pub endpoints_of : Text → Option LoadAssignment → Option (List SocketAddress × Text)
  endpoints_of name none = none
  endpoints_of name (some a) = some (flattened a.endpoints, name)

  -- The first cluster of the service with a subset that has the tags.
  unfoldable pub tagged_endpoints :
      Text → Table Text → List Text → Option (List SocketAddress × Text)
  unfolding parse_cluster_name tags_match
  tagged_endpoints service tags [] = some ([], [])
  tagged_endpoints service tags (name ∷ names) =
      let rest = tagged_endpoints service tags names in
      if subset_matches service tags (parse_cluster_name name)
      then endpoints_of name (pilot.eds name)
      else rest

  abbrev pub endpoints_by_tags :
      Text → Table Text → Option (List Text) → Option (List SocketAddress × Text)
  endpoints_by_tags service tags none = none
  endpoints_by_tags service tags (some names) = tagged_endpoints service tags names

  -- `GetEndpointsByTags`
  unfoldable pub get_endpoints_by_tags : Text → Table Text → Option (List SocketAddress × Text)
  unfolding tagged_endpoints
  get_endpoints_by_tags service tags = endpoints_by_tags service tags pilot.cds

  abbrev pub fetched :
      Text
      → Table Text
      → EndpointCache
      → Option (List SocketAddress × Text)
      → Option (List MicroServiceInstance) × EndpointCache
  fetched service tags cache none = (none, cache)
  fetched service tags cache (some (es, name)) =
      let cache' = update_instance_index_cache pilot.protocol_rest es name tags cache in
      (get_with_tags cache' service tags, cache')

  -- A nil list and an empty one are looked up again.
  abbrev pub cached_or_fetched :
      Text
      → Table Text
      → EndpointCache
      → Option (List MicroServiceInstance)
      → Option (List MicroServiceInstance) × EndpointCache
  cached_or_fetched service tags cache (some (i ∷ is)) = (some (i ∷ is), cache)
  cached_or_fetched service tags cache r =
      fetched service tags cache (get_endpoints_by_tags service tags)

  -- `FindMicroServiceInstances`: the tags are none if their map is nil or their label is empty.
  unfoldable pub find_micro_service_instances :
      Text
      → Option (Table Text)
      → EndpointCache
      → Option (List MicroServiceInstance) × EndpointCache
  unfolding get_endpoints_by_tags update_instance_index_cache get_micro_service_instances
      get_with_tags
  find_micro_service_instances service none cache = (get_micro_service_instances service, cache)
  find_micro_service_instances service (some tags) cache =
      cached_or_fetched service tags cache (get_with_tags cache service tags)

  -- The addresses of a cluster, as getClusterInfos collects them.
  unfoldable pub addresses : List SocketAddress → List Text
  unfolding sprint_d
  addresses [] = []
  addresses (e ∷ es) = (e.address ++ (codes ":" ++ sprint_d e.port)) ∷ addresses es

  abbrev with_tags : XdsClusterInfo → Option (Table Text) → XdsClusterInfo
  with_tags info none = info
  with_tags info (some tags) = record info { tags = tags }

  -- Only a cluster with a subset has labels.
  abbrev pub labelled : XdsClusterInfo → XdsClusterInfo
  labelled info =
      if is_empty info.subset
      then info
      else with_tags info (pilot.get_subset_tags info.namespace info.service_name info.subset)

  abbrev add_info :
      XdsClusterInfo
      → Option LoadAssignment
      → Option (List XdsClusterInfo)
      → Option (List XdsClusterInfo)
  add_info info none later = none
  add_info info (some a) none = none
  add_info info (some a) (some infos) =
      some (record info { addrs = info.addrs ++ addresses (flattened a.endpoints) } ∷ infos)

  abbrev cluster_info :
      Text → Option XdsClusterInfo → Option (List XdsClusterInfo) → Option (List XdsClusterInfo)
  cluster_info name none later = later
  cluster_info name (some info) later = add_info (labelled info) (pilot.eds name) later

  unfoldable pub cluster_infos : List Text → Option (List XdsClusterInfo)
  unfolding parse_cluster_name addresses
  cluster_infos [] = some []
  cluster_infos (name ∷ names) = cluster_info name (parse_cluster_name name) (cluster_infos names)

  abbrev infos_of : Option (List Text) → Option (List XdsClusterInfo)
  infos_of none = none
  infos_of (some names) = cluster_infos names

  -- `getClusterInfos`
  unfoldable pub get_cluster_infos : Option (List XdsClusterInfo)
  unfolding cluster_infos
  get_cluster_infos = infos_of pilot.cds

-- The calls of `registry.SetIPIndex` that `MakeIPIndex` makes: an address, and the name and the tags of
-- its source.
unfoldable pub ip_index_of : Text → Table Text → List Text → List (Text × Text × Table Text)
ip_index_of name tags [] = []
ip_index_of name tags (addr ∷ addrs) = (addr, name, tags) ∷ ip_index_of name tags addrs

unfoldable pub make_ip_index : List XdsClusterInfo → List (Text × Text × Table Text)
unfolding ip_index_of
make_ip_index [] = []
make_ip_index (info ∷ infos) =
    ip_index_of info.cluster_name info.tags info.addrs ++ make_ip_index infos
