-- ===== src/Istio.antt =====
-- pkg/infras/istio/xds.go and plugins/registry/istiov2/cache.go: the names of Istio's clusters, the
-- labels of a subset, and the cache of the instances that the registry asks. What the pilot answers is
-- data; the name of the protocol rest is a constant of go-chassis.
pub mod ClusterName
pub mod Cache
pub mod Registry
pub mod Lookups
pub mod Xds
use mesher.Prelude.{ℕ, List, [], ◌∷◌, ◌++◌, Option, none, some, Bool, true, false, if◌then◌else◌}
use mesher.Prelude.Text.{Text, Table, codes, text_eq, is_empty, lookup, insert, erase}
use mesher.Prelude.Maps.{all_entries}
use mesher.Prelude.Split.{split, join}

abbrev pub bar : ℕ
bar = b'|'

abbrev pub dot : ℕ
dot = b'.'

pub record XdsClusterInfo : Type 0 where
  pub cluster_name : Text
  pub direction : Text
  pub port : Text
  pub subset : Text
  pub host_name : Text
  pub service_name : Text
  pub namespace : Text
  pub domain_suffix : Text
  pub tags : Table Text
  pub addrs : List Text

-- The pieces of the host name: fewer than two, or a service, a namespace and the rest.
unfoldable pub with_host : Text → Text → Text → Text → Text → List Text → Option XdsClusterInfo
with_host name d p s host [] = none
with_host name d p s host (service ∷ []) = none
with_host name d p s host (service ∷ ns ∷ rest) = some (record {
  cluster_name = name;
  direction = d;
  port = p;
  subset = s;
  host_name = host;
  service_name = service;
  namespace = ns;
  domain_suffix = join dot rest;
  tags = [];
  addrs = [];
})

-- The pieces of the cluster's name: `len(parts) != 4`, or four.
unfoldable pub with_parts : Text → List Text → Option XdsClusterInfo
unfolding with_host
with_parts name (d ∷ p ∷ s ∷ host ∷ []) = with_host name d p s host (split dot host)
with_parts name parts = none

unfoldable pub parse_cluster_name : Text → Option XdsClusterInfo
unfolding with_parts
parse_cluster_name name = with_parts name (split bar name)

-- A destination rule: its host and its subsets, each with a name and labels.
pub record DestinationRule : Type 0 where
  pub host : Text
  pub subsets : Table (Table Text)

abbrev pub copied : Table Text → Table Text → Table Text
copied [] tags = tags
copied ((k, v) ∷ labels) tags = copied labels (insert k v tags)

abbrev pub labels_of : Option (Table Text) → Table Text
labels_of none = []
labels_of (some labels) = copied labels []

-- `GetSubsetTags` on the rules that Kubernetes gave: the first rule of the host, and its first subset of
-- the name.
unfoldable pub subset_tags : List DestinationRule → Text → Text → Table Text
subset_tags [] host_name subset_name = []
subset_tags (dr ∷ items) host_name subset_name =
    let rest = subset_tags items host_name subset_name in
    if text_eq dr.host host_name then labels_of (lookup subset_name dr.subsets) else rest

pub record MicroServiceInstance : Type 0 where
  pub instance_id : Text
  pub host_name : Text
  pub endpoints_map : Table Text
  pub default_endpoint : Text
  pub default_protocol : Text
  pub metadata : Table Text

pub record EndpointSubset : Type 0 where
  pub subset_name : Text
  pub tags : Table Text
  pub instances : List MicroServiceInstance

abbrev pub EndpointCache : Type 0
EndpointCache = Table EndpointSubset

-- `Set` and `Delete`
unfoldable pub set_subset : Text → EndpointSubset → EndpointCache → EndpointCache
set_subset name s cache = insert name s cache

unfoldable pub delete_subset : Text → EndpointCache → EndpointCache
delete_subset name cache = erase name cache

-- `strings.Replace(addr, ":", "_", 0)` replaces nothing.
unfoldable pub instance_at : Text → XdsClusterInfo → Text → MicroServiceInstance
instance_at protocol_rest info addr = record {
  instance_id = addr;
  host_name = info.cluster_name;
  endpoints_map = (protocol_rest, addr) ∷ [];
  default_endpoint = addr;
  default_protocol = protocol_rest;
  metadata = info.tags;
}

unfoldable pub instances_at : Text → XdsClusterInfo → List Text → List MicroServiceInstance
unfolding instance_at
instances_at protocol_rest info [] = []
instances_at protocol_rest info (addr ∷ addrs) =
    instance_at protocol_rest info addr ∷ instances_at protocol_rest info addrs

abbrev pub subset_of : Text → XdsClusterInfo → EndpointSubset
subset_of protocol_rest info = record {
  subset_name = info.subset;
  tags = info.tags;
  instances = instances_at protocol_rest info info.addrs;
}

-- `pullMicroserviceInstance` on the clusters that the pilot gave
unfoldable pub pull_microservice_instance :
    Text → List XdsClusterInfo → EndpointCache → EndpointCache
unfolding instances_at set_subset
pull_microservice_instance protocol_rest [] cache = cache
pull_microservice_instance protocol_rest (info ∷ infos) cache =
    let cache' =
      if is_empty info.subset
      then cache
      else set_subset info.cluster_name (subset_of protocol_rest info) cache in
    pull_microservice_instance protocol_rest infos cache'

abbrev pub has_value : Option Text → Text → Bool
has_value none v = false
has_value (some w) v = text_eq w v

unfoldable pub has_tag : Table Text → Text → Text → Bool
has_tag tags k v = has_value (lookup k tags) v

unfoldable pub tags_match : Table Text → Table Text → Bool
unfolding has_tag
tags_match tags target = all_entries (has_tag tags) target

abbrev pub is_service : Option XdsClusterInfo → Text → Bool
is_service none service = false
is_service (some info) service = text_eq info.service_name service

-- `GetWithTags`: none is nil. The subsets are walked in the order of the map.
unfoldable pub get_with_tags :
    EndpointCache → Text → Table Text → Option (List MicroServiceInstance)
unfolding parse_cluster_name tags_match
get_with_tags [] service tags = none
get_with_tags ((name, s) ∷ cache) service tags =
    let rest = get_with_tags cache service tags in
    if is_service (parse_cluster_name name) service
    then (if tags_match s.tags tags then some s.instances else rest)
    else rest
