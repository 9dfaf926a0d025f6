-- ===== src/Examples/Istio.antt =====
-- The theorems on Istio's clusters at concrete values.
use mesher.Prelude.{◌≡◌, ◌≢◌, refl, [], ◌∷◌, none, some, false, All}
use mesher.Prelude.Maps.{IsMap}
use mesher.Prelude.Text.{Text, Table, has_prefix, codes, text_eq, insert, lookup}
use mesher.Prelude.Split.{split, join}
use mesher.Istio.{
  bar, XdsClusterInfo, parse_cluster_name, with_parts, with_host, tags_match, has_tag, instances_at,
  set_subset, pull_microservice_instance, get_with_tags,
}
use mesher.Istio.Registry.{
  Pilot, names_service, tagged_endpoints, get_endpoints_by_tags, find_micro_service_instances,
}
use mesher.Istio.Lookups.{taken_instances, filled, find_micro_service_instances_again}
use mesher.Istio.Cache.{In, IsOf, HasTags, get_with_tags-pull}

abbrev sample_info : XdsClusterInfo
sample_info = record {
  cluster_name = codes "o|80|v1|svc.ns";
  direction = codes "o";
  port = codes "80";
  subset = codes "v1";
  host_name = codes "svc.ns";
  service_name = codes "svc";
  namespace = codes "ns";
  domain_suffix = [];
  tags = (codes "version", codes "v1") ∷ [];
  addrs = codes "10.0.0.1:80" ∷ [];
}

pulled :
    get_with_tags
      (pull_microservice_instance (codes "rest") (sample_info ∷ []) [])
      (codes "svc")
      ((codes "version", codes "v1") ∷ [])
    ≡ some (instances_at (codes "rest") sample_info sample_info.addrs)
unfolding get_with_tags pull_microservice_instance set_subset parse_cluster_name with_parts
    with_host tags_match has_tag split join insert lookup text_eq
pulled = refl

get_with_tags-pull_example :
    (info : XdsClusterInfo) × In info (sample_info ∷ [])
    × (info.subset ≢ [])
    × IsOf (codes "svc") info.cluster_name
    × HasTags info.tags ((codes "version", codes "v1") ∷ [])
    × (instances_at (codes "rest") sample_info sample_info.addrs
        ≡ instances_at (codes "rest") info info.addrs)
get_with_tags-pull_example =
    get_with_tags-pull (codes "rest") (sample_info ∷ []) (codes "svc")
      ((codes "version", codes "v1") ∷ [])
      (instances_at (codes "rest") sample_info sample_info.addrs) pulled

-- A pilot with one cluster that has a subset.
abbrev pilot : Pilot
pilot = record {
  cds = some (codes "o|80|v1|svc.ns" ∷ []);
  eds = λ name. some (record {
    cluster_name = name;
    endpoints = (record { address = codes "10.0.0.1"; port = 80 } ∷ []) ∷ [];
  });
  get_subset_tags = λ ns svc subset. some ((codes "version", codes "v1") ∷ []);
  protocol_rest = codes "rest";
  default_version = codes "0.0.1";
  default_app = codes "default";
}

abbrev wanted : Table Text
wanted = (codes "version", codes "v1") ∷ []

wanted-IsMap : IsMap wanted
unfolding lookup
wanted-IsMap = (refl, tt)

nothing_cached : get_with_tags [] (codes "svc") wanted ≡ none
unfolding get_with_tags
nothing_cached = refl

endpoints_found :
    get_endpoints_by_tags pilot (codes "svc") wanted
    ≡ some (record { address = codes "10.0.0.1"; port = 80 } ∷ [], codes "o|80|v1|svc.ns")
unfolding get_endpoints_by_tags tagged_endpoints parse_cluster_name with_parts with_host tags_match
    has_tag split join lookup text_eq
endpoints_found = refl

find_micro_service_instances_again_example :
    let instances =
      taken_instances pilot
        (codes "svc")
        wanted
        []
        (record { address = codes "10.0.0.1"; port = 80 })
        []
        (codes "o|80|v1|svc.ns") in
    let cache =
      filled pilot
        (codes "svc")
        wanted
        []
        (record { address = codes "10.0.0.1"; port = 80 })
        []
        (codes "o|80|v1|svc.ns") in
    (find_micro_service_instances pilot (codes "svc") (some wanted) [] ≡ (some instances, cache))
    × (find_micro_service_instances (record pilot { cds = none }) (codes "svc") (some wanted) cache
        ≡ (some instances, cache))
find_micro_service_instances_again_example =
    find_micro_service_instances_again pilot (codes "svc") wanted []
      (record { address = codes "10.0.0.1"; port = 80 }) [] (codes "o|80|v1|svc.ns")
      (record pilot { cds = none }) wanted-IsMap nothing_cached endpoints_found

not_named :
    All (λ n. names_service (codes "db") (split bar n) ≡ false) (codes "o|80|v1|svc.ns" ∷ [])
unfolding split has_prefix
not_named = (refl, tt)
