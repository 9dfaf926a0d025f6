-- ===== src/Istio/Lookups.antt =====
-- What the registry finds at the pilot, and keeps in the cache.
use mesher.Prelude.{
  ◌≡◌, refl, ap, ◌∙◌, subst, List, [], ◌∷◌, Option, none, some, true, false, All, arith, Bool-cases,
  inl, inr,
}
use mesher.Prelude.Text.{Text, Table, text_eq_refl, insert}
use mesher.Prelude.Maps.{IsMap, lookup-Entries, all_entries_iff}
use mesher.Prelude.Split.{split}
use mesher.Istio.{
  bar, XdsClusterInfo, parse_cluster_name, MicroServiceInstance, EndpointSubset, EndpointCache,
  set_subset, is_service, has_value, has_tag, get_with_tags, tags_match,
}
use mesher.Istio.Registry.{
  SocketAddress, LoadAssignment, Pilot, to_micro_service, to_instances, names_service,
  target_cluster, update_instance_index_cache, get_micro_service, endpoints_of, subset_matches,
  tagged_endpoints, endpoints_by_tags, get_endpoints_by_tags, find_micro_service_instances,
  cached_or_fetched, fetched,
}

-- Tags match themselves.
tags_match_refl : (tags : Table Text) → IsMap tags → tags_match tags tags ≡ true
unfolding tags_match has_tag
tags_match_refl tags m =
    (all_entries_iff (has_tag tags) (λ k v. has_tag tags k v ≡ true) (λ k v. (λ e. e, λ e. e))
        tags).1
      (lookup-Entries (λ k v. has_tag tags k v ≡ true) tags m
        (λ k v e. ap (λ o. has_value o v) e ∙ text_eq_refl v))

get_with_tags-insert :
    (cache : EndpointCache) (name service : Text) (tags : Table Text) (s : EndpointSubset)
    → get_with_tags cache service tags ≡ none
    → is_service (parse_cluster_name name) service ≡ true
    → tags_match s.tags tags ≡ true
    → get_with_tags (insert name s cache) service tags ≡ some s.instances
unfolding get_with_tags insert
get_with_tags-insert [] name service tags s n h t = rw (h, t)
get_with_tags-insert ((j, r) ∷ cache) name service tags s n h t =
    ground (arith, get_with_tags-insert cache name service tags s)

-- A cluster of which the endpoints are taken belongs to the service.
subset_matches-is_service :
    (pilot : Pilot) (service : Text) (tags : Table Text) (o : Option XdsClusterInfo)
    → subset_matches pilot service tags o ≡ true
    → is_service o service ≡ true
subset_matches-is_service pilot service tags none e = cc
subset_matches-is_service pilot service tags (some info) e = ground arith

endpoints_of-name :
    (pilot : Pilot) (n name : Text) (o : Option LoadAssignment) (es : List SocketAddress)
    → endpoints_of pilot n o ≡ some (es, name)
    → n ≡ name
endpoints_of-name pilot n name none es e = cc
endpoints_of-name pilot n name (some a) es e = cc

tagged_endpoints-is_service :
    (pilot : Pilot) (service : Text) (tags : Table Text) (names : List Text) (e : SocketAddress)
    (es : List SocketAddress) (name : Text)
    → tagged_endpoints pilot service tags names ≡ some (e ∷ es, name)
    → is_service (parse_cluster_name name) service ≡ true
unfolding tagged_endpoints
tagged_endpoints-is_service pilot service tags [] e es name h = cc
tagged_endpoints-is_service pilot service tags (n ∷ names) e es name h =
    elim (Bool-cases (subset_matches pilot service tags (parse_cluster_name n))) [
      | inl matched ↦
          let taken : endpoints_of pilot n (pilot.eds n) ≡ some (e ∷ es, name) = ground arith in
          subst (λ x. is_service (parse_cluster_name x) service ≡ true)
            (endpoints_of-name pilot n name (pilot.eds n) (e ∷ es) taken)
            (subset_matches-is_service pilot service tags (parse_cluster_name n) matched)
      | inr other ↦
          let later : tagged_endpoints pilot service tags names ≡ some (e ∷ es, name) =
            ground arith in
          tagged_endpoints-is_service pilot service tags names e es name later
    ]

endpoints_by_tags-is_service :
    (pilot : Pilot) (service : Text) (tags : Table Text) (o : Option (List Text))
    (e : SocketAddress) (es : List SocketAddress) (name : Text)
    → endpoints_by_tags pilot service tags o ≡ some (e ∷ es, name)
    → is_service (parse_cluster_name name) service ≡ true
endpoints_by_tags-is_service pilot service tags none e es name h = cc
endpoints_by_tags-is_service pilot service tags (some names) e es name h =
    tagged_endpoints-is_service pilot service tags names e es name h

module _ (pilot : Pilot) (service : Text) (tags : Table Text) (cache : EndpointCache)
    (e : SocketAddress) (es : List SocketAddress) (name : Text) where
  -- The instances of the endpoints.
  abbrev pub taken_instances : List MicroServiceInstance
  taken_instances = to_instances pilot.protocol_rest name tags (e ∷ es)

  abbrev pub filled : EndpointCache
  filled = update_instance_index_cache pilot.protocol_rest (e ∷ es) name tags cache

  get_with_tags-filled :
      IsMap tags
      → get_with_tags cache service tags ≡ none
      → get_endpoints_by_tags pilot service tags ≡ some (e ∷ es, name)
      → get_with_tags filled service tags ≡ some taken_instances
  unfolding get_endpoints_by_tags update_instance_index_cache set_subset
  get_with_tags-filled m n h =
      get_with_tags-insert cache name service tags _ n
        (endpoints_by_tags-is_service pilot service tags pilot.cds e es name h)
        (tags_match_refl tags m)

  -- If the cache has no subset of the service with the tags, and the pilot has a cluster of the service
  -- with them and endpoints, then FindMicroServiceInstances gives an instance for each endpoint, and a
  -- later call gives the same ones from the cache, whatever the pilot would answer then.
  pub find_micro_service_instances_again :
      (later : Pilot)
      → IsMap tags
      → get_with_tags cache service tags ≡ none
      → get_endpoints_by_tags pilot service tags ≡ some (e ∷ es, name)
      → (find_micro_service_instances pilot service (some tags) cache
          ≡ (some taken_instances, filled))
        × (find_micro_service_instances later service (some tags) filled
            ≡ (some taken_instances, filled))
  unfolding find_micro_service_instances to_instances
  find_micro_service_instances_again later m n h =
      let hit = get_with_tags-filled m n h in
      (
        ap (cached_or_fetched pilot service tags cache) n
            ∙ ap (fetched pilot service tags cache) h
            ∙ ap (λ o. (o, filled)) hit,
        ap (cached_or_fetched later service tags filled) hit,
      )

no_target :
    (id : Text) (names : List Text)
    → All (λ n. names_service id (split bar n) ≡ false) names
    → target_cluster id names ≡ []
unfolding target_cluster
no_target id [] u = refl
no_target id (n ∷ names) (h, hs) = rw h (no_target id names hs)

-- For a service of which the pilot has no cluster, GetMicroService reports no error and gives a service
-- with empty names.
get_micro_service_unknown :
    (pilot : Pilot) (id : Text) (names : List Text)
    → pilot.cds ≡ some names
    → All (λ n. names_service id (split bar n) ≡ false) names
    → get_micro_service pilot id ≡ some (some (to_micro_service pilot []))
unfolding get_micro_service
get_micro_service_unknown pilot id names c u = rw (c, no_target id names u)
