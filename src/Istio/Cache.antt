-- ===== src/Istio/Cache.antt =====
-- Which instances the cache gives.
use mesher.Prelude.{
  ◌≡◌, ◌≢◌, ◌⊎◌, inl, inr, refl, sym, ap, ◌∙◌, subst, List, [], ◌∷◌, Option, none, some, true,
  false, arith, Bool-cases, Option-cases, if-cases,
}
use mesher.Prelude.Text.{Text, Table, text_eq, text_eq_iff, is_empty, lookup, insert}
use mesher.Prelude.Maps.{all_entries, Entries, Entries-lookup}
use mesher.Istio.{
  XdsClusterInfo, EndpointSubset, EndpointCache, MicroServiceInstance, parse_cluster_name,
  is_service, has_value, has_tag, tags_match, get_with_tags, set_subset, subset_of, instances_at,
  pull_microservice_instance,
}

has_value_iff : (o : Option Text) (v : Text) → has_value o v ≡ true → o ≡ some v
has_value_iff none v e = cc
has_value_iff (some w) v e = ap some ((text_eq_iff w v).0 e)

abbrev pub HasTags : Table Text → Table Text → Type 0
HasTags tags target = (k v : Text) → lookup k target ≡ some v → lookup k tags ≡ some v

abbrev pub IsOf : Text → Text → Type 0
IsOf service name =
    (c : XdsClusterInfo) × (parse_cluster_name name ≡ some c) × (c.service_name ≡ service)

abbrev pub In : XdsClusterInfo → List XdsClusterInfo → Type 0
In x [] = ⊥
In x (y ∷ ys) = (x ≡ y) ⊎ In x ys

not_empty : (t : Text) → is_empty t ≡ false → t ≢ []
not_empty [] h e = cc
not_empty (c ∷ t) h e = cc

insert-Entries :
    (P : Text → EndpointSubset → Type 0) (k : Text) (s : EndpointSubset) (cache : EndpointCache)
    → P k s
    → Entries P cache
    → Entries P (insert k s cache)
unfolding insert
insert-Entries P k s [] p h = (p, tt)
insert-Entries P k s ((j, t) ∷ cache) p h =
    if-cases (Entries P) (text_eq j k) ((k, s) ∷ cache) ((j, t) ∷ insert k s cache) (λ _. (p, h.1))
      (λ _. (h.0, insert-Entries P k s cache p h.1))

is_service-IsOf :
    (service name : Text) → is_service (parse_cluster_name name) service ≡ true → IsOf service name
is_service-IsOf service name e = elim (Option-cases (parse_cluster_name name)) [
  | inl no_info ↦ absurd (ground (arith, e, no_info))
  | inr (c, info) ↦ (
    c,
    info,
    (text_eq_iff c.service_name service).0 (ap (λ o. is_service o service) (sym info) ∙ e),
  )
]

has_tag-found : (tags : Table Text) (k v : Text) → has_tag tags k v ≡ true → lookup k tags ≡ some v
unfolding has_tag
has_tag-found tags k v e = has_value_iff (lookup k tags) v e

Entries-holds :
    (tags target : Table Text)
    → all_entries (has_tag tags) target ≡ true
    → Entries (λ k v. lookup k tags ≡ some v) target
Entries-holds tags [] e = tt
Entries-holds tags ((k, v) ∷ target) e =
    (has_tag-found tags k v (ground arith), Entries-holds tags target (ground arith))

tags_match-HasTags :
    (tags target : Table Text) → tags_match tags target ≡ true → HasTags tags target
unfolding tags_match
tags_match-HasTags tags target e k v =
    Entries-lookup (λ k v. lookup k tags ≡ some v) target k v (Entries-holds tags target e)

abbrev Given :
    (Text → EndpointSubset → Type 0) → Text → Table Text → List MicroServiceInstance → Type 0
Given P service tags xs =
    (name : Text) × (s : EndpointSubset) × P name s
    × IsOf service name
    × HasTags s.tags tags
    × (xs ≡ s.instances)

get_with_tags-Given :
    (P : Text → EndpointSubset → Type 0) (cache : EndpointCache) (service : Text)
    (tags : Table Text) (xs : List MicroServiceInstance)
    → Entries P cache
    → get_with_tags cache service tags ≡ some xs
    → Given P service tags xs
unfolding get_with_tags
get_with_tags-Given P [] service tags xs h e = cc
get_with_tags-Given P ((name, s) ∷ cache) service tags xs h e =
    elim (Bool-cases (is_service (parse_cluster_name name) service)) [
      | inr other ↦ get_with_tags-Given P cache service tags xs h.1 (ground (arith, e, other))
      | inl same ↦ elim (Bool-cases (tags_match s.tags tags)) [
        | inr unlike ↦
            get_with_tags-Given P cache service tags xs h.1 (ground (arith, e, same, unlike))
        | inl like ↦ (
          name,
          s,
          h.0,
          is_service-IsOf service name same,
          tags_match-HasTags s.tags tags like,
          ground (arith, e, same, like),
        )
      ]
    ]

pull-Entries :
    (P : Text → EndpointSubset → Type 0) (protocol_rest : Text) (infos : List XdsClusterInfo)
    (cache : EndpointCache)
    → ((info : XdsClusterInfo)
        → In info infos
        → info.subset ≢ []
        → P info.cluster_name (subset_of protocol_rest info))
    → Entries P cache
    → Entries P (pull_microservice_instance protocol_rest infos cache)
unfolding pull_microservice_instance
pull-Entries P r [] cache p h = h
pull-Entries P r (info ∷ infos) cache p h =
    pull-Entries P r infos _ (λ i at. p i (inr at))
      (if-cases (Entries P) (is_empty info.subset) cache
        (set_subset info.cluster_name (subset_of r info) cache) (λ _. h)
        (λ named.
          unfold set_subset in
          insert-Entries P info.cluster_name (subset_of r info) cache
            (p info (inl refl) (not_empty info.subset named)) h))

-- After the clusters of the pilot were pulled into an empty cache, whatever instances the cache gives for
-- a service and tags are those of one of these clusters, which has a subset, belongs to the service by its
-- name, and has every one of the tags; there is one for each of its addresses.
pub get_with_tags-pull :
    (protocol_rest : Text) (infos : List XdsClusterInfo) (service : Text) (tags : Table Text)
    (xs : List MicroServiceInstance)
    → get_with_tags (pull_microservice_instance protocol_rest infos []) service tags ≡ some xs
    → (info : XdsClusterInfo) × In info infos
      × (info.subset ≢ [])
      × IsOf service info.cluster_name
      × HasTags info.tags tags
      × (xs ≡ instances_at protocol_rest info info.addrs)
get_with_tags-pull r infos service tags xs e =
    let P : Text → EndpointSubset → Type 0 = λ name s.
      (info : XdsClusterInfo) × In info infos
      × (info.subset ≢ [])
      × (name ≡ info.cluster_name)
      × (s ≡ subset_of r info) in
    let (name, s, (info, at, named, n, t), of, has, same) =
      get_with_tags-Given P (pull_microservice_instance r infos []) service tags xs
        (pull-Entries P r infos [] (λ i at named. (i, at, named, refl, refl)) tt) e in
    (
      info,
      at,
      named,
      subst (IsOf service) n of,
      subst (λ x. HasTags x.tags tags) t has,
      same ∙ ap (λ x. x.instances) t,
    )
