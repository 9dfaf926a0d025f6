-- ===== src/Istio/ClusterName.antt =====
-- The names that are parsed, and what is read from them.
use mesher.Prelude.{◌≡◌, ◌↔◌, sym, ap, ◌∙◌, subst, List, [], ◌∷◌, some}
use mesher.Prelude.Text.{Text}
use mesher.Prelude.Split.{split, join, NoneHas, join-split, split-join, split-NoneHas}
use mesher.Istio.{bar, dot, XdsClusterInfo, with_host, with_parts, parse_cluster_name}

abbrev pub host_of : Text → Text → List Text → Text
host_of service ns rest = join dot (service ∷ ns ∷ rest)

abbrev pub name_of : Text → Text → Text → Text → Text
name_of d p s host = join bar (d ∷ p ∷ s ∷ host ∷ [])

abbrev pub info_with : Text → Text → Text → Text → Text → Text → Text → List Text → XdsClusterInfo
info_with name host d p s service ns rest = record {
  cluster_name = name;
  direction = d;
  port = p;
  subset = s;
  host_name = host;
  service_name = service;
  namespace = ns;
  domain_suffix = join dot rest;
  tags = [];
  addrs = [];
}

abbrev pub info_of : Text → Text → Text → Text → Text → List Text → XdsClusterInfo
info_of d p s service ns rest =
    info_with (name_of d p s (host_of service ns rest)) (host_of service ns rest) d p s service ns
      rest

parse_cluster_name-name_of :
    (d p s service ns : Text) (rest : List Text)
    → NoneHas bar (d ∷ p ∷ s ∷ host_of service ns rest ∷ [])
    → NoneHas dot (service ∷ ns ∷ rest)
    → parse_cluster_name (name_of d p s (host_of service ns rest))
      ≡ some (info_of d p s service ns rest)
unfolding parse_cluster_name with_parts with_host
parse_cluster_name-name_of d p s service ns rest bars dots =
    let host = host_of service ns rest in
    ap (with_parts (name_of d p s host)) (split-join bar (d ∷ p ∷ s ∷ host ∷ []) (λ e. cc) bars)
    ∙ ap (with_host (name_of d p s host) d p s host)
        (split-join dot (service ∷ ns ∷ rest) (λ e. cc) dots)

some-inj : {A : Type 0} {a b : A} → some a ≡ some b → a ≡ b
some-inj e = cc

-- A direction, a port, a subset and a host name, with no bar in them; and the pieces of the host name
-- with no dot in them.
abbrev pub IsParsed : Text → XdsClusterInfo → Type 0
IsParsed name c =
    (d : Text) × (p : Text) × (s : Text) × (service : Text) × (ns : Text) × (rest : List Text)
    × (name ≡ name_of d p s (host_of service ns rest))
    × NoneHas bar (d ∷ p ∷ s ∷ host_of service ns rest ∷ [])
    × NoneHas dot (service ∷ ns ∷ rest)
    × (c ≡ info_of d p s service ns rest)

with_host-IsParsed :
    (name d p s host : Text) (ps : List Text) (c : XdsClusterInfo)
    → with_host name d p s host ps ≡ some c
    → host ≡ join dot ps
    → NoneHas dot ps
    → name ≡ name_of d p s host
    → NoneHas bar (d ∷ p ∷ s ∷ host ∷ [])
    → IsParsed name c
unfolding with_host
with_host-IsParsed name d p s host [] c e j dots n bars = cc
with_host-IsParsed name d p s host (service ∷ []) c e j dots n bars = cc
with_host-IsParsed name d p s host (service ∷ ns ∷ rest) c e j dots n bars =
    let whole : name ≡ name_of d p s (host_of service ns rest) = n ∙ ap (name_of d p s) j in
    (
      d,
      p,
      s,
      service,
      ns,
      rest,
      whole,
      subst (λ h. NoneHas bar (d ∷ p ∷ s ∷ h ∷ [])) j bars,
      dots,
      sym (some-inj e)
          ∙ ap (λ x. info_with x host d p s service ns rest) whole
          ∙ ap (λ h. info_with (name_of d p s (host_of service ns rest)) h d p s service ns rest) j,
    )

with_parts-IsParsed :
    (name : Text) (ps : List Text) (c : XdsClusterInfo)
    → with_parts name ps ≡ some c
    → name ≡ join bar ps
    → NoneHas bar ps
    → IsParsed name c
unfolding with_parts
with_parts-IsParsed name [] c e j bars = cc
with_parts-IsParsed name (d ∷ []) c e j bars = cc
with_parts-IsParsed name (d ∷ p ∷ []) c e j bars = cc
with_parts-IsParsed name (d ∷ p ∷ s ∷ []) c e j bars = cc
with_parts-IsParsed name (d ∷ p ∷ s ∷ host ∷ []) c e j bars =
    with_host-IsParsed name d p s host (split dot host) c e (sym (join-split dot host))
      (split-NoneHas dot host) j bars
with_parts-IsParsed name (d ∷ p ∷ s ∷ host ∷ x ∷ l) c e j bars = cc

-- A cluster's name is parsed exactly if it is a direction, a port, a subset and a host name between bars,
-- where the host name has at least two pieces between dots, and then into these parts, with no tags and
-- no addresses.
parse_cluster_name_iff :
    (name : Text) (c : XdsClusterInfo) → (parse_cluster_name name ≡ some c) ↔ IsParsed name c
parse_cluster_name_iff name c = (
  λ e.
      with_parts-IsParsed name (split bar name) c (unfold parse_cluster_name in e)
        (sym (join-split bar name)) (split-NoneHas bar name),
  λ (d, p, s, service, ns, rest, whole, bars, dots, info).
      ap parse_cluster_name whole
      ∙ parse_cluster_name-name_of d p s service ns rest bars dots
      ∙ ap some (sym info),
)
