-- ===== src/Resolver.antt =====
-- resolver/: where a request goes (destination.go, authority/destination.go) and where it comes from
-- (source.go). The URL parser of net/url and the address index of go-chassis are parameters.
pub mod Authority
pub mod Plugins
use mesher.Prelude.{ℕ, List, [], ◌∷◌, Option, none, some, ◌⊎◌, inl, inr, if◌then◌else◌}
use mesher.Prelude.Text.{Text, Table, codes, text_eq, is_empty, lookup, insert}
use mesher.Prelude.Split.{split}

pub data ResolveError : Type 0 where
  url_error : Text → ResolveError
  invalid_uri : ResolveError
  self_uri : ResolveError
  can_not_parse : Text → ResolveError

-- `Resolve` returns a port and an error, and may set the name that its last argument points to.
pub record Resolved : Type 0 where
  pub port : Text
  pub err : Option ResolveError
  pub destination_name : Text

-- `url.Parse` gives the message of an error or the host, of which `Hostname` and `Port` are parts.
pub record UrlLibrary : Type 0 where
  pub parse : Text → Text ⊎ Text
  pub hostname : Text → Text
  pub port_of : Text → Text

module _ (u : UrlLibrary) (self_endpoint : Text) where
  unfoldable pub resolve_http : Text → Text → Resolved
  resolve_http raw_uri destination_name = elim (u.parse raw_uri) [
    | inl msg ↦ record {
      port = [];
      err = some (url_error msg);
      destination_name = destination_name;
    }
    | inr host ↦
        if is_empty host
        then record { port = []; err = some invalid_uri; destination_name = destination_name }
        else (if text_eq host self_endpoint
            then record { port = []; err = some self_uri; destination_name = destination_name }
            else record { port = u.port_of host; err = none; destination_name = u.hostname host })
  ]

-- The pieces of a gRPC authority: `len(s) != 2`, or a name and a port.
unfoldable pub authority_parts : Text → List Text → Text → Resolved
authority_parts raw_uri (name ∷ port ∷ []) destination_name = record {
  port = port;
  err = none;
  destination_name = name;
}
authority_parts raw_uri s destination_name = record {
  port = [];
  err = some (can_not_parse raw_uri);
  destination_name = destination_name;
}

unfoldable pub resolve_authority : Text → Text → Resolved
unfolding authority_parts
resolve_authority raw_uri destination_name =
    authority_parts raw_uri (split b':' raw_uri) destination_name

-- Source resolution, over `registry.GetIPIndex`.
unfoldable pub resolve_source {ℓ} : {A : Type ℓ} → (Text → Option A) → Text → Option A
resolve_source ip_index source =
    if text_eq source (codes "127.0.0.1") then none else ip_index source

abbrev pub default_plugin : Text
default_plugin = codes "host"

pub data InitError : Type 0 where
  unknown_resolver : Text → InitError

-- `DestinationResolverPlugins` and `drMap`, with a resolver as a value of any type.
unfoldable pub get_destination_resolver {ℓ} : {A : Type ℓ} → Table A → Text → Option A
get_destination_resolver dr_map name = lookup name dr_map

-- The loop of `Init` over the configured resolvers, in the order in which the map is walked. It ends
-- at the first unknown plugin, with what was installed before.
unfoldable pub init_resolvers {ℓ} :
    {A : Type ℓ} → Table A → Table Text → Table A → Option InitError × Table A
init_resolvers plugins [] dr_map = (none, dr_map)
init_resolvers plugins ((name, v) ∷ config) dr_map =
    let v = if is_empty v then default_plugin else v in
    elim (lookup v plugins) [
      | none ↦ (some (unknown_resolver v), dr_map)
      | some f ↦ init_resolvers plugins config (insert name f dr_map)
    ]
