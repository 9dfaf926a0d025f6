-- ===== src/Resolver/Plugins.antt =====
-- What `Init` installs.
use mesher.Prelude.{◌≡◌, [], ◌∷◌, Option, none, some, arith, if◌then◌else◌, Option-cases, inl, inr}
use mesher.Prelude.Text.{Text, Table, text_eq, is_empty, lookup, insert, lookup-insert}
use mesher.Resolver.{default_plugin, init_resolvers}

-- An empty name stands for the plugin host.
abbrev pub plugin_name : Text → Text
plugin_name v = if is_empty v then default_plugin else v

-- The plugin of the last entry of a configuration for a protocol.
unfoldable pub configured : Text → Table Text → Option Text
configured name [] = none
configured name ((k, v) ∷ config) = elim (configured name config) [
  | some w ↦ some w
  | none ↦ if text_eq k name then some (plugin_name v) else none
]

module _ {ℓ} {A : Type ℓ} where
  -- After an `Init` with no error a protocol has the resolver of the plugin that is configured for it,
  -- the plugin host if the configured name is empty, and a protocol that is not configured keeps the
  -- resolver that it had.
  lookup-init_resolvers :
      (plugins : Table A) (config : Table Text) (dr_map dr_map' : Table A) (name : Text)
      → init_resolvers plugins config dr_map ≡ (none, dr_map')
      → lookup name dr_map'
        ≡ elim (configured name config) [ none ↦ lookup name dr_map | some v ↦ lookup v plugins ]
  unfolding init_resolvers configured
  lookup-init_resolvers plugins [] dr_map dr_map' name h = ground arith
  lookup-init_resolvers plugins ((k, v) ∷ config) dr_map dr_map' name h =
      elim (Option-cases (lookup (plugin_name v) plugins)) [
        | inl missing ↦ ground arith
        | inr (f, found) ↦ ground (
          arith,
          found,
          lookup-insert k name f dr_map,
          lookup-init_resolvers plugins config (insert k f dr_map) dr_map' name,
        )
      ]
