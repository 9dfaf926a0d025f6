-- ===== src/Ports.antt =====
-- pkg/ports/protocol.go and handler/port_rewrite.go: the handler that sends a call to the mesher of
-- the provider in place of the provider.
pub mod Rewrite
use mesher.Prelude.{ℕ, List, [], ◌∷◌, Option, none, some, if◌then◌else◌}
use mesher.Prelude.Text.{Text, Table, codes, lookup, insert, is_empty}
use mesher.Prelude.Split.{split, join}

abbrev pub colon : ℕ
colon = b':'

-- The map `defaultProtocolPort`; the name of the protocol rest is a constant of go-chassis.
unfoldable pub default_protocol_port : Text → Table Text
default_protocol_port protocol_rest =
    (protocol_rest, codes "30101") ∷ (codes "grpc", codes "40101") ∷ []

unfoldable pub set_fixed_port : Table Text → Text → Text → Table Text
set_fixed_port ports protocol port = insert protocol port ports

-- A missing key reads as the empty string.
unfoldable pub get_fixed_port : Table Text → Text → Text
get_fixed_port ports protocol = elim (lookup protocol ports) [ none ↦ [] | some p ↦ p ]

-- "invalid endpoint", with the pieces.
pub data PortError : Type 0 where
  invalid_endpoint : List Text → PortError

-- `len(eps) != 2`, else the first piece and the new port joined.
unfoldable pub replaced : Text → List Text → Text × Option PortError
replaced port (host ∷ old ∷ []) = (join colon (host ∷ port ∷ []), none)
replaced port eps = ([], some (invalid_endpoint eps))

unfoldable pub replace_port : Table Text → Text → Text → Text × Option PortError
unfolding replaced
replace_port ports protocol endpoint =
    replaced (get_fixed_port ports protocol) (split colon endpoint)

-- What the handler does: it answers with the error, or calls the next handler with an endpoint.
pub data Outcome : Type 0 where
  respond : Option PortError → Outcome
  next : Text → Outcome

-- An empty endpoint is answered with the error.
unfoldable pub outcome : Text × Option PortError → Outcome
outcome (endpoint, err) = if is_empty endpoint then respond err else next endpoint

unfoldable pub handle : Table Text → Text → Text → Outcome
unfolding outcome
handle ports protocol endpoint = outcome (replace_port ports protocol endpoint)
