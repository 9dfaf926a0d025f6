-- ===== src/Cmd.antt =====
-- cmd/cmd.go: the addresses of local services from the command line or the environment; and
-- SetLocalServiceAddress of protocol/http, protocol/grpc and protocol/dubbo/proxy, which use them.
pub mod PortsMap
pub mod LocalAddress
use mesher.Prelude.{
  ℕ, ◌≡◌, List, [], ◌∷◌, ◌++◌, Option, none, some, Bool, ◌||◌, if◌then◌else◌, ◌==◌, leb, ◌&&◌,
}
use mesher.Prelude.Text.{Text, Table, codes, is_empty, lookup, insert}
use mesher.Prelude.Split.{split}

abbrev pub local : Text
local = codes "127.0.0.1"

abbrev pub colon : ℕ
colon = b':'

abbrev pub comma : ℕ
comma = b','

-- "[…] is invalid", with the pieces of an item or the deprecated address.
pub data PortsError : Type 0 where
  invalid_item : List Text → PortsError
  invalid_address : Text → PortsError

abbrev pub local_address : Text → Text
local_address port = local ++ (colon ∷ port)

-- One item of the list: `len(p) != 2`, or a protocol and a port.
unfoldable pub add_item : List Text → Table Text → Option (Table Text)
add_item (protocol ∷ port ∷ []) ports = some (insert protocol (local_address port) ports)
add_item p ports = none

-- The loop over the items. The map keeps what was entered before a bad item.
unfoldable pub add_items : List Text → Table Text → Option PortsError × Table Text
unfolding add_item
add_items [] ports = (none, ports)
add_items (v ∷ s) ports = elim (add_item (split colon v) ports) [
  | none ↦ (some (invalid_item (split colon v)), ports)
  | some ports' ↦ add_items s ports'
]

-- `strings.TrimSpace` on ASCII.
abbrev pub is_space : ℕ → Bool
is_space c = c == b' ' || (leb 9 c && leb c 13)

unfoldable pub trim_left : Text → Text
trim_left [] = []
trim_left (c ∷ s) = if is_space c then trim_left s else c ∷ s

unfoldable pub trim_right : Text → Text
trim_right [] = []
trim_right (c ∷ s) = elim (trim_right s) [
  | [] ↦ if is_space c then [] else c ∷ []
  | d ∷ t ↦ c ∷ d ∷ t
]

unfoldable pub trim_space : Text → Text
unfolding trim_left trim_right
trim_space s = trim_right (trim_left s)

-- The deprecated address: a host, which is ignored, and a port, under go-chassis's name for rest.
unfoldable pub add_address : Text → Text → List Text → Option PortsError × Table Text
add_address protocol_rest addr (host ∷ port ∷ []) = (none, (protocol_rest, local_address port) ∷ [])
add_address protocol_rest addr s = (some (invalid_address addr), [])

-- `service_ports` is the flag, `specific_addr` the environment variable.
unfoldable pub generate_ports_map : Text → Text → Text → Option PortsError × Table Text
unfolding add_items trim_space add_address
generate_ports_map protocol_rest service_ports specific_addr =
    if is_empty service_ports
    then (if is_empty specific_addr
        then (none, [])
        else (let addr = trim_space specific_addr in
            add_address protocol_rest addr (split colon addr)))
    else add_items (split comma service_ports) []

-- "is not supported", with the protocol and the service.
pub data AddressError : Type 0 where
  not_supported : Text → Text → AddressError

-- A missing key reads as the empty string.
abbrev pub read_port : Table Text → Text → Text
read_port ports protocol = elim (lookup protocol ports) [ none ↦ [] | some v ↦ v ]

-- protocol/http and protocol/grpc: the endpoint that is set, and the error.
unfoldable pub set_local_service_address :
    Table Text → Text → Text → Text → Text × Option AddressError
set_local_service_address ports protocol service port =
    let endpoint = read_port ports protocol in
    if is_empty endpoint
    then (if is_empty port
        then (endpoint, some (not_supported protocol service))
        else (local_address port, none))
    else (endpoint, none)

-- protocol/dubbo/proxy: it enters the address into the map too.
unfoldable pub set_local_dubbo_address :
    Table Text → Text → Text → Text → Text × Option AddressError × Table Text
set_local_dubbo_address ports protocol service port =
    let endpoint = read_port ports protocol in
    if is_empty endpoint
    then (if is_empty port
        then (endpoint, some (not_supported protocol service), ports)
        else (local_address port, none, insert protocol (local_address port) ports))
    else (endpoint, none, ports)
