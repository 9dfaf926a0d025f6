-- ===== src/Cmd/PortsMap.antt =====
-- The list of service ports that is printed and parsed again.
use mathlib.Core.List.{map}
use mesher.Prelude.{ℕ, ◌≡◌, ◌≢◌, refl, [], ◌∷◌, ◌++◌, none, false, ◌||◌, arith}
use mesher.Prelude.Text.{Text, Table, is_empty, insert}
use mesher.Prelude.Split.{join, has_byte, NoneHas, split-join, split_pair}
use mesher.Cmd.{comma, colon, local_address, add_item, add_items, generate_ports_map}

-- `protocol:port`
abbrev pub item : Text × Text → Text
item (protocol, port) = protocol ++ (colon ∷ port)

-- The flag's text: the items between commas.
abbrev pub service_ports : Table Text → Text
service_ports ps = join comma (map item ps)

-- Neither the protocols nor the ports hold a comma or a colon.
abbrev pub IsPlain : Table Text → Type 0
IsPlain [] = Unit {0}
IsPlain ((protocol, port) ∷ ps) =
    (has_byte colon protocol ≡ false)
    × (has_byte colon port ≡ false)
    × (has_byte comma protocol ≡ false)
    × (has_byte comma port ≡ false)
    × IsPlain ps

-- The map with the local addresses entered from left to right.
unfoldable pub entered : Table Text → Table Text → Table Text
entered [] ports = ports
entered ((protocol, port) ∷ ps) ports = entered ps (insert protocol (local_address port) ports)

has_byte-append : (c : ℕ) (s t : Text) → has_byte c (s ++ t) ≡ (has_byte c s || has_byte c t)
unfolding has_byte
has_byte-append c [] t = refl
has_byte-append c (d ∷ s) t = ground (arith, has_byte-append c s t)

has_byte-item :
    (protocol port : Text)
    → has_byte comma protocol ≡ false
    → has_byte comma port ≡ false
    → has_byte comma (item (protocol, port)) ≡ false
unfolding has_byte
has_byte-item protocol port h k = ground (arith, has_byte-append comma protocol (colon ∷ port))

items-NoneHas : (ps : Table Text) → IsPlain ps → NoneHas comma (map item ps)
items-NoneHas [] h = tt
items-NoneHas ((protocol, port) ∷ ps) (a, b, c, d, h) =
    (has_byte-item protocol port c d, items-NoneHas ps h)

add_items-entered :
    (ps : Table Text) (ports : Table Text)
    → IsPlain ps
    → add_items (map item ps) ports ≡ (none, entered ps ports)
unfolding add_items add_item entered
add_items-entered [] ports h = refl
add_items-entered ((protocol, port) ∷ ps) ports (a, b, c, d, h) =
    rw (add_items, (split_pair colon (item (protocol, port)) protocol port).1 (refl, a, b))
      (add_items-entered ps (insert protocol (local_address port) ports) h)

is_empty-append : (s : Text) (c : ℕ) (t : Text) → is_empty (s ++ (c ∷ t)) ≡ false
is_empty-append [] c t = refl
is_empty-append (d ∷ s) c t = refl

is_empty-service_ports : (ps : Table Text) → ps ≢ [] → is_empty (service_ports ps) ≡ false
unfolding join
is_empty-service_ports [] h = absurd (h refl)
is_empty-service_ports ((protocol, port) ∷ []) h = is_empty-append protocol colon port
is_empty-service_ports (p ∷ q ∷ ps) h = is_empty-append (item p) comma (service_ports (q ∷ ps))

map-ne-nil : (ps : Table Text) → ps ≢ [] → map item ps ≢ []
map-ne-nil [] h = absurd (h refl)
map-ne-nil (p ∷ ps) h = λ e. cc

-- A non-empty list of protocols and ports, without commas and colons in them, is parsed from the
-- text of the flag with no error into the map of the local addresses, entered from left to right,
-- whatever the environment holds.
generate_ports_map-service_ports :
    (protocol_rest specific_addr : Text) (ps : Table Text)
    → ps ≢ []
    → IsPlain ps
    → generate_ports_map protocol_rest (service_ports ps) specific_addr ≡ (none, entered ps [])
unfolding generate_ports_map
generate_ports_map-service_ports protocol_rest specific_addr ps some_left plain =
    rw
      (
        is_empty-service_ports ps some_left,
        split-join comma (map item ps) (map-ne-nil ps some_left) (items-NoneHas ps plain),
      )
      (add_items-entered ps [] plain)
