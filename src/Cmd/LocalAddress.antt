-- ===== src/Cmd/LocalAddress.antt =====
-- Which endpoint a local service gets.
use mesher.Prelude.{◌≡◌, refl, [], ◌∷◌, none, arith, ◌≢◌}
use mesher.Prelude.Text.{Text, Table, lookup-insert, text_eq_refl}
use mesher.Cmd.{local_address, read_port, set_local_dubbo_address}

-- The dubbo proxy remembers the port of the first request for a protocol with no address: every
-- later request for the protocol gets the same endpoint, whatever port it came with.
set_local_dubbo_address_sticky :
    (ports : Table Text) (protocol service port service' port' : Text)
    → read_port ports protocol ≡ []
    → port ≢ []
    → let (endpoint, err, ports') = set_local_dubbo_address ports protocol service port in
      (endpoint ≡ local_address port)
      × (err ≡ none)
      × (set_local_dubbo_address ports' protocol service' port'
          ≡ (local_address port, none, ports'))
unfolding set_local_dubbo_address
set_local_dubbo_address_sticky ports protocol service [] service' port' h k = absurd (k refl)
set_local_dubbo_address_sticky ports protocol service (c ∷ port) service' port' h k =
    ground (
      arith,
      text_eq_refl protocol,
      lookup-insert protocol protocol (local_address (c ∷ port)) ports,
    )
