-- ===== src/Client/Manager.antt =====
-- protocol/dubbo/client/dubbo_client.go, the cache of clients by address (ClientMgr), and
-- protocol/dubbo/client/chassis/dubbo_chassis_client.go, the call that uses it. A client is known by a
-- number; whether a connection can be dialled, and what `Send` on a client gives, are parameters.
pub mod Reuse
use mesher.Prelude.{
  ℕ, ◌+◌, List, [], ◌∷◌, Option, none, some, Bool, true, false, ◌||◌, if◌then◌else◌,
}
use mesher.Prelude.Text.{Text, Table, text_eq, is_empty, lookup, insert, erase}
use mesher.Message.{DubboRsp}

-- A client as the cache sees it: its flag, and that of its connection.
pub record CachedClient : Type 0 where
  pub number : ℕ
  pub closed : Bool
  pub conn_closed : Bool

pub record ClientMgr : Type 0 where
  pub clients : Table CachedClient
  pub next : ℕ

abbrev pub new_client_mgr : ClientMgr
new_client_mgr = record { clients = []; next = 0 }

abbrev pub opened : ℕ → CachedClient
opened n = record { number = n; closed = false; conn_closed = false }

-- `Closed`: a client whose connection is closed is closed by the question.
abbrev pub checked : CachedClient → CachedClient
checked c = record c { closed = c.closed || c.conn_closed }

abbrev pub with_cached : Bool → Text → ClientMgr → Option CachedClient → Option ℕ × ClientMgr
with_cached dialled addr m none =
    if dialled
    then (
      some m.next,
      record { clients = insert addr (opened m.next) m.clients; next = m.next + 1 },
    )
    else (none, m)
with_cached dialled addr m (some c) =
    if (checked c).closed
    then (if dialled
        then (some c.number, record m { clients = insert addr (opened c.number) m.clients })
        else (none, record m { clients = erase addr m.clients }))
    else (some c.number, m)

-- `GetClient`, with whether a dial would give a connection
unfoldable pub get_client : Bool → Text → ClientMgr → Option ℕ × ClientMgr
get_client dialled addr m = with_cached dialled addr m (lookup addr m.clients)

-- The connection of the client for an address is closed, by its loops.
abbrev lost : Option CachedClient → Text → Table CachedClient → Table CachedClient
lost none addr clients = clients
lost (some c) addr clients = insert addr (record c { conn_closed = true }) clients

unfoldable pub conn_lost : Text → ClientMgr → ClientMgr
conn_lost addr m = record m { clients = lost (lookup addr m.clients) addr m.clients }

-- How a call ends: without an address, without a client, with an error of `Send`, or with its response,
-- which may be nil.
pub data CallResult : Type 0 where
  empty_endpoint : CallResult
  no_client : CallResult
  send_failed : CallResult
  answered : Option DubboRsp → CallResult

abbrev pub sent : Option (Option DubboRsp) → CallResult
sent none = send_failed
sent (some rsp) = answered rsp

abbrev pub sent_by : (ℕ → Option (Option DubboRsp)) → Option ℕ × ClientMgr → CallResult × ClientMgr
sent_by send (none, m) = (no_client, m)
sent_by send (some n, m) = (sent (send n), m)

-- The address of the sidecar itself is replaced by the one of the environment.
abbrev pub end_point : Text → Text → Text → Text
end_point listen_addr specific_addr addr = if text_eq addr listen_addr then specific_addr else addr

-- `Call`
unfoldable pub call :
    (ℕ → Option (Option DubboRsp)) → Bool → Text → Text → Text → ClientMgr → CallResult × ClientMgr
unfolding get_client
call send dialled listen_addr specific_addr addr m =
    let e = end_point listen_addr specific_addr addr in
    if is_empty e then (empty_endpoint, m) else sent_by send (get_client dialled e m)
