-- ===== src/Server.antt =====
-- protocol/dubbo/server/server.go, and the start and the end of a connection in dubbo_conn.go: the
-- connections that were accepted, by number, and the stop of the server. A TCP connection is a number;
-- its queue, its manager of goroutines and its socket are what closing does to them.
pub mod Connections
use mesher.Prelude.{
  ℕ, ◌+◌, List, [], ◌∷◌, Option, none, some, Bool, true, false, ◌==◌, if◌then◌else◌,
}
use mesher.Routines.{RoutineManager, new_routine_manager, spawn, manager_done}

pub record DubboConnection : Type 0 where
  pub conn : ℕ
  pub closed : Bool
  pub queue_active : Bool
  pub conn_open : Bool
  pub routine_mgr : RoutineManager

-- `NewDubboConnetction` with a nil manager, as GetConnection calls it
abbrev pub new_dubbo_connection : ℕ → DubboConnection
new_dubbo_connection conn = record {
  conn = conn;
  closed = false;
  queue_active = true;
  conn_open = true;
  routine_mgr = new_routine_manager;
}

-- `Open`: the loops are two tasks.
unfoldable pub open_connection : DubboConnection → DubboConnection
unfolding spawn
open_connection c = record c { routine_mgr = spawn (spawn c.routine_mgr) }

-- `Close`
unfoldable pub close_connection : DubboConnection → DubboConnection
close_connection c =
    if c.closed then c else record c { closed = true; queue_active = false; conn_open = false }

pub record ConnectionMgr : Type 0 where
  pub conns : List (ℕ × DubboConnection)
  pub count : ℕ

abbrev pub new_connect_mgr : ConnectionMgr
new_connect_mgr = record { conns = []; count = 0 }

unfoldable pub find : ℕ → List (ℕ × DubboConnection) → Option DubboConnection
find key [] = none
find key ((k, c) ∷ conns) = if k == key then some c else find key conns

unfoldable pub put : ℕ → DubboConnection → List (ℕ × DubboConnection) → List (ℕ × DubboConnection)
put key c [] = (key, c) ∷ []
put key c ((k, d) ∷ conns) = if k == key then (key, c) ∷ conns else (k, d) ∷ put key c conns

-- `GetConnection`, and the call of `Open` on what it gives
unfoldable pub get_connection : ℕ → ConnectionMgr → DubboConnection × ConnectionMgr
unfolding put
get_connection conn m =
    let c = new_dubbo_connection conn in
    (c, record { conns = put m.count c m.conns; count = m.count + 1 })

abbrev pub close_all : List (ℕ × DubboConnection) → List (ℕ × DubboConnection)
close_all [] = []
close_all ((k, c) ∷ conns) = (k, close_connection c) ∷ close_all conns

-- `DeactiveAllConn`
unfoldable pub deactive_all_conn : ConnectionMgr → ConnectionMgr
unfolding close_connection
deactive_all_conn m = record m { conns = close_all m.conns }

pub record DubboServer : Type 0 where
  pub conn_mgr : ConnectionMgr
  pub routine_mgr : RoutineManager

-- A server after `Init`, with the task of the accept loop
abbrev pub started : DubboServer
started = record { conn_mgr = new_connect_mgr; routine_mgr = spawn new_routine_manager }

-- One round of AcceptLoop, for a connection: the manager has the opened one under its number.
unfoldable pub accept : ℕ → DubboServer → DubboServer
unfolding get_connection open_connection put
accept conn d =
    let (c, m) = get_connection conn d.conn_mgr in
    record d { conn_mgr = record m { conns = put d.conn_mgr.count (open_connection c) m.conns } }

-- A connection is closed by one of its loops.
abbrev closed_at :
    ℕ → Option DubboConnection → List (ℕ × DubboConnection) → List (ℕ × DubboConnection)
closed_at key none conns = conns
closed_at key (some c) conns = put key (close_connection c) conns

unfoldable pub loop_ends : ℕ → DubboServer → DubboServer
unfolding find put close_connection
loop_ends key d = record d {
  conn_mgr = record d.conn_mgr {
    conns = closed_at key (find key d.conn_mgr.conns) d.conn_mgr.conns;
  };
}

-- `Stop`
unfoldable pub stop : DubboServer → DubboServer
unfolding deactive_all_conn manager_done
stop d = record {
  conn_mgr = deactive_all_conn d.conn_mgr;
  routine_mgr = manager_done d.routine_mgr;
}

-- The connections that come, the ends of loops and the stops, in any order, with the connections that
-- were accepted, the newest first.
pub data Run : DubboServer → List ℕ → Type 0 where
  start : Run started []
  accepted :
      {d : DubboServer} {conns : List ℕ} (conn : ℕ)
      → Run d conns
      → Run (accept conn d) (conn ∷ conns)
  loop_ended :
      {d : DubboServer} {conns : List ℕ} (key : ℕ) → Run d conns → Run (loop_ends key d) conns
  stopped : {d : DubboServer} {conns : List ℕ} → Run d conns → Run (stop d) conns
