-- ===== src/Server/Connections.antt =====
-- What becomes of the connections of a server.
use mesher.Prelude.{
  ℕ, ◌≡◌, refl, List, [], ◌∷◌, Option, none, some, true, false, ◌==◌, length, arith, if◌then◌else◌,
  Bool-cases, inl, inr, not, subst,
}
use mesher.Server.{
  DubboConnection, new_dubbo_connection, open_connection, close_connection, find, put,
  get_connection, close_all, deactive_all_conn, DubboServer, accept, closed_at, loop_ends, stop,
  Run, start, accepted, loop_ended, stopped,
}

find-put :
    (key other : ℕ) (c : DubboConnection) (conns : List (ℕ × DubboConnection))
    → find other (put key c conns) ≡ (if key == other then some c else find other conns)
unfolding find put
find-put key other c [] = refl
find-put key other c ((k, d) ∷ conns) = ground (arith, find-put key other c conns)

abbrev map_close : Option DubboConnection → Option DubboConnection
map_close none = none
map_close (some c) = some (close_connection c)

find-close_all :
    (key : ℕ) (conns : List (ℕ × DubboConnection))
    → find key (close_all conns) ≡ map_close (find key conns)
unfolding find
find-close_all key [] = refl
find-close_all key ((k, c) ∷ conns) = elim (Bool-cases (k == key)) [
  | inl same ↦ rw same refl
  | inr other ↦ rw other (find-close_all key conns)
]

-- The connection that was accepted as the n-th.
abbrev pub nth_accepted : ℕ → List ℕ → Option ℕ
nth_accepted n [] = none
nth_accepted n (conn ∷ conns) = if length conns == n then some conn else nth_accepted n conns

-- A connection that is closed is closed in all its parts, and one that is not in none.
abbrev Fits : Option DubboConnection → Option ℕ → Type 0
Fits none none = Unit {0}
Fits none (some conn) = ⊥
Fits (some c) none = ⊥
Fits (some c) (some conn) =
    (c.conn ≡ conn) × (c.queue_active ≡ not c.closed) × (c.conn_open ≡ not c.closed)

record IsKept (d : DubboServer) (conns : List ℕ) : Type 0 where
  counted : d.conn_mgr.count ≡ length conns
  found : (n : ℕ) → Fits (find n d.conn_mgr.conns) (nth_accepted n conns)

Fits-close : (o : Option DubboConnection) (n : Option ℕ) → Fits o n → Fits (map_close o) n
unfolding close_connection
Fits-close none none f = f
Fits-close none (some conn) f = f
Fits-close (some c) none f = f
Fits-close (some c) (some conn) f = ground arith

accept-IsKept :
    (conn : ℕ) (d : DubboServer) (conns : List ℕ)
    → IsKept d conns
    → IsKept (accept conn d) (conn ∷ conns)
unfolding accept get_connection open_connection
accept-IsKept conn d conns k = record {
  counted = omega (arith, k.counted);
  found = λ n.
      let key = d.conn_mgr.count in
      let once = find-put key n (new_dubbo_connection conn) d.conn_mgr.conns in
      let c = open_connection (new_dubbo_connection conn) in
      let twice = find-put key n c (put key (new_dubbo_connection conn) d.conn_mgr.conns) in
      elim (Bool-cases (key == n)) [
        | inl same ↦
            let same' : length conns == n ≡ true = ground (arith, k.counted) in
            rw (twice, same, same') (refl, refl, refl)
        | inr other ↦
            let other' : length conns == n ≡ false = ground (arith, k.counted) in
            rw (twice, once, other, other') (k.found n)
      ];
}

closed_at-Fits :
    (key n : ℕ) (o : Option DubboConnection) (m : List (ℕ × DubboConnection)) (conn : Option ℕ)
    → find key m ≡ o
    → Fits (find n m) conn
    → Fits (find n (closed_at key o m)) conn
closed_at-Fits key n none m conn e f = f
closed_at-Fits key n (some c) m conn e f = elim (Bool-cases (key == n)) [
  | inl same ↦
      let at : find n m ≡ some c = ground (arith, e) in
      rw (find-put key n (close_connection c) m, same)
        (Fits-close (some c) conn (subst (λ o. Fits o conn) at f))
  | inr other ↦ rw (find-put key n (close_connection c) m, other) f
]

Run-IsKept : {d : DubboServer} {conns : List ℕ} → Run d conns → IsKept d conns
unfolding loop_ends stop deactive_all_conn
Run-IsKept start = record { counted = refl; found = λ n. unfold find in tt }
Run-IsKept (accepted {d} {conns} conn r) = accept-IsKept conn d conns (Run-IsKept r)
Run-IsKept (loop_ended {d} {conns} key r) =
    let k = Run-IsKept r in
    record {
      counted = k.counted;
      found = λ n. closed_at-Fits key n _ d.conn_mgr.conns _ refl (k.found n);
    }
Run-IsKept (stopped {d} {conns} r) =
    let k = Run-IsKept r in
    record {
      counted = k.counted;
      found = λ n. rw (find-close_all n d.conn_mgr.conns) (Fits-close _ _ (k.found n));
    }

abbrev pub IsShut : ℕ → Option DubboConnection → Type 0
IsShut conn none = ⊥
IsShut conn (some c) =
    (c.conn ≡ conn) × (c.closed ≡ true) × (c.queue_active ≡ false) × (c.conn_open ≡ false)

abbrev pub IsOpen : ℕ → Option DubboConnection → Type 0
IsOpen conn none = ⊥
IsOpen conn (some c) =
    (c.conn ≡ conn) × (c.closed ≡ false) × (c.queue_active ≡ true) × (c.conn_open ≡ true)

Fits-IsShut :
    (o : Option DubboConnection) (n : Option ℕ) (conn : ℕ)
    → Fits o n
    → n ≡ some conn
    → IsShut conn (map_close o)
unfolding close_connection
Fits-IsShut none none conn f e = cc
Fits-IsShut none (some k) conn f e = absurd f
Fits-IsShut (some c) none conn f e = cc
Fits-IsShut (some c) (some k) conn f e = ground (arith, f, e)

-- In every run of a server, after Stop the connection that was accepted as the n-th stands under its
-- number, closed, with its queue not active and its socket closed, whatever became of it before; but a
-- connection that comes after Stop is accepted, and is open.
pub stop-IsShut :
    {d : DubboServer} {conns : List ℕ} (n conn later : ℕ)
    → Run d conns
    → nth_accepted n conns ≡ some conn
    → IsShut conn (find n (stop d).conn_mgr.conns)
      × IsOpen later (find (length conns) (accept later (stop d)).conn_mgr.conns)
unfolding stop deactive_all_conn accept get_connection open_connection
stop-IsShut {d} {conns} n conn later r e =
    let k = Run-IsKept r in
    let key = d.conn_mgr.count in
    let closed = close_all d.conn_mgr.conns in
    let at : key == length conns ≡ true = ground (arith, k.counted) in
    let twice =
      find-put key (length conns) (open_connection (new_dubbo_connection later))
        (put key (new_dubbo_connection later) closed) in
    (
      rw (find-close_all n d.conn_mgr.conns) (Fits-IsShut _ _ conn (k.found n) e),
      rw (twice, at) (refl, refl, refl, refl),
    )
