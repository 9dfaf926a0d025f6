-- ===== src/Client/Manager/Reuse.antt =====
-- One client for an address, as long as its connection lasts.
use mesher.Prelude.{
  ℕ, Option, none, some, Bool, true, false, ◌||◌, ◌≡◌, refl, ap, ◌∙◌, Bool-cases, inl, inr,
}
use mesher.Prelude.Text.{Text, Table, text_eq_refl, is_empty, lookup, insert, lookup-insert}
use mesher.Message.{DubboRsp}
use mesher.Client.Manager.{
  CachedClient, ClientMgr, opened, with_cached, get_client, sent, sent_by, end_point, call,
}

abbrev pub IsOpen : ℕ → Option CachedClient → Type 0
IsOpen n none = ⊥
IsOpen n (some c) = (c.number ≡ n) × (c.closed || c.conn_closed ≡ false)

opened-IsOpen :
    (addr : Text) (n : ℕ) (clients : Table CachedClient)
    → IsOpen n (lookup addr (insert addr (opened n) clients))
opened-IsOpen addr n clients =
    let found : lookup addr (insert addr (opened n) clients) ≡ some (opened n) =
      lookup-insert addr addr (opened n) clients ∙ rw (text_eq_refl addr) refl in
    rw found (refl, refl)

kept :
    (dialled : Bool) (addr : Text) (m : ClientMgr) (n : ℕ) (o : Option CachedClient)
    → IsOpen n o
    → with_cached dialled addr m o ≡ (some n, m)
kept dialled addr m n none o = absurd o
kept dialled addr m n (some c) (same, fine) = rw (fine, same) refl

-- With a dial that works there is an open client for the address afterwards, and it is given.
got-IsOpen :
    (addr : Text) (m : ClientMgr) (o : Option CachedClient)
    → lookup addr m.clients ≡ o
    → (n : ℕ) × (m' : ClientMgr) × (with_cached true addr m o ≡ (some n, m'))
      × IsOpen n (lookup addr m'.clients)
got-IsOpen addr m none e = (m.next, _, refl, opened-IsOpen addr m.next m.clients)
got-IsOpen addr m (some c) e = elim (Bool-cases (c.closed || c.conn_closed)) [
  | inl shut ↦ (
    c.number,
    record m { clients = insert addr (opened c.number) m.clients },
    rw shut refl,
    opened-IsOpen addr c.number m.clients,
  )
  | inr fine ↦ (c.number, m, rw fine refl, rw e (refl, fine))
]

-- A call for an address, behind mesher's own one and the environment, with a dial that works, sends on a
-- client, whatever the cache holds; and a second call for it, with the connection still there, sends on
-- the same client, whatever a dial would do then, and leaves the cache as it is.
pub call_again :
    (send send' : ℕ → Option (Option DubboRsp)) (dialled : Bool)
    (listen_addr specific_addr addr : Text) (m : ClientMgr)
    → is_empty (end_point listen_addr specific_addr addr) ≡ false
    → (n : ℕ) × (m' : ClientMgr) × (call send true listen_addr specific_addr addr m
        ≡ (sent (send n), m'))
      × (call send' dialled listen_addr specific_addr addr m' ≡ (sent (send' n), m'))
unfolding call get_client
call_again send send' dialled listen_addr specific_addr addr m some_addr =
    let e = end_point listen_addr specific_addr addr in
    let (n, m', got, is_open) = got-IsOpen e m (lookup e m.clients) refl in
    let again = kept dialled e m' n (lookup e m'.clients) is_open in
    (n, m', rw some_addr (ap (sent_by send) got), rw some_addr (ap (sent_by send') again))
