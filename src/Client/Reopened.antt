-- ===== src/Client/Reopened.antt =====
-- A call that waits while its client is closed and opened again.
use mesher.Prelude.{ℕ, ◌≡◌, refl, [], none, true, arith}
use mesher.Client.{
  returned, DubboClient, new_dubbo_client, enter, add_wait_msg, remove_wait_msg, remove, finish,
  send, wait, go_on, answer, begin_close, lock_close, tell, end_close, reopen, Run, here, later,
}

-- For every request id there is a run in which `ReOpen` closes and opens the client while a call waits,
-- and the call returns a nil response without an error.
reopen_returns_nil :
    (id : ℕ) → (s : DubboClient) × Run new_dubbo_client s × ((s.calls 0).phase ≡ returned none)
unfolding enter add_wait_msg remove finish remove_wait_msg
reopen_returns_nil id = (
  _,
  later _ _ _
      (later _ _ _
        (later _ _ _
          (later _ _ _
            (later _ _ _
              (later _ _ _
                (later _ _ _
                  (later _ _ _ (later _ _ _ (here _) (send _ id true refl))
                    (wait _ 0 (omega arith) refl refl))
                  (begin_close _ refl refl))
                (lock_close _ refl refl))
              (tell _ 0 [] refl refl))
            (end_close _ refl))
          (reopen _ refl))
        (go_on _ 0 refl refl))
      (answer _ 0 refl refl),
  refl,
)
