-- ===== src/Examples/Client.antt =====
-- The theorems on the dubbo client at concrete runs.
use mesher.Prelude.{ℕ, ◌≡◌, ◌≢◌, refl, Option, none, some, true, false, arith}
use mesher.Prelude.Text.{codes, is_empty, text_eq}
use mesher.Message.{DubboRsp}
use mesher.Client.{
  timed_out, returned, replying, DubboClient, new_dubbo_client, find, remove, enter, add_wait_msg,
  remove_wait_msg, rsp_call_back, finish, Run, send, wait, reply, hand_over, go_on, answer, here,
  later,
}
use mesher.Client.Manager.{ClientMgr, new_client_mgr, call, sent, end_point}
use mesher.Client.Manager.Reuse.{call_again}
use mesher.Client.Correlation.{Run-correlated}
use mesher.Client.Blocked.{late_answer_blocks}
use mesher.Examples.Samples.{sample_response}

-- One request of id 9, its answer, and the return of the call.
one_call :
    (s : DubboClient) × Run new_dubbo_client s
    × ((s.calls 0).phase ≡ returned (some sample_response))
    × ((s.calls 0).msg_id ≡ 9)
unfolding enter add_wait_msg remove find rsp_call_back finish remove_wait_msg
one_call = (
  _,
  later _ _ _
      (later _ _ _
        (later _ _ _
          (later _ _ _
            (later _ _ _ (later _ _ _ (here new_dubbo_client) (send new_dubbo_client 9 true refl))
              (wait (enter 9 true new_dubbo_client) 0 (omega arith) refl refl))
            (reply _ sample_response refl))
          (hand_over _ 0 refl refl))
        (go_on _ 0 refl refl))
      (answer _ 0 refl refl),
  refl,
  refl,
)

Run-correlated_example : sample_response.id ≡ (one_call.0.calls 0).msg_id
Run-correlated_example = Run-correlated 0 sample_response one_call.1 one_call.2

late_answer_blocks_example :
    (s : DubboClient) × Run new_dubbo_client s
    × ((s.calls 0).phase ≡ timed_out)
    × ((s.calls 0).msg_id ≡ 9)
    × ((s.calls 0).rsp ≡ some sample_response)
    × ((t : DubboClient)
        → Run s t
        → (t.holder ≡ replying 0)
          × (t.next ≡ 1)
          × ((j : ℕ) (o : Option DubboRsp) → (t.calls j).phase ≢ returned o))
late_answer_blocks_example = late_answer_blocks sample_response

abbrev no_response : ℕ → Option (Option DubboRsp)
no_response n = some none

some_address : is_empty (end_point (codes "own") (codes "svc") (codes "own")) ≡ false
unfolding text_eq
some_address = refl

-- A call of the sidecar's own address, which stands for that of the service, and then one without a
-- connection to dial.
call_again_example :
    (n : ℕ) × (m' : ClientMgr) × (call no_response true
        (codes "own")
        (codes "svc")
        (codes "own")
        new_client_mgr
      ≡ (sent (no_response n), m'))
    × (call no_response false (codes "own") (codes "svc") (codes "own") m'
        ≡ (sent (no_response n), m'))
call_again_example =
    call_again no_response no_response false (codes "own") (codes "svc") (codes "own")
      new_client_mgr some_address
