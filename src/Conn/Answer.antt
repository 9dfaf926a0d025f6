-- ===== src/Conn/Answer.antt =====
-- What a request is answered with.
use mesher.Prelude.{ℕ, ◌≡◌, Option, none, some, Bool, true, false}
use mesher.Prelude.Text.{Text}
use mesher.Wire.Object.{nil}
use mesher.Message.{Request, DubboRsp, generate_msg_id, status_ok, server_error, init, zero_rsp}

-- An answer is put into the queue exactly if one is wanted, and it is as described.
abbrev pub Wanted : Bool → (DubboRsp → Type 0) → Option DubboRsp → Type 0
Wanted two_way P none = two_way ≡ false
Wanted two_way P (some r) = (two_way ≡ true) × P r

-- An event without a value and with the status ok.
abbrev pub IsBeat : ℕ → DubboRsp → Type 0
IsBeat id r = (r.id ≡ id) × (r.event ≡ true) × (r.status ≡ status_ok) × (r.value ≡ nil)

-- The response that the proxy filled, with its error if there was one.
abbrev pub IsReply : ℕ → Option Text → DubboRsp → DubboRsp → Type 0
IsReply id none rsp r =
    (r.id ≡ id) × (r.event ≡ rsp.event) × (r.status ≡ rsp.status) × (r.value ≡ rsp.value)
IsReply id (some message) rsp r =
    (r.id ≡ id) × (r.event ≡ rsp.event) × (r.status ≡ server_error) × (r.error_msg ≡ message)

-- By whether the request is a heartbeat, with what the proxy gave.
abbrev pub Answers :
    Bool → ℕ → Request → Option Text × Request × DubboRsp → ℕ × Option DubboRsp → Type 0
Answers true counter req given (counter', answer) =
    (counter' ≡ counter) × Wanted req.two_way (IsBeat req.msg_id) answer
Answers false counter req (err, req', rsp) (counter', answer) =
    (counter' ≡ generate_msg_id counter) × Wanted req'.two_way (IsReply req.msg_id err rsp) answer

module _ (handle : Request → DubboRsp → Option Text × Request × DubboRsp) where
  -- What the proxy gives for the request under a new id.
  abbrev pub given : ℕ → Request → Option Text × Request × DubboRsp
  given counter req =
      handle (record req { msg_id = generate_msg_id counter })
        (record (init zero_rsp) { id = req.msg_id })
