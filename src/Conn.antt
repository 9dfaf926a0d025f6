-- ===== src/Conn.antt =====
-- protocol/dubbo/server/dubbo_conn.go and protocol/dubbo/client/client_conn.go: the loops that receive
-- messages from a connection, and the answer to a request. The bytes that come are a list of segments:
-- one `Read` gives bytes of one segment, as many as its buffer has room for.
pub mod Fuel
pub mod Framing
pub mod Answer
pub mod Negative
pub mod Delivery
pub mod Send
use mesher.Prelude.{
  ℕ, zero, suc, ◌+◌, ◌-◌, List, [], ◌∷◌, ◌++◌, Option, none, some, Bool, true, false, length, take,
  drop, ltb, if◌then◌else◌,
}
use mesher.Prelude.Int.{ℤ, pos, negsuc}
use mesher.Prelude.Text.{Text}
use mesher.Prelude.Go.{Go, ret, panic}
use mesher.Wire.Object.{nil}
use mesher.Message.{
  Request, DubboRsp, init, zero_request, zero_rsp, status_ok, server_error, is_heartbeat,
  generate_msg_id,
}
use mesher.Codec.Encode.{header_length}
use mesher.Codec.Decode.{decode_req_head, decode_rsp_head}

pub data Segment : Type 0 where
  bytes : List ℕ → Segment
  timeout : Segment

pub data Reading : Type 0 where
  got : List ℕ → Reading
  timed_out : Reading
  lost : Reading

abbrev pub left_over : List ℕ → List Segment → List Segment
left_over [] s = s
left_over (c ∷ b) s = bytes (c ∷ b) ∷ s

-- `conn.Read(buf)` with room for n bytes, n not 0. The end of the list is the end of the connection.
unfoldable pub read_conn : ℕ → List Segment → Reading × List Segment
read_conn n [] = (lost, [])
read_conn n (timeout ∷ s) = (timed_out, s)
read_conn n (bytes b ∷ s) = (got (take n b), left_over (drop n b) s)

pub data Body : Type 0 where
  filled : List ℕ → List Segment → Body
  broken_off : Body

abbrev pub after : List ℕ → Body → Body
after b (filled c s) = filled (b ++ c) s
after b broken_off = broken_off

-- The inner loop, with the number of bytes still to come; `retry` says whether a timeout goes on with
-- the loop. A read into no room gives no bytes.
unfoldable pub read_body : Bool → ℕ → List Segment → Body
read_body retry zero s = filled [] s
read_body retry (suc n) [] = broken_off
read_body retry (suc n) (timeout ∷ s) =
    let rest = read_body retry (suc n) s in if retry then rest else broken_off
read_body retry (suc n) (bytes b ∷ s) =
    let rest = read_body retry (suc n - length b) s in
    if ltb (length b) (suc n)
    then after b rest
    else filled (take (suc n) b) (left_over (drop (suc n) b) s)

-- How the loop ended: it closed the connection, it panicked, or the fuel ran out.
pub data End : Type 0 where
  closed : End
  crashed : End
  running : End

module _ {ℓ} (M : Type ℓ) where
  -- The tasks that were spawned: the decoded header and the body.
  pub record Received : Type ℓ where
    pub tasks : List (M × List ℕ)
    pub ending : End

module _ {ℓ} {M : Type ℓ} where
  abbrev pub ended : End → Received M
  ended e = record { tasks = []; ending = e }

  abbrev pub spawned : M → Body → (List Segment → Received M) → Received M
  spawned m broken_off loop = ended closed
  spawned m (filled b s) loop =
      let rest = loop s in record { tasks = (m, b) ∷ rest.tasks; ending = rest.ending }

  -- `make([]byte, bodyLen)` panics on a length below 0.
  abbrev pub with_head :
      Bool → Go (ℤ × M × ℤ) → List Segment → (List Segment → Received M) → Received M
  with_head retry panic s loop = ended crashed
  with_head retry (ret (negsuc c, m, len)) s loop = loop s
  with_head retry (ret (pos (suc c), m, len)) s loop = loop s
  with_head retry (ret (pos zero, m, negsuc k)) s loop = ended crashed
  with_head retry (ret (pos zero, m, pos n)) s loop = spawned m (read_body retry n s) loop

  abbrev pub one_message :
      Bool
      → (List ℕ → Go (ℤ × M × ℤ))
      → Reading × List Segment
      → (List Segment → Received M)
      → Received M
  one_message retry decode (lost, s) loop = ended closed
  one_message retry decode (timed_out, s) loop = loop s
  one_message retry decode (got b, s) loop =
      if ltb (length b) header_length then loop s else with_head retry (decode b) s loop

  unfoldable pub msg_recv_loop : Bool → (List ℕ → Go (ℤ × M × ℤ)) → ℕ → List Segment → Received M
  unfolding read_conn read_body
  msg_recv_loop retry decode zero s = ended running
  msg_recv_loop retry decode (suc fuel) s =
      one_message retry decode (read_conn header_length s) (msg_recv_loop retry decode fuel)

-- The two loops: a timeout in a body ends the server's loop and not the client's.
abbrev pub server_recv_loop : ℕ → List Segment → Received Request
server_recv_loop = msg_recv_loop false (λ head. decode_req_head zero_request head (pos 0))

abbrev pub client_recv_loop : ℕ → List Segment → Received DubboRsp
client_recv_loop = msg_recv_loop true (λ head. decode_rsp_head zero_rsp head (pos 0))

abbrev pub failed_with : Option Text → DubboRsp → DubboRsp
failed_with none rsp = rsp
failed_with (some msg) rsp = record rsp { error_msg = msg; status = server_error }

abbrev pub enqueued : Bool → DubboRsp → Option DubboRsp
enqueued true rsp = some rsp
enqueued false rsp = none

-- What follows the call of `dubboproxy.Handle`, with its error and what it made of its arguments.
abbrev pub handled : ℕ → ℕ → Option Text × Request × DubboRsp → ℕ × Option DubboRsp
handled counter src_msg_id (err, req, rsp) =
    (counter, enqueued req.two_way (record (failed_with err rsp) { id = src_msg_id }))

-- `HandleMsg`, with `dubboproxy.Handle` as a parameter and the counter of message ids: the new counter,
-- and what is put into the queue.
unfoldable pub handle_msg :
    (Request → DubboRsp → Option Text × Request × DubboRsp) → ℕ → Request → ℕ × Option DubboRsp
unfolding is_heartbeat generate_msg_id
handle_msg handle counter req =
    let rsp = record (init zero_rsp) { id = req.msg_id } in
    let id = generate_msg_id counter in
    if is_heartbeat req
    then (
      counter,
      enqueued req.two_way (record rsp { value = nil; event = true; status = status_ok }),
    )
    else handled id req.msg_id (handle (record req { msg_id = id }) rsp)
