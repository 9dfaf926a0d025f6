-- ===== src/Codec/Transport.antt =====
-- An encoder followed by the decoder of headers, as the two ends of a connection run them: the
-- receiver reads the first 16 bytes of what the sender's buffer holds.
use mesher.Prelude.{
  ℕ, ◌/◌, ◌%◌, ◌^◌, ◌≤◌, ◌<◌, ◌≡◌, List, none, false, ◌||◌, length, take, drop, arith,
}
use mesher.Prelude.Int.{ℤ, pos}
use mesher.Prelude.Go.{ret}
use mesher.Wire.Hessian.{Hessian}
use mesher.Wire.WriteBuffer.{WriteBuffer, get_valid_data}
use mesher.Wire.WriteBuffer.Stream.{IsValid}
use mesher.Message.{Request, DubboRsp, is_heartbeat, zero_request, zero_rsp}
use mesher.Codec.Encode.{encode_dubbo_req, encode_dubbo_rsp}
use mesher.Codec.Decode.{decode_req_head, decode_rsp_head, success}
use mesher.Codec.Body.{
  arguments_error, req_body, rsp_objects, objects_bytes, encode_dubbo_req-frame,
  encode_dubbo_rsp-frame,
}
use mesher.Codec.RoundTrip.{decode_req_head-frame, decode_rsp_head-frame}

module _ (h : Hessian) where
  -- A request whose arguments can all be encoded, with an id whose bits 32 to 47 are zero and a body
  -- shorter than 2 GB, is encoded into a valid buffer of at least 16 bytes with no error, and the
  -- first 16 of the bytes that are sent decode on the other side to a request with the same id, the
  -- same wish for an answer and the same event flag, which is a heartbeat exactly if the request was
  -- an event, and to the length of the bytes behind them.
  decode_req_head-encode_dubbo_req :
      (req : Request) (b : WriteBuffer) (l : ℤ)
      → IsValid b
      → 16 ≤ b.capacity
      → arguments_error h req.arguments ≡ none
      → req.msg_id < 2 ^ 64
      → req.msg_id / 2 ^ 32 % 2 ^ 16 ≡ 0
      → length (req_body h req) < 2 ^ 31
      → (b' : WriteBuffer) × (data_sent : List ℕ) × (r : Request) × (encode_dubbo_req h req b
          ≡ ret (pos 0, b'))
        × (get_valid_data b' ≡ ret data_sent)
        × (decode_req_head zero_request (take 16 data_sent) l
            ≡ ret (success, r, pos (length (drop 16 data_sent))))
        × (r.msg_id ≡ req.msg_id)
        × (r.two_way ≡ req.two_way)
        × (r.event ≡ req.event)
        × (is_heartbeat r ≡ req.event)
  decode_req_head-encode_dubbo_req req b l v room fine small clear short =
      let (b', done, bytes) = encode_dubbo_req-frame h req b v room fine in
      let (r, decoded, id, reply, event, beat) =
        decode_req_head-frame req (length (req_body h req)) l small clear short in
      (b', _, r, done, bytes, decoded, id, reply, event, beat)

  -- A response with an id whose bits 32 to 47 are zero and a body shorter than 2 GB is encoded into a
  -- valid buffer of at least 16 bytes with no error, and the first 16 of the bytes that are sent
  -- decode on the other side, into a new response, to the same id, status and event flag and to the
  -- length of the bytes behind them.
  decode_rsp_head-encode_dubbo_rsp :
      (rsp : DubboRsp) (b : WriteBuffer) (l : ℤ)
      → IsValid b
      → 16 ≤ b.capacity
      → rsp.id < 2 ^ 64
      → rsp.id / 2 ^ 32 % 2 ^ 16 ≡ 0
      → length (objects_bytes h (rsp_objects h rsp)) < 2 ^ 31
      → (b' : WriteBuffer) × (data_sent : List ℕ) × (encode_dubbo_rsp h rsp b ≡ ret (pos 0, b'))
        × (get_valid_data b' ≡ ret data_sent)
        × (decode_rsp_head zero_rsp (take 16 data_sent) l
            ≡ ret (
              success,
              record zero_rsp { id = rsp.id; status = rsp.status; event = rsp.event },
              pos (length (drop 16 data_sent)),
            ))
  decode_rsp_head-encode_dubbo_rsp rsp b l v room small clear short =
      let (b', done, bytes) = encode_dubbo_rsp-frame h rsp b v room in
      let same : (rsp.event || false) ≡ rsp.event = ground arith in
      let head = decode_rsp_head-frame rsp zero_rsp _ l small clear short in
      (b', _, done, bytes, rw same at head)
