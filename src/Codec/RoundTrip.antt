-- ===== src/Codec/RoundTrip.antt =====
-- The header decoders on the headers that the encoders write.
use mesher.Prelude.{
  ℕ, ◌+◌, ◌*◌, ◌/◌, ◌%◌, ◌^◌, ◌<◌, ◌≡◌, refl, ap, ◌∙◌, [], true, ◌||◌, if◌then◌else◌, arith,
}
use mesher.Prelude.Int.{ℤ, pos, signed32}
use mesher.Prelude.Go.{ret}
use mesher.Wire.Bytes.{bytes2long, bytes2int, byte_at}
use mesher.Wire.Bytes.RoundTrip.{folded_id}
use mesher.Wire.Object.{text}
use mesher.Message.{
  Request, DubboRsp, set_event, is_heartbeat, is_heart_beat_value, zero_request, dubbo_version,
}
use mesher.Codec.Decode.{decode_req_head, decode_rsp_head, success}
use mesher.Codec.Frame.{head_bytes, length_bytes, req_flag, rsp_flag}

folded_bytes :
    (i : ℕ)
    → i < 2 ^ 64
    → (byte_at i 56 * 2 ^ 56
          + byte_at i 48 * 2 ^ 48
          + byte_at i 40
          + byte_at i 32
          + byte_at i 24 * 2 ^ 24
          + byte_at i 16 * 2 ^ 16
          + byte_at i 8 * 2 ^ 8
          + byte_at i 0)
        % 2 ^ 64
      ≡ folded_id i
folded_bytes i h = omega arith

length_lem :
    (n : ℕ)
    → (byte_at (n % 2 ^ 32) 24 * 2 ^ 24
          + byte_at (n % 2 ^ 32) 16 * 2 ^ 16
          + byte_at (n % 2 ^ 32) 8 * 2 ^ 8
          + byte_at (n % 2 ^ 32) 0)
        % 2 ^ 32
      ≡ n % 2 ^ 32
length_lem n = omega arith

-- What the header tells of a request: all but its status.
abbrev pub heard : Request → Request → Request
heard req r = record r {
  msg_id = folded_id req.msg_id;
  invocation = record r.invocation { version = dubbo_version };
  two_way = req.two_way;
  event = if req.event then true else r.event;
  payload = if req.event then text [] else r.payload;
}

pub decode_req_head-head_bytes :
    (req r : Request) (n : ℕ) (l : ℤ)
    → req.msg_id < 2 ^ 64
    → decode_req_head r (head_bytes (req_flag req) req.status req.msg_id (length_bytes n)) l
      ≡ ret (success, heard req r, signed32 (n % 2 ^ 32))
unfolding decode_req_head bytes2long bytes2int set_event
decode_req_head-head_bytes req r n l h = rw (folded_bytes req.msg_id h, length_lem n) (ground arith)

-- A request's header read back on the server: for an id whose bits 32 to 47 are zero and a body
-- shorter than 2 GB it gives the id, the length, whether an answer is wanted, and whether the
-- request is an event. Every event is taken for a heartbeat.
pub decode_req_head-frame :
    (req : Request) (n : ℕ) (l : ℤ)
    → req.msg_id < 2 ^ 64
    → req.msg_id / 2 ^ 32 % 2 ^ 16 ≡ 0
    → n < 2 ^ 31
    → (r : Request) × (decode_req_head zero_request
          (head_bytes (req_flag req) req.status req.msg_id (length_bytes n))
          l
        ≡ ret (success, r, pos n))
      × (r.msg_id ≡ req.msg_id)
      × (r.two_way ≡ req.two_way)
      × (r.event ≡ req.event)
      × (is_heartbeat r ≡ req.event)
unfolding is_heartbeat is_heart_beat_value
decode_req_head-frame req n l h clear small =
    let len : signed32 (n % 2 ^ 32) ≡ pos n = ground arith in
    (
      heard req zero_request,
      decode_req_head-head_bytes req zero_request n l h
          ∙ ap (λ (k : ℤ). ret (success, heard req zero_request, k)) len,
      omega arith,
      refl,
      ground arith,
      ground arith,
    )

-- A response's header read back on the client: for an id whose bits 32 to 47 are zero and a body
-- shorter than 2 GB it gives the id, the status, the length, and the event flag, which is never
-- cleared. Everything else of the response stays.
pub decode_rsp_head-frame :
    (rsp r : DubboRsp) (n : ℕ) (l : ℤ)
    → rsp.id < 2 ^ 64
    → rsp.id / 2 ^ 32 % 2 ^ 16 ≡ 0
    → n < 2 ^ 31
    → decode_rsp_head r (head_bytes (rsp_flag rsp) rsp.status rsp.id (length_bytes n)) l
      ≡ ret (
        success,
        record r { id = rsp.id; status = rsp.status; event = rsp.event || r.event },
        pos n,
      )
unfolding decode_rsp_head bytes2long bytes2int
decode_rsp_head-frame rsp r n l h clear small =
    let len : signed32 (n % 2 ^ 32) ≡ pos n = ground arith in
    let id : folded_id rsp.id ≡ rsp.id = omega arith in
    rw (folded_bytes rsp.id h, length_lem n, id) (ground (arith, len))
