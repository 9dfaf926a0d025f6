-- ===== src/Examples/Conn.antt =====
-- The theorems on connections at concrete values.
use mesher.Prelude.{ℕ, ◌^◌, ◌≡◌, ◌≢◌, refl, List, [], ◌∷◌, Option, some, true, arith}
use mesher.Prelude.Int.{ℤ, pos}
use mesher.Prelude.Go.{Go}
use mesher.Prelude.Text.{Text, codes}
use mesher.Wire.Bytes.{bytes2long, bytes2int}
use mesher.Message.{Request, DubboRsp, zero_request, set_event}
use mesher.Codec.Decode.{decode_req_head}
use mesher.Codec.Frame.{head_bytes, length_bytes, req_flag}
use mesher.Conn.{bytes, timeout, running, closed, crashed, msg_recv_loop, server_recv_loop}
use mesher.Conn.Framing.{Frame}
use mesher.Conn.Fuel.{msg_recv_loop_ends}
use mesher.Conn.Negative.{server_recv_loop_crashes}
use mesher.Conn.Delivery.{Sent, wire, AreReceived, server_recv_loop-encode_dubbo_req}
use mesher.Codec.Frame.{frame}
use mesher.Codec.Body.{req_body, encode_dubbo_req-frame}
use mesher.Codec.Encode.{attachments_object}
use mesher.Message.{get_attachment}
use mesher.TypeUtil.{get_java_desc}
use mesher.Wire.WriteBuffer.Stream.{output, report}
use mesher.Prelude.{take, drop}
use mesher.Examples.Samples.{hessian, empty_buffer}
use mesher.Examples.Codec.{empty_buffer-IsValid, sample_arguments}
use mesher.Examples.Samples.{sample_request}

abbrev decode : List ℕ → Go (ℤ × Request × ℤ)
decode head = decode_req_head zero_request head (pos 0)

-- The header of a request of three bytes, which come in two pieces.
sample-Frame : Frame decode
unfolding decode_req_head bytes2long bytes2int set_event
sample-Frame = record {
  head = head_bytes (req_flag sample_request) 20 9 (length_bytes 3);
  message = _;
  pieces = (1 ∷ []) ∷ (2 ∷ 3 ∷ []) ∷ [];
  whole_head = refl;
  some_bytes = (omega arith, (omega arith, tt));
  decoded = refl;
}

msg_recv_loop_ends_example :
    (msg_recv_loop true
      (λ head. decode_req_head zero_request head (pos 0))
      9
      (bytes (218 ∷ 187 ∷ []) ∷ timeout ∷ bytes (1 ∷ []) ∷ [])).ending
    ≢ running
msg_recv_loop_ends_example =
    msg_recv_loop_ends true (λ head. decode_req_head zero_request head (pos 0)) 9
      (bytes (218 ∷ 187 ∷ []) ∷ timeout ∷ bytes (1 ∷ []) ∷ []) (omega arith)

server_recv_loop_crashes_example :
    server_recv_loop 1 (
      bytes (
        head_bytes
          (req_flag sample_request)
          sample_request.status
          sample_request.msg_id
          (length_bytes (2 ^ 31)))
      ∷ [])
    ≡ record { tasks = []; ending = crashed }
server_recv_loop_crashes_example =
    server_recv_loop_crashes sample_request (2 ^ 31) 0 [] (omega arith) (omega arith) (omega arith)

-- A proxy that fails and changes the id of the response.
abbrev failing : Request → DubboRsp → Option Text × Request × DubboRsp
failing req rsp = (some (codes "no service"), req, record rsp { id = 77 })

-- A request that was encoded and is sent in three pieces.
sample_sent : Sent hessian
unfolding attachments_object output get_attachment get_java_desc report
sample_sent =
    let (out, encoded, sent) =
      encode_dubbo_req-frame hessian sample_request empty_buffer empty_buffer-IsValid (omega arith)
        sample_arguments in
    let body = req_body hessian sample_request in
    record {
      request = sample_request;
      buffer = empty_buffer;
      out = out;
      wire_data = frame (req_flag sample_request) sample_request.status sample_request.msg_id body;
      pieces = take 3 body ∷ drop 3 body ∷ [];
      valid = empty_buffer-IsValid;
      room = omega arith;
      encodable = sample_arguments;
      small_id = omega arith;
      clear_id = refl;
      short = omega arith;
      encoded = encoded;
      sent = sent;
      some_bytes = (omega arith, (omega arith, tt));
      whole = refl;
    }

server_recv_loop-encode_dubbo_req_example :
    (ms : List (Request × List ℕ)) × (server_recv_loop 2 (wire hessian (sample_sent ∷ []))
      ≡ record { tasks = ms; ending = closed })
    × AreReceived hessian (sample_sent ∷ []) ms
server_recv_loop-encode_dubbo_req_example =
    server_recv_loop-encode_dubbo_req hessian 2 (sample_sent ∷ []) (omega arith)
