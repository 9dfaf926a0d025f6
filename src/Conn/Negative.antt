-- ===== src/Conn/Negative.antt =====
-- A header whose length field has its top bit set.
use mesher.Prelude.{
  ℕ, suc, ◌-◌, ◌%◌, ◌^◌, ◌≤◌, ◌<◌, ◌≡◌, refl, ap, ◌∙◌, List, [], ◌∷◌, false, arith,
}
use mesher.Prelude.Int.{pos, negsuc, signed32}
use mesher.Prelude.Go.{ret}
use mesher.Message.{Request, zero_request}
use mesher.Codec.Decode.{decode_req_head, success}
use mesher.Codec.Frame.{head_bytes, length_bytes, req_flag}
use mesher.Codec.RoundTrip.{heard, decode_req_head-head_bytes}
use mesher.Conn.{Segment, bytes, crashed, one_message, with_head, msg_recv_loop, server_recv_loop}
use mesher.Conn.Framing.{read_conn-whole}

-- The header of any request with a length field of 2 ^ 31 or more makes the receive loop of the server
-- panic at once: nothing that comes after it is received.
pub server_recv_loop_crashes :
    (req : Request) (n fuel : ℕ) (s : List Segment)
    → req.msg_id < 2 ^ 64
    → 2 ^ 31 ≤ n
    → n < 2 ^ 32
    → server_recv_loop
        (suc fuel)
        (bytes (head_bytes (req_flag req) req.status req.msg_id (length_bytes n)) ∷ s)
      ≡ record { tasks = []; ending = crashed }
unfolding msg_recv_loop
server_recv_loop_crashes req n fuel s h low high =
    let head = head_bytes (req_flag req) req.status req.msg_id (length_bytes n) in
    let loop = server_recv_loop fuel in
    let negative : signed32 (n % 2 ^ 32) ≡ negsuc (2 ^ 32 - n - 1) = ground arith in
    ap (λ r. one_message false (λ b. decode_req_head zero_request b (pos 0)) r loop)
      (read_conn-whole head s refl)
    ∙ ap (λ d. with_head false d s loop) (decode_req_head-head_bytes req zero_request n (pos 0) h)
    ∙ ap (λ l. with_head false (ret (success, heard req zero_request, l)) s loop) negative
