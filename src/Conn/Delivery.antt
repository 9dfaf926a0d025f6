-- ===== src/Conn/Delivery.antt =====
-- From the encoder of requests on one side to the receive loop on the other.
use mesher.Prelude.{
  suc, false, ℕ, ◌/◌, ◌%◌, ◌^◌, ◌≤◌, ◌<◌, ◌≡◌, refl, sym, ap, ◌∙◌, List, [], ◌∷◌, none, arith,
  length, take, drop, All,
}
use mesher.Prelude.Int.{ℤ, pos}
use mesher.Prelude.Go.{Go, ret}
use mesher.Wire.Hessian.{Hessian}
use mesher.Wire.WriteBuffer.{WriteBuffer, get_valid_data}
use mesher.Wire.WriteBuffer.Stream.{IsValid}
use mesher.Message.{Request, zero_request}
use mesher.Codec.Encode.{encode_dubbo_req}
use mesher.Codec.Decode.{decode_req_head}
use mesher.Codec.Frame.{frame, req_flag}
use mesher.Codec.Body.{arguments_error, req_body, encode_dubbo_req-frame}
use mesher.Codec.RoundTrip.{decode_req_head-frame}
use mesher.Conn.{Segment, bytes, closed, server_recv_loop}
use mesher.Conn.Framing.{concat, segments, IsSent, Frame, stream, messages, msg_recv_loop-stream}

abbrev pub decode_head : List ℕ → Go (ℤ × Request × ℤ)
decode_head head = decode_req_head zero_request head (pos 0)

ret-inj : {A : Type 0} {a b : A} → ret a ≡ ret b → a ≡ b
ret-inj e = cc

module _ (h : Hessian) where
  -- A request that was encoded, with the bytes that are sent for it: the first 16, and the others in
  -- pieces.
  pub record Sent : Type 0 where
    pub request : Request
    pub buffer : WriteBuffer
    pub out : WriteBuffer
    pub wire_data : List ℕ
    pub pieces : List (List ℕ)
    pub valid : IsValid buffer
    pub room : 16 ≤ buffer.capacity
    pub encodable : arguments_error h request.arguments ≡ none
    pub small_id : request.msg_id < 2 ^ 64
    pub clear_id : request.msg_id / 2 ^ 32 % 2 ^ 16 ≡ 0
    pub short : length (req_body h request) < 2 ^ 31
    pub encoded : encode_dubbo_req h request buffer ≡ ret (pos 0, out)
    pub sent : get_valid_data out ≡ ret wire_data
    pub some_bytes : All IsSent pieces
    pub whole : concat pieces ≡ drop 16 wire_data

  abbrev pub wire : List Sent → List Segment
  wire [] = []
  wire (s ∷ ss) = bytes (take 16 s.wire_data) ∷ segments s.pieces (wire ss)

  -- The requests with their ids and their wishes for an answer, and the bodies as they were encoded.
  abbrev pub AreReceived : List Sent → List (Request × List ℕ) → Type 0
  AreReceived [] [] = Unit {0}
  AreReceived [] (m ∷ ms) = ⊥
  AreReceived (s ∷ ss) [] = ⊥
  AreReceived (s ∷ ss) ((r, body) ∷ ms) =
      (r.msg_id ≡ s.request.msg_id)
      × (r.two_way ≡ s.request.two_way)
      × (body ≡ req_body h s.request)
      × AreReceived ss ms

  wire_data-frame :
      (s : Sent)
      → s.wire_data
        ≡ frame (req_flag s.request) s.request.status s.request.msg_id (req_body h s.request)
  wire_data-frame s =
      let (b, e, g) = encode_dubbo_req-frame h s.request s.buffer s.valid s.room s.encodable in
      let same : b ≡ s.out = ap (λ x. x.1) (ret-inj (sym e ∙ s.encoded)) in
      ret-inj (sym s.sent ∙ ap get_valid_data (sym same) ∙ g)

  body-whole : (s : Sent) → concat s.pieces ≡ req_body h s.request
  body-whole s = s.whole ∙ ap (drop 16) (wire_data-frame s)

  abbrev One : Sent → Type 0
  One s =
      (f : Frame decode_head) × (f.head ≡ take 16 s.wire_data)
      × (f.pieces ≡ s.pieces)
      × (f.message.msg_id ≡ s.request.msg_id)
      × (f.message.two_way ≡ s.request.two_way)

  frame_of : (s : Sent) → One s
  frame_of s =
      let bs = wire_data-frame s in
      let n = length (req_body h s.request) in
      let (r, dec, id, two_way, ev, beat) =
        decode_req_head-frame s.request n (pos 0) s.small_id s.clear_id s.short in
      let size : n ≡ length (concat s.pieces) = sym (ap length (body-whole s)) in
      (
        record {
          head = take 16 s.wire_data;
          message = r;
          pieces = s.pieces;
          whole_head = ap (λ d. length (take 16 d)) bs;
          some_bytes = s.some_bytes;
          decoded =
              ap (λ d. decode_head (take 16 d)) bs ∙ dec ∙ ap (λ k. ret (pos 0, r, pos k)) size;
        },
        refl,
        refl,
        id,
        two_way,
      )

  frames :
      (ss : List Sent)
      → (fs : List (Frame decode_head)) × (stream fs ≡ wire ss)
        × (length fs ≡ length ss)
        × AreReceived ss (messages fs)
  frames [] = ([], refl, refl, tt)
  frames (s ∷ ss) =
      let (f, head, pieces, id, two_way) = frame_of s in
      let (fs, streamed, size, received) = frames ss in
      (
        f ∷ fs,
        ap (λ x. bytes x ∷ segments f.pieces (stream fs)) head
            ∙ ap (λ x. bytes (take 16 s.wire_data) ∷ segments x (stream fs)) pieces
            ∙ ap (λ x. bytes (take 16 s.wire_data) ∷ segments s.pieces x) streamed,
        ap suc size,
        (id, two_way, ap concat pieces ∙ body-whole s, received),
      )

  -- When requests are encoded, each into a valid buffer with room for a header, with ids whose bits 32 to
  -- 47 are zero and bodies under 2 GB, and what the buffers hold is sent one after another, each header in
  -- one piece and each body in any pieces, the receive loop of the server with more fuel than requests
  -- hands over as many requests, in order, with the ids, the wishes for an answer and the bodies that were
  -- encoded, and then closes the connection.
  pub server_recv_loop-encode_dubbo_req :
      (fuel : ℕ) (ss : List Sent)
      → length ss < fuel
      → (ms : List (Request × List ℕ)) × (server_recv_loop fuel (wire ss)
          ≡ record { tasks = ms; ending = closed })
        × AreReceived ss ms
  server_recv_loop-encode_dubbo_req fuel ss enough =
      let (fs, streamed, size, received) = frames ss in
      (
        messages fs,
        ap (server_recv_loop fuel) (sym streamed)
            ∙ msg_recv_loop-stream false decode_head fuel fs (omega (arith, size, enough)),
        received,
      )
