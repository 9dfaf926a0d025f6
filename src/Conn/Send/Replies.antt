-- ===== src/Conn/Send/Replies.antt =====
-- From the send loop of the server to the receive loop of the client.
use mesher.Prelude.{
  ℕ, suc, ◌<◌, ◌≤◌, ◌≡◌, ◌^◌, ◌/◌, ◌%◌, refl, sym, ap, ◌∙◌, List, [], ◌∷◌, Bool, true, false, ◌||◌,
  arith, length, take, drop, All,
}
use mesher.Prelude.Int.{ℤ, pos}
use mesher.Prelude.Go.{Go, ret}
use mesher.Wire.Hessian.{Hessian}
use mesher.Wire.WriteBuffer
use mesher.Wire.WriteBuffer.Stream.{init-IsValid}
use mesher.Message.{DubboRsp, zero_rsp}
use mesher.Codec.Decode.{decode_rsp_head}
use mesher.Codec.Body.{rsp_objects, objects_bytes, encode_dubbo_rsp-frame}
use mesher.Codec.Frame.{frame, rsp_flag}
use mesher.Codec.RoundTrip.{decode_rsp_head-frame}
use mesher.Conn.{Segment, bytes, closed, client_recv_loop}
use mesher.Conn.Framing.{concat, segments, IsSent, Frame, stream, messages, msg_recv_loop-stream}
use mesher.Conn.Send.{msg_snd_loop, encode_rsp, server_snd_loop}

-- How the connection cuts the bytes behind the header of each write.
pub record Cutting : Type 0 where
  pub cut : ℕ → List ℕ → List (List ℕ)
  pub whole : (n : ℕ) (b : List ℕ) → concat (cut n b) ≡ b
  pub some_bytes : (n : ℕ) (b : List ℕ) → All IsSent (cut n b)

-- What arrives of the writes from the n-th on: each header in one piece, the rest in any pieces.
abbrev pub arriving : Cutting → ℕ → List (List ℕ) → List Segment
arriving c n [] = []
arriving c n (d ∷ ds) = bytes (take 16 d) ∷ segments (c.cut n (drop 16 d)) (arriving c (suc n) ds)

-- The messages up to the first whose write fails.
abbrev pub sent {ℓ} : {M : Type ℓ} → List (M × Bool) → List M
sent [] = []
sent ((m, true) ∷ ms) = m ∷ sent ms
sent ((m, false) ∷ ms) = []

module _ {M N : Type 0} (encode : M → Go (List ℕ)) (decode : List ℕ → Go (ℤ × N × ℤ))
    (heard : M → N) (body : M → List ℕ) where
  -- A message is written as a header, which the other side decodes to the length of the body, and its
  -- body.
  record Framed (m : M) : Type 0 where
    out : List ℕ
    encoded : encode m ≡ ret out
    long : length (take 16 out) ≡ 16
    decoded : decode (take 16 out) ≡ ret (pos 0, heard m, pos (length (drop 16 out)))
    behind : drop 16 out ≡ body m

  heard_all : List M → List (N × List ℕ)
  heard_all [] = []
  heard_all (m ∷ ms) = (heard m, body m) ∷ heard_all ms

  frame_of : (c : Cutting) (n : ℕ) (m : M) → Framed m → Frame decode
  frame_of c n m f = record {
    head = take 16 f.out;
    message = heard m;
    pieces = c.cut n (drop 16 f.out);
    whole_head = f.long;
    some_bytes = c.some_bytes n (drop 16 f.out);
    decoded =
        f.decoded
        ∙ ap (λ b. ret (pos 0, heard m, pos (length b))) (sym (c.whole n (drop 16 f.out)));
  }

  frames :
      (c : Cutting) (n : ℕ) (ms : List (M × Bool))
      → All (λ m. Framed m.0) ms
      → (fs : List (Frame decode)) × (stream fs ≡ arriving c n (msg_snd_loop encode ms).writes)
        × (length fs ≡ length (sent ms))
        × (messages fs ≡ heard_all (sent ms))
        × ((msg_snd_loop encode ms).ending ≡ closed)
  unfolding msg_snd_loop frame_of heard_all
  frames c n [] a = ([], refl, refl, refl, refl)
  frames c n ((m, false) ∷ ms) (f, a) = ([], rw f.encoded refl, refl, refl, rw f.encoded refl)
  frames c n ((m, true) ∷ ms) (f, a) =
      let (fs, streamed, size, received, ended) = frames c (suc n) ms a in
      (
        frame_of c n m f ∷ fs,
        rw f.encoded
            (ap (λ s. bytes (take 16 f.out) ∷ segments (c.cut n (drop 16 f.out)) s) streamed),
        ap suc size,
        ap (λ b. (heard m, b) ∷ messages fs) (c.whole n (drop 16 f.out) ∙ f.behind)
            ∙ ap (λ l. (heard m, body m) ∷ l) received,
        rw f.encoded ended,
      )

-- A response with an id whose bits 32 to 47 are zero and a body shorter than 2 GB.
pub record IsSendable (h : Hessian) (rsp : DubboRsp) : Type 0 where
  pub small : rsp.id < 2 ^ 64
  pub clear : rsp.id / 2 ^ 32 % 2 ^ 16 ≡ 0
  pub short : length (objects_bytes h (rsp_objects h rsp)) < 2 ^ 31

module _ (h : Hessian) where
  abbrev pub decode_head : List ℕ → Go (ℤ × DubboRsp × ℤ)
  decode_head head = decode_rsp_head zero_rsp head (pos 0)

  -- The head of a response in a new one.
  abbrev pub heard_rsp : DubboRsp → DubboRsp
  heard_rsp rsp = record zero_rsp { id = rsp.id; status = rsp.status; event = rsp.event }

  abbrev pub rsp_body : DubboRsp → List ℕ
  rsp_body rsp = objects_bytes h (rsp_objects h rsp)

  -- The tasks of the client for responses.
  abbrev pub answers : List DubboRsp → List (DubboRsp × List ℕ)
  answers [] = []
  answers (rsp ∷ rsps) = (heard_rsp rsp, rsp_body rsp) ∷ answers rsps

  rsp-Framed :
      (rsp : DubboRsp) → IsSendable h rsp → Framed (encode_rsp h) decode_head heard_rsp rsp_body rsp
  rsp-Framed rsp s =
      let room : 16 ≤ (WriteBuffer.init 0).capacity = unfold WriteBuffer.init in omega arith in
      let (b, made, got) =
        encode_dubbo_rsp-frame h rsp (WriteBuffer.init 0) (init-IsValid 0) room in
      let same : (rsp.event || false) ≡ rsp.event = ground arith in
      let head = decode_rsp_head-frame rsp zero_rsp _ (pos 0) s.small s.clear s.short in
      record {
        out = frame (rsp_flag rsp) rsp.status rsp.id (rsp_body rsp);
        encoded = rw made got;
        long = refl;
        decoded = rw same at head;
        behind = refl;
      }

  Framed-All :
      (ms : List (DubboRsp × Bool))
      → All (λ m. IsSendable h m.0) ms
      → All (λ m. Framed (encode_rsp h) decode_head heard_rsp rsp_body m.0) ms
  Framed-All [] a = tt
  Framed-All ((rsp, ok) ∷ ms) (s, a) = (rsp-Framed rsp s, Framed-All ms a)

  heard_all-answers :
      (rsps : List DubboRsp)
      → heard_all (encode_rsp h) decode_head heard_rsp rsp_body rsps ≡ answers rsps
  unfolding heard_all
  heard_all-answers [] = refl
  heard_all-answers (rsp ∷ rsps) =
      ap (λ l. (heard_rsp rsp, rsp_body rsp) ∷ l) (heard_all-answers rsps)

  -- For responses with ids whose bits 32 to 47 are zero and bodies under 2 GB, the send loop of the server
  -- ends by closing the connection, and when each header arrives in one piece and each body in any
  -- pieces, the receive loop of the client with more fuel than responses that were sent hands over those
  -- up to the first whose write failed, in order, with their ids, states, event flags and bodies, and then
  -- closes its side.
  pub client_recv_loop-server_snd_loop :
      (c : Cutting) (fuel : ℕ) (ms : List (DubboRsp × Bool))
      → All (λ m. IsSendable h m.0) ms
      → length (sent ms) < fuel
      → ((server_snd_loop h ms).ending ≡ closed)
        × (client_recv_loop fuel (arriving c 0 (server_snd_loop h ms).writes)
            ≡ record { tasks = answers (sent ms); ending = closed })
  client_recv_loop-server_snd_loop c fuel ms a enough =
      let (fs, streamed, size, received, ended) =
        frames (encode_rsp h) decode_head heard_rsp rsp_body c 0 ms (Framed-All ms a) in
      (
        ended,
        ap (client_recv_loop fuel) (sym streamed)
            ∙ msg_recv_loop-stream true decode_head fuel fs (omega (arith, size, enough))
            ∙ ap (λ l. record { tasks = l; ending = closed })
                (received ∙ heard_all-answers (sent ms)),
      )
