-- ===== src/SimpleRegistry/Answers.antt =====
-- The registry's answers to requests that come one by one.
use mesher.Prelude.{
  Bool, ℕ, zero, suc, ◌<◌, ◌≤◌, ◌≡◌, ◌^◌, ◌/◌, ◌%◌, refl, ap, ◌∙◌, List, [], ◌∷◌, ◌++◌, arith,
  length, drop, take-length, length-append, length-drop,
}
use mesher.Prelude.Int.{pos}
use mesher.Prelude.Go.{ret}
use mesher.Wire.Hessian.{Hessian}
use mesher.Wire.WriteBuffer
use mesher.Wire.WriteBuffer.{overwrite}
use mesher.Wire.WriteBuffer.Stream.{init-IsValid, overwrite_lem}
use mesher.Message.{Request}
use mesher.Codec.Frame.{frame, req_flag, rsp_flag}
use mesher.Codec.Body.{rsp_objects, objects_bytes, encode_dubbo_rsp-frame}
use mesher.Codec.RoundTrip.{decode_req_head-frame}
use mesher.Conn.{Segment, bytes, got, left_over, read_conn, closed}
use mesher.Conn.Send.{Sending}
use mesher.SimpleRegistry.{void_rsp, send_void_respond, answer, wrote, one_read, handle_conn}

-- A request with any body, as it was framed; it fits into one read.
pub record Message : Type 0 where
  pub request : Request
  pub body : List ℕ
  pub small : request.msg_id < 2 ^ 64
  pub clear : request.msg_id / 2 ^ 32 % 2 ^ 16 ≡ 0
  pub fits : length body ≤ 1008

abbrev pub framed : Message → List ℕ
framed m = frame (req_flag m.request) m.request.status m.request.msg_id m.body

abbrev pub one_by_one : List Message → List Segment
one_by_one [] = []
one_by_one (m ∷ ms) = bytes (framed m) ∷ one_by_one ms

overwrite-framed :
    (buf : List ℕ) (m : Message)
    → length buf ≡ 1024
    → (overwrite buf (framed m) ≡ framed m ++ drop (length (framed m)) buf)
      × (length (overwrite buf (framed m)) ≡ 1024)
overwrite-framed buf m size =
    let fits = m.fits in
    let over = overwrite_lem buf (framed m) (omega (arith, size)) in
    (
      over,
      omega (
        arith,
        ap length over,
        length-append (framed m) (drop (length (framed m)) buf),
        length-drop (length (framed m)) buf,
        size,
      ),
    )

empty_if : (b : List ℕ) → length b ≡ 0 → b ≡ []
empty_if [] e = refl
empty_if (c ∷ b) e = absurd (omega (arith, e))

drop_past : (n : ℕ) (b : List ℕ) → length b ≤ n → drop n b ≡ []
drop_past n b h = empty_if (drop n b) (omega (arith, length-drop n b))

module _ (h : Hessian) where
  abbrev pub void_bytes : Bool → ℕ → List ℕ
  void_bytes event id =
      let rsp = void_rsp event id in
      frame (rsp_flag rsp) rsp.status rsp.id (objects_bytes h (rsp_objects h rsp))

  abbrev pub void_frame : Request → List ℕ
  void_frame req = void_bytes req.event req.msg_id

  -- A response for each request, with its id and its event flag.
  abbrev pub void_frames : List Message → List (List ℕ)
  void_frames [] = []
  void_frames (m ∷ ms) = void_frame m.request ∷ void_frames ms

  send_void_respond-frame : (req : Request) → send_void_respond h req ≡ ret (void_frame req)
  unfolding send_void_respond
  send_void_respond-frame req =
      let room : 16 ≤ (WriteBuffer.init 1024).capacity = unfold WriteBuffer.init in omega arith in
      let (b, made, valid) =
        encode_dubbo_rsp-frame h (void_rsp req.event req.msg_id) (WriteBuffer.init 1024)
          (init-IsValid 1024) room in
      rw made valid

  answer-framed :
      (m : Message) (rest : List ℕ) → answer h (framed m ++ rest) ≡ ret (void_frame m.request)
  unfolding answer
  answer-framed m rest =
      let fits = m.fits in
      let (r, decoded, id, two_way, event, beat) =
        decode_req_head-frame m.request (length m.body) (pos 0) m.small m.clear (omega arith) in
      rw decoded (
        send_void_respond-frame r
        ∙ ap (λ e. ret (void_bytes e r.msg_id)) event
        ∙ ap (λ i. ret (void_bytes m.request.event i)) id)

  read_conn-framed :
      (m : Message) (s : List Segment) → read_conn 1024 (bytes (framed m) ∷ s) ≡ (got (framed m), s)
  unfolding read_conn
  read_conn-framed m s =
      let fits = m.fits in
      ap (λ b. (got b, left_over (drop 1024 (framed m)) s))
        (take-length 1024 (framed m) (omega arith))
      ∙ ap (λ b. (got (framed m), left_over b s)) (drop_past 1024 (framed m) (omega arith))

  -- For requests that each come in one read of at most 1024 bytes, with ids whose bits 32 to 47 are zero
  -- and any bodies, the registry with more fuel than requests writes one response for each, in order, with
  -- the id and the event flag of the request, and then closes the connection.
  pub handle_conn-answers :
      (fuel : ℕ) (buf : List ℕ) (ms : List Message)
      → length buf ≡ 1024
      → length ms < fuel
      → handle_conn h fuel buf (one_by_one ms) ≡ record { writes = void_frames ms; ending = closed }
  unfolding handle_conn
  handle_conn-answers zero buf ms size enough = absurd (omega (arith, enough))
  handle_conn-answers (suc fuel) buf [] size enough = unfold read_conn in refl
  handle_conn-answers (suc fuel) buf (m ∷ ms) size enough =
      let (over, size') = overwrite-framed buf m size in
      let buf' = overwrite buf (framed m) in
      let answered : answer h buf' ≡ ret (void_frame m.request) =
        ap (answer h) over ∙ answer-framed m (drop (length (framed m)) buf) in
      ap (one_read h (handle_conn h fuel) buf) (read_conn-framed m (one_by_one ms))
      ∙ ap (λ a. wrote h a (handle_conn h fuel buf' (one_by_one ms))) answered
      ∙ ap (λ (x : Sending). record { writes = void_frame m.request ∷ x.writes; ending = x.ending })
          (handle_conn-answers fuel buf' ms size' (omega arith))
