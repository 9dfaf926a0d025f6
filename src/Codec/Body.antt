-- ===== src/Codec/Body.antt =====
-- The bodies that the encoders write, and the whole frames.
use mesher.Prelude.{
  ℕ, ◌-◌, ◌≤◌, ◌<◌, ◌≡◌, refl, sym, ap, subst, ◌∙◌, List, [], ◌∷◌, ◌++◌, Option, none, some, false,
  length, take, drop, if◌then◌else◌, arith, append-nil, length-take, drop-append, Bool-cases, inl,
  inr, Option-cases, ◌==◌, ◌⊎◌, leb, leb→le,
}
use mesher.Prelude.Int.{pos, negsuc}
use mesher.Prelude.Text.{is_empty}
use mesher.Prelude.Go.{Go, ret, ◌>>=◌}
use mesher.Wire.Object.{Object, text, int32, is_nil}
use mesher.Wire.Hessian.{Hessian, WriteError}
use mesher.Wire.WriteBuffer.{WriteBuffer, write_index, write_object, write_byte, get_valid_data}
use mesher.Wire.WriteBuffer.Stream.{
  IsValid, written, Appends, Appends-trans, output, report, run_encoder-Appends, slice-front,
}
use mesher.Message.{Argument, Request, DubboRsp, status_ok}
use mesher.Codec.Encode.{
  request_front, write_objects, write_arguments, attachments_object, encode_dubbo_req,
  encode_rsp_body, encode_dubbo_rsp, finish_frame,
}
use mesher.Codec.Frame.{
  head_bytes, frame, req_flag, rsp_flag, req_header-ret, rsp_header-ret, write_index-ret,
  finish_frame-ret,
}

get_valid_data-ret : (b : WriteBuffer) → IsValid b → get_valid_data b ≡ ret (written b)
unfolding get_valid_data
get_valid_data-ret b v = slice-front b.buffer b.wr_ind (omega (arith, v.sized, v.within))

drop_front : (n : ℕ) (xs ys : List ℕ) → length xs ≡ n → drop n (xs ++ ys) ≡ ys
drop_front n xs ys e = subst (λ k. drop k (xs ++ ys) ≡ ys) e (drop-append xs ys)

module _ (h : Hessian) where
  -- The bytes of one object, and of objects in a row.
  abbrev pub object_bytes : Object → List ℕ
  object_bytes o = output (h.to_bytes2 o)

  abbrev pub objects_bytes : List Object → List ℕ
  objects_bytes [] = []
  objects_bytes (o ∷ os) = object_bytes o ++ objects_bytes os

  -- The bytes of the arguments up to the first that cannot be encoded, and its error.
  abbrev pub arguments_bytes : List Argument → List ℕ
  arguments_bytes [] = []
  arguments_bytes (a ∷ args) = elim (report (h.to_bytes2 a.value)) [
    | some e ↦ object_bytes a.value
    | none ↦ object_bytes a.value ++ arguments_bytes args
  ]

  abbrev pub arguments_error : List Argument → Option WriteError
  arguments_error [] = none
  arguments_error (a ∷ args) = elim (report (h.to_bytes2 a.value)) [
    | some e ↦ some e
    | none ↦ arguments_error args
  ]

  write_object-Appends :
      (o : Object) (b : WriteBuffer)
      → IsValid b
      → (b' : WriteBuffer) × (write_object h b o ≡ ret (report (h.to_bytes2 o), b'))
        × Appends b b' (object_bytes o)
  unfolding write_object
  write_object-Appends o b v = run_encoder-Appends (h.to_bytes2 o) b v

  Appends-none : (b : WriteBuffer) → IsValid b → Appends b b []
  Appends-none b v = record {
    valid = v;
    content = sym (append-nil (written b));
    index = omega arith;
    kept = omega arith;
  }

  write_objects-Appends :
      (os : List Object) (b : WriteBuffer)
      → IsValid b
      → (b' : WriteBuffer) × (write_objects h os b ≡ ret b') × Appends b b' (objects_bytes os)
  unfolding write_objects
  write_objects-Appends [] b v = (b, refl, Appends-none b v)
  write_objects-Appends (o ∷ os) b v =
      let (m, first, a) = write_object-Appends o b v in
      let (b', rest, a') = write_objects-Appends os m a.valid in
      (b', rw (first) rest, Appends-trans (object_bytes o) (objects_bytes os) a a')

  write_arguments-Appends :
      (args : List Argument) (b : WriteBuffer)
      → IsValid b
      → (b' : WriteBuffer) × (write_arguments h args b ≡ ret (arguments_error args, b'))
        × Appends b b' (arguments_bytes args)
  unfolding write_arguments
  write_arguments-Appends [] b v = (b, refl, Appends-none b v)
  write_arguments-Appends (a ∷ args) b v =
      let (m, first, p) = write_object-Appends a.value b v in
      elim (Option-cases (report (h.to_bytes2 a.value))) [
        | inl fine ↦
            let (b', rest, p') = write_arguments-Appends args m p.valid in
            (
              b',
              rw (first, fine, arguments_error) rest,
              rw (fine, arguments_bytes)
                  (Appends-trans (object_bytes a.value) (arguments_bytes args) p p'),
            )
        | inr (e, bad) ↦ (m, rw (first, bad, arguments_error), rw (bad, arguments_bytes) p)
      ]

  -- The body of a request: the attachments of the protocol, the method, the descriptor, the
  -- arguments and the map of attachments.
  abbrev pub req_body : Request → List ℕ
  req_body req =
      objects_bytes (request_front h req.invocation)
      ++ (arguments_bytes req.arguments ++ object_bytes (attachments_object req.attachments))

  -- A frame behind whatever the first 16 bytes of the buffer hold.
  frame_after :
      (flag status id : ℕ) (b m : WriteBuffer) (body : List ℕ)
      → IsValid b
      → 16 ≤ b.capacity
      → Appends (record b { wr_ind = 16 }) m body
      → (b' : WriteBuffer) × (finish_frame (head_bytes flag status id (0 ∷ 0 ∷ 0 ∷ 0 ∷ [])) m
          ≡ ret (pos 0, b'))
        × (get_valid_data b' ≡ ret (frame flag status id body))
  frame_after flag status id b m body v room a =
      let front : length (take 16 b.buffer) ≡ 16 =
        omega (arith, length-take 16 b.buffer, v.sized) in
      let (b', done, valid, content) =
        finish_frame-ret flag status id m a.valid (omega (arith, a.index)) in
      let size : m.wr_ind - 16 ≡ length body = omega (arith, a.index) in
      let behind : drop 16 (written m) ≡ body =
        ap (drop 16) a.content ∙ drop_front 16 (take 16 b.buffer) body front in
      (b', done, get_valid_data-ret b' valid ∙ ap ret (content ∙ rw (size, behind)))

  -- A request whose arguments can all be encoded becomes one frame, whatever a buffer of at least 16
  -- bytes held before: the header says what the request is and how long the body is.
  pub encode_dubbo_req-frame :
      (req : Request) (b : WriteBuffer)
      → IsValid b
      → 16 ≤ b.capacity
      → arguments_error req.arguments ≡ none
      → (b' : WriteBuffer) × (encode_dubbo_req h req b ≡ ret (pos 0, b'))
        × (get_valid_data b' ≡ ret (frame (req_flag req) req.status req.msg_id (req_body req)))
  unfolding encode_dubbo_req
  encode_dubbo_req-frame req b v room fine =
      let start : WriteBuffer = record b { wr_ind = 16 } in
      let valid : IsValid start = record { sized = v.sized; within = room } in
      let (m1, e1, a1) = write_objects-Appends (request_front h req.invocation) start valid in
      let (m2, e2, a2) = write_arguments-Appends req.arguments m1 a1.valid in
      let (m3, e3, a3) = write_object-Appends (attachments_object req.attachments) m2 a2.valid in
      let whole = Appends-trans _ _ a1 (Appends-trans _ _ a2 a3) in
      let (b', done, bytes) =
        frame_after (req_flag req) req.status req.msg_id b m3 (req_body req) v room whole in
      (
        b',
        rw
            (
              req_header-ret req,
              write_index-ret b 16 room,
              write_index-ret b 16 room,
              e1,
              e2,
              fine,
              e3,
            )
            done,
        bytes,
      )

  -- A request with an argument that cannot be encoded, and any request for a buffer of less than 16
  -- bytes, gives -1.
  encode_dubbo_req_failure :
      (req : Request) (b : WriteBuffer)
      → IsValid b
      → (b.capacity < 16) ⊎ ((e : WriteError) × (arguments_error req.arguments ≡ some e))
      → (b' : WriteBuffer) × (encode_dubbo_req h req b ≡ ret (negsuc 0, b'))
  unfolding encode_dubbo_req write_index
  encode_dubbo_req_failure req b v (inl small) =
      let over : leb 16 b.capacity ≡ false = ground arith in
      (b, rw (req_header-ret req, over, over))
  encode_dubbo_req_failure req b v (inr (e, bad)) = elim (Bool-cases (leb 16 b.capacity)) [
    | inr over ↦ (b, rw (req_header-ret req, over, over))
    | inl room ↦
        let start : WriteBuffer = record b { wr_ind = 16 } in
        let valid : IsValid start = record {
          sized = v.sized;
          within = leb→le 16 b.capacity room;
        } in
        let (m1, e1, a1) = write_objects-Appends (request_front h req.invocation) start valid in
        let (m2, e2, a2) = write_arguments-Appends req.arguments m1 a1.valid in
        (m2, rw (req_header-ret req, room, room, e1, e2, bad))
  ]

  -- A request with an argument that cannot be encoded leaves the first 16 bytes of the buffer as they were
  -- and the bytes up to the argument behind them.
  pub encode_dubbo_req-aborted :
      (req : Request) (b : WriteBuffer) (e : WriteError)
      → IsValid b
      → 16 ≤ b.capacity
      → arguments_error req.arguments ≡ some e
      → (b' : WriteBuffer) × (encode_dubbo_req h req b ≡ ret (negsuc 0, b'))
        × (get_valid_data b'
            ≡ ret (
                take 16 b.buffer
                ++ (objects_bytes (request_front h req.invocation)
                    ++ arguments_bytes req.arguments)))
  unfolding encode_dubbo_req
  encode_dubbo_req-aborted req b e v room bad =
      let start : WriteBuffer = record b { wr_ind = 16 } in
      let valid : IsValid start = record { sized = v.sized; within = room } in
      let (m1, e1, a1) = write_objects-Appends (request_front h req.invocation) start valid in
      let (m2, e2, a2) = write_arguments-Appends req.arguments m1 a1.valid in
      let whole = Appends-trans _ _ a1 a2 in
      (
        m2,
        rw (req_header-ret req, write_index-ret b 16 room, write_index-ret b 16 room, e1, e2, bad),
        get_valid_data-ret m2 a2.valid ∙ ap ret whole.content,
      )

  -- The objects of a response's body: one for an event, the kind of the result and its value, or the
  -- error message.
  abbrev pub rsp_objects : DubboRsp → List Object
  rsp_objects rsp =
      if rsp.status == status_ok
      then (if rsp.event
          then rsp.value ∷ []
          else (if is_nil rsp.exception
              then (if is_nil rsp.value then int32 2 ∷ [] else int32 1 ∷ rsp.value ∷ [])
              else int32 0 ∷ rsp.exception ∷ []))
      else (if is_empty rsp.error_msg then int32 2 ∷ [] else text rsp.error_msg ∷ [])

  Wrote : Go (Option WriteError × WriteBuffer) → WriteBuffer → List Object → Type 0
  Wrote r b os =
      (b' : WriteBuffer) × (e : Option WriteError) × (r ≡ ret (e, b'))
      × Appends b b' (objects_bytes os)

  one : (o : Object) (b : WriteBuffer) → IsValid b → Wrote (write_object h b o) b (o ∷ [])
  unfolding Wrote
  one o b v =
      let (b', e, a) = write_object-Appends o b v in
      (b', report (h.to_bytes2 o), e, Appends-trans (object_bytes o) [] a (Appends-none b' a.valid))

  two :
      (o p : Object) (b : WriteBuffer)
      → IsValid b
      → Wrote (do (e, b) ← write_object h b o; write_object h b p) b (o ∷ p ∷ [])
  unfolding Wrote
  two o p b v =
      let (m, e, a) = write_object-Appends o b v in
      let (b', e', a') = write_object-Appends p m a.valid in
      (
        b',
        report (h.to_bytes2 p),
        rw (e) e',
        Appends-trans (object_bytes o) _ a
            (Appends-trans (object_bytes p) [] a' (Appends-none b' a'.valid)),
      )

  encode_rsp_body-Appends :
      (rsp : DubboRsp) (b : WriteBuffer)
      → IsValid b
      → Wrote (encode_rsp_body h rsp b) b (rsp_objects rsp)
  unfolding encode_rsp_body write_byte write_object
  encode_rsp_body-Appends rsp b v = elim (Bool-cases (rsp.status == status_ok)) [
    | inr bad ↦ elim (Bool-cases (is_empty rsp.error_msg)) [
      | inl none_left ↦ rw (bad, none_left) (one (int32 2) b v)
      | inr message ↦ rw (bad, message) (one (text rsp.error_msg) b v)
    ]
    | inl fine ↦ elim (Bool-cases rsp.event) [
      | inl event ↦ rw (fine, event) (one rsp.value b v)
      | inr plain ↦ elim (Bool-cases (is_nil rsp.exception)) [
        | inr raised ↦ rw (fine, plain, raised) (two (int32 0) rsp.exception b v)
        | inl returned ↦ elim (Bool-cases (is_nil rsp.value)) [
          | inl null ↦ rw (fine, plain, returned, null) (one (int32 2) b v)
          | inr value ↦ rw (fine, plain, returned, value) (two (int32 1) rsp.value b v)
        ]
      ]
    ]
  ]

  -- Every response becomes one frame, whatever a buffer of at least 16 bytes held before; the errors
  -- of its objects are dropped.
  pub encode_dubbo_rsp-frame :
      (rsp : DubboRsp) (b : WriteBuffer)
      → IsValid b
      → 16 ≤ b.capacity
      → (b' : WriteBuffer) × (encode_dubbo_rsp h rsp b ≡ ret (pos 0, b'))
        × (get_valid_data b'
            ≡ ret (frame (rsp_flag rsp) rsp.status rsp.id (objects_bytes (rsp_objects rsp))))
  unfolding encode_dubbo_rsp Wrote
  encode_dubbo_rsp-frame rsp b v room =
      let start : WriteBuffer = record b { wr_ind = 16 } in
      let (m, e, made, a) =
        encode_rsp_body-Appends rsp start (record { sized = v.sized; within = room }) in
      let (b', done, bytes) = frame_after (rsp_flag rsp) rsp.status rsp.id b m _ v room a in
      (b', rw (rsp_header-ret rsp, write_index-ret b 16 room, made) done, bytes)
