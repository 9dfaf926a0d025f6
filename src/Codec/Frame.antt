-- ===== src/Codec/Frame.antt =====
-- What the two encoders leave in the buffer: one frame, described byte by byte.
use mesher.Prelude.{
  ℕ, ◌+◌, ◌-◌, ◌%◌, ◌^◌, ◌≤◌, ◌≡◌, sym, ap, ◌∙◌, List, [], ◌∷◌, ◌++◌, none, length, drop,
  if◌then◌else◌, arith, take-append_add, drop-take,
}
use mesher.Prelude.Int.{pos}
use mesher.Prelude.Go.{ret}
use mesher.Wire.Bytes.{byte_at, short2bytes, long2bytes, int2bytes}
use mesher.Wire.WriteBuffer.{WriteBuffer, write_index}
use mesher.Wire.WriteBuffer.Stream.{IsValid, written, write_bytes-fitting, patched, length-patched}
use mesher.Message.{Request, DubboRsp}
use mesher.Codec.Encode.{req_header, rsp_header, finish_frame}

-- The first twelve bytes of a header: magic number, flags, status, message id, most significant byte
-- first.
abbrev pub head_bytes : ℕ → ℕ → ℕ → List ℕ → List ℕ
head_bytes flag status id rest =
    0xda
    ∷ 0xbb
    ∷ flag
    ∷ status
    ∷ byte_at id 56
    ∷ byte_at id 48
    ∷ byte_at id 40
    ∷ byte_at id 32
    ∷ byte_at id 24
    ∷ byte_at id 16
    ∷ byte_at id 8
    ∷ byte_at id 0
    ∷ rest

-- The length as an unsigned 32-bit number, most significant byte first.
abbrev pub length_bytes : ℕ → List ℕ
length_bytes n = let v = n % 2 ^ 32 in byte_at v 24 ∷ byte_at v 16 ∷ byte_at v 8 ∷ byte_at v 0 ∷ []

abbrev pub frame : ℕ → ℕ → ℕ → List ℕ → List ℕ
frame flag status id body = head_bytes flag status id (length_bytes (length body)) ++ body

-- Bit 7 marks a request, bit 6 a two-way one, bit 5 an event; the low five bits are the
-- serialization 2.
abbrev pub req_flag : Request → ℕ
req_flag req = 130 + (if req.two_way then 64 else 0) + (if req.event then 32 else 0)

abbrev pub rsp_flag : DubboRsp → ℕ
rsp_flag rsp = 2 + (if rsp.event then 32 else 0)

pub req_header-ret :
    (req : Request)
    → req_header req ≡ ret (head_bytes (req_flag req) req.status req.msg_id (0 ∷ 0 ∷ 0 ∷ 0 ∷ []))
unfolding req_header short2bytes long2bytes
req_header-ret req = ground arith

pub rsp_header-ret :
    (rsp : DubboRsp)
    → rsp_header rsp ≡ ret (head_bytes (rsp_flag rsp) rsp.status rsp.id (0 ∷ 0 ∷ 0 ∷ 0 ∷ []))
unfolding rsp_header short2bytes long2bytes
rsp_header-ret rsp = ground arith

pub write_index-ret :
    (b : WriteBuffer) (index : ℕ)
    → index ≤ b.capacity
    → write_index b index ≡ (none, record b { wr_ind = index })
unfolding write_index
write_index-ret b index h = ground arith

-- The header is patched in front of what was written behind the first 16 bytes.
pub finish_frame-ret :
    (flag status id : ℕ) (b : WriteBuffer)
    → IsValid b
    → 16 ≤ b.wr_ind
    → (b' : WriteBuffer) × (finish_frame (head_bytes flag status id (0 ∷ 0 ∷ 0 ∷ 0 ∷ [])) b
        ≡ ret (pos 0, b'))
      × IsValid b'
      × (written b'
          ≡ head_bytes flag status id (length_bytes (b.wr_ind - 16)) ++ drop 16 (written b))
unfolding finish_frame int2bytes
finish_frame-ret flag status id b v h =
    let len : ℕ = b.wr_ind - 16 in
    let hdr : List ℕ = head_bytes flag status id (length_bytes len) in
    let b0 : WriteBuffer = record b { wr_ind = 0 } in
    let v0 : IsValid b0 = record { sized = v.sized; within = omega arith } in
    let fits : 16 ≤ length b.buffer = omega (arith, v.sized, v.within) in
    (
      record b { buffer = patched b.buffer 0 hdr; wr_ind = 16 + len },
      rw (
        write_index-ret b 0 (omega arith),
        write_bytes-fitting b0 hdr v0 (omega (arith, v.within)),
        write_index-ret (record b { buffer = patched b.buffer 0 hdr; wr_ind = 16 }) (16 + len)
            (omega (arith, v.within)),
      ),
      record {
        sized = length-patched b.buffer 0 hdr (omega arith) ∙ v.sized;
        within = omega (arith, v.within);
      },
      unfold patched in
          (take-append_add hdr (drop 16 b.buffer) len
            ∙ ap (λ (w : List ℕ). hdr ++ w) (sym (drop-take 16 b.wr_ind b.buffer))),
    )
