-- ===== src/Codec/Encode.antt =====
-- protocol/dubbo/dubbo/codec.go: the constants and the two encoders. The errors that the code drops
-- are dropped; a result is the int that the function returns.
use Prim.Native.Nat.{bit_or}
use mesher.Prelude.{ℕ, ◌+◌, ◌-◌, List, [], ◌∷◌, Option, none, some, replicate, if◌then◌else◌, ◌==◌}
use mesher.Prelude.Int.{ℤ, pos, negsuc}
use mesher.Prelude.Text.{Text, Table, is_empty, codes}
use mesher.Prelude.Go.{Go, ret, ◌>>=◌, store}
use mesher.Wire.Bytes.{short2bytes, long2bytes, int2bytes}
use mesher.Wire.Object.{Object, Entries, text, dict, stop, entry, is_nil}
use mesher.Wire.Hessian.{Hessian, WriteError}
use mesher.Wire.WriteBuffer.{
  WriteBuffer, write_index, write_bytes, write_object, write_byte, written_bytes,
}
use mesher.Message.{
  Argument, Invocation, Request, DubboRsp, get_attachment, is_heartbeat, dubbo_version_key,
  dubbo_version, path_key, version_key, status_ok,
}
use mesher.TypeUtil.{get_java_desc}

abbrev pub header_length : ℕ
header_length = 16

abbrev pub magic : ℕ
magic = 0xdabb

abbrev pub magic_high : ℕ
magic_high = 0xda

abbrev pub magic_low : ℕ
magic_low = 0xbb

abbrev pub flag_request : ℕ
flag_request = 0x80

abbrev pub flag_two_way : ℕ
flag_two_way = 0x40

abbrev pub flag_event : ℕ
flag_event = 0x20

abbrev pub serialization_mask : ℕ
serialization_mask = 0x1f

abbrev pub hessian2 : ℕ
hessian2 = 2

abbrev pub response_with_exception : ℕ
response_with_exception = 0

abbrev pub response_value : ℕ
response_value = 1

abbrev pub response_null_value : ℕ
response_null_value = 2

-- A map of strings as a value.
unfoldable pub text_dict : Table Text → Entries
text_dict [] = stop
text_dict ((k, v) ∷ m) = entry k (text v) (text_dict m)

unfoldable pub attachments_object : Option (Table Text) → Object
attachments_object none = dict stop
attachments_object (some m) = dict (text_dict m)

-- Header bytes 0 to 11 of a response.
unfoldable pub rsp_header : DubboRsp → Go (List ℕ)
rsp_header rsp =
    let flag = if rsp.event then bit_or hessian2 flag_event else hessian2 in
    do
      header ← short2bytes magic (replicate header_length 0) 0
      header ← store header 2 flag
      header ← store header 3 rsp.status
      long2bytes rsp.id header 4

-- Header bytes 0 to 11 of a request.
unfoldable pub req_header : Request → Go (List ℕ)
unfolding is_heartbeat
req_header req =
    let flag = bit_or flag_request hessian2 in
    let flag = if is_heartbeat req then bit_or flag flag_event else flag in
    let flag = if req.event then bit_or flag flag_event else flag in
    let flag = if req.two_way then bit_or flag flag_two_way else flag in
    do
      header ← short2bytes magic (replicate header_length 0) 0
      header ← store header 2 flag
      header ← store header 3 req.status
      long2bytes req.msg_id header 4

-- The end of both encoders: the length of the body goes into the header, the header in front of the
-- body, and the index back to the end. The index is 16 or more when this runs.
unfoldable pub finish_frame : List ℕ → WriteBuffer → Go (ℤ × WriteBuffer)
unfolding written_bytes
finish_frame header buffer =
    let len = written_bytes buffer - header_length in
    do
      header ← int2bytes len header 12
      let (e, buffer) = write_index buffer 0
      (n, buffer) ← write_bytes buffer header
      let (e', buffer) = write_index buffer (header_length + len)
      ret (pos 0, buffer)

module _ (h : Hessian) where
  -- The body of a response.
  unfoldable pub encode_rsp_body : DubboRsp → WriteBuffer → Go (Option WriteError × WriteBuffer)
  unfolding is_nil
  encode_rsp_body rsp buffer =
      if rsp.status == status_ok
      then (if rsp.event
          then write_object h buffer rsp.value
          else (if is_nil rsp.exception
              then (if is_nil rsp.value then write_byte h buffer response_null_value else (do
                (e, buffer) ← write_byte h buffer response_value
                write_object h buffer rsp.value))
              else (do
                (e, buffer) ← write_byte h buffer response_with_exception
                write_object h buffer rsp.exception)))
      else (if is_empty rsp.error_msg
          then write_byte h buffer response_null_value
          else write_object h buffer (text rsp.error_msg))

  unfoldable pub encode_dubbo_rsp : DubboRsp → WriteBuffer → Go (ℤ × WriteBuffer)
  encode_dubbo_rsp rsp buffer = do
    header ← rsp_header rsp
    let (e, buffer) = write_index buffer header_length
    (e', buffer) ← encode_rsp_body rsp buffer
    finish_frame header buffer

  -- The loop over the arguments, which ends at the first error.
  unfoldable pub write_arguments :
      List Argument → WriteBuffer → Go (Option WriteError × WriteBuffer)
  write_arguments [] buffer = ret (none, buffer)
  write_arguments (arg ∷ args) buffer = do
    (err, buffer) ← write_object h buffer arg.value
    elim err [ some e ↦ ret (some e, buffer) | none ↦ write_arguments args buffer ]

  -- The objects in front of the arguments, in the order in which they are written.
  abbrev pub request_front : Invocation → List Object
  request_front req =
      text (get_attachment req dubbo_version_key dubbo_version)
      ∷ text (get_attachment req path_key [])
      ∷ text (get_attachment req version_key (codes "0.0.0"))
      ∷ text req.method_name
      ∷ text (get_java_desc req.arguments)
      ∷ []

  -- A sequence of `WriteObject` calls with their errors dropped.
  unfoldable pub write_objects : List Object → WriteBuffer → Go WriteBuffer
  write_objects [] buffer = ret buffer
  write_objects (o ∷ os) buffer = do (e, buffer) ← write_object h buffer o; write_objects os buffer

  unfoldable pub encode_dubbo_req : Request → WriteBuffer → Go (ℤ × WriteBuffer)
  encode_dubbo_req req buffer = do
    header ← req_header req
    let (e, buffer) = write_index buffer header_length
    elim e [
      | some e ↦ ret (negsuc 0, buffer)
      | none ↦ do
        buffer ← write_objects (request_front req.invocation) buffer
        (err, buffer) ← write_arguments req.arguments buffer
        elim err [
          | some e ↦ ret (negsuc 0, buffer)
          | none ↦ do
            (e, buffer) ← write_object h buffer (attachments_object req.attachments)
            finish_frame header buffer
        ]
    ]
