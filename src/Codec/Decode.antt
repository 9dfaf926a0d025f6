-- ===== src/Codec/Decode.antt =====
-- protocol/dubbo/dubbo/codec.go: the decoders of headers and bodies. The result is the int that the
-- function returns; `body_len` is what the pointer of that name refers to.
use Prim.Native.Nat.{bit_and}
use mesher.Prelude.{
  ℕ, zero, suc, ◌+◌, List, [], Option, none, some, Bool, true, false, not, ◌||◌, length, ltb,
  if◌then◌else◌, ◌==◌,
}
use mesher.Prelude.Int.{ℤ, pos, negsuc, signed32}
use mesher.Prelude.Text.{Text, Table, is_empty, codes, text_eq}
use mesher.Prelude.Go.{Go, ret, ◌>>=◌, load, store}
use mesher.Wire.Bytes.{bytes2long, bytes2int}
use mesher.Wire.Object.{Object, nil, text}
use mesher.Wire.Hessian.{Hessian}
use mesher.Wire.ReadBuffer.{ReadBuffer, read_object, read_byte, read_string, read_map}
use mesher.Message.{
  Argument, Request, DubboRsp, get_attachment, set_attachment, set_event, is_heartbeat,
  dubbo_version_key, dubbo_version, path_key, version_key, heart_beat_event, status_ok,
  service_error, server_error,
}
use mesher.TypeUtil.{type_des_to_args}
use mesher.Codec.Encode.{
  header_length, magic_high, magic_low, flag_request, flag_two_way, flag_event, serialization_mask,
  hessian2, response_with_exception, response_value, response_null_value,
}

abbrev pub success : ℤ
success = pos 0

abbrev pub failure : ℤ
failure = negsuc 0

abbrev pub need_more : ℤ
need_more = negsuc 0

abbrev pub invalid_fragment : ℤ
invalid_fragment = negsuc 1

abbrev pub invalid_serialization : ℤ
invalid_serialization = negsuc 2

unfoldable pub decode_req_head : Request → List ℕ → ℤ → Go (ℤ × Request × ℤ)
decode_req_head req header body_len =
    if ltb (length header) header_length then ret (need_more, req, body_len) else (do
      m0 ← load header 0
      m1 ← load header 1
      if not (m0 == magic_high) || not (m1 == magic_low)
          then ret (invalid_fragment, req, body_len)
          else (do
            id ← bytes2long header 4
            flag ← load header 2
            if not (bit_and flag serialization_mask == hessian2)
                then ret (invalid_serialization, req, body_len)
                else (if bit_and flag flag_request == 0
                    then ret (invalid_fragment, req, body_len)
                    else (do
                      let req = record req {
                        msg_id = id;
                        invocation = record req.invocation { version = dubbo_version };
                        two_way = not (bit_and flag flag_two_way == 0);
                      }
                      let req =
                          if not (bit_and flag flag_event == 0)
                          then set_event req heart_beat_event
                          else req
                      len ← bytes2int header 12
                      ret (success, req, signed32 len)))))

-- There is no test of the header's length here.
unfoldable pub decode_rsp_head : DubboRsp → List ℕ → ℤ → Go (ℤ × DubboRsp × ℤ)
decode_rsp_head rsp header body_len = do
  m0 ← load header 0
  m1 ← load header 1
  if not (m0 == magic_high) || not (m1 == magic_low)
      then ret (invalid_fragment, rsp, body_len)
      else (do
        id ← bytes2long header 4
        flag ← load header 2
        let rsp = record rsp {
          id = id;
          event = if not (bit_and flag flag_event == 0) then true else rsp.event;
        }
        if not (bit_and flag serialization_mask == hessian2)
            then ret (invalid_serialization, rsp, body_len)
            else (do
              status ← load header 3
              len ← bytes2int header 12
              ret (success, record rsp { status = status }, signed32 len)))

-- `SetStatus(ServerError)` and `SetErrorMsg(err.Error())`
abbrev pub rsp_failed : DubboRsp → Text → DubboRsp
rsp_failed rsp msg = record rsp { status = server_error; error_msg = msg }

-- The error message of a response that is not ok.
unfoldable pub error_text : Object → Text
error_text (text s) = s
error_text obj = codes "unknown error"

-- `SetBroken(true)` and `SetData(err.Error())`
abbrev pub broken : Request → Text → Request
broken req msg = record req { is_broken = true; payload = text msg }

-- `SetAttachments`, `SetBroken(false)` and `SetData(obj)` with an `obj` that was never set
abbrev pub accepted : Request → Table Text → Request
accepted req m = record req {
  invocation = record req.invocation { attachments = some m };
  is_broken = false;
  payload = nil;
}

module _ (h : Hessian) where
  -- The branch of a plain result: null, a value, an exception, or any other tag, for which the
  -- value stays nil.
  unfoldable pub decode_result : ReadBuffer → DubboRsp → Go (ℤ × DubboRsp × ReadBuffer)
  decode_result buffer rsp = do
    (value_type, buffer) ← read_byte h buffer
    if value_type == response_null_value
        then ret (pos 0, record rsp { value = nil }, buffer)
        else (if value_type == response_value
            then (do
              (obj, err, buffer) ← read_object h buffer
              elim err [
                | some msg ↦ ret (negsuc 0, rsp_failed rsp msg, buffer)
                | none ↦ ret (pos 0, record rsp { value = obj }, buffer)
              ])
            else (if value_type == response_with_exception
                then (do
                  (obj, err, buffer) ← read_object h buffer
                  elim err [
                    | some msg ↦ ret (pos 0, rsp_failed rsp msg, buffer)
                    | none ↦ ret (pos 0, record rsp { status = service_error; value = obj }, buffer)
                  ])
                else ret (pos 0, record rsp { value = nil }, buffer)))

  -- A heartbeat's value was set to the heartbeat string just before it is compared with it, so an
  -- event takes the first branch.
  unfoldable pub decode_rsp_body : ReadBuffer → DubboRsp → Go (ℤ × DubboRsp × ReadBuffer)
  unfolding error_text decode_result
  decode_rsp_body buffer rsp =
      let rsp = if rsp.event then record rsp { value = text heart_beat_event } else rsp in
      if rsp.status == status_ok
      then (if rsp.event
          then (do
            (obj, err, buffer) ← read_object h buffer
            elim err [
              | some msg ↦ ret (pos 0, rsp_failed rsp msg, buffer)
              | none ↦ ret (pos 0, record rsp { value = obj }, buffer)
            ])
          else decode_result buffer rsp)
      else (do
        (obj, err, buffer) ← read_object h buffer
        elim err [
          | some msg ↦ ret (pos 0, record rsp { error_msg = msg }, buffer)
          | none ↦ ret (pos 0, record rsp { error_msg = error_text obj }, buffer)
        ])

  -- The loop that reads `n` values into the arguments from index `i` on.
  unfoldable pub read_arguments :
      ℕ → ℕ → List Argument → ReadBuffer → Go (Option Text × List Argument × ReadBuffer)
  read_arguments zero i args buffer = ret (none, args, buffer)
  read_arguments (suc n) i args buffer = do
    (val, err, buffer) ← read_object h buffer
    elim err [
      | some msg ↦ ret (some msg, args, buffer)
      | none ↦ do
        arg ← load args i
        args ← store args i (record arg { value = val })
        read_arguments n (i + 1) args buffer
    ]

  -- The branch of a heartbeat and that of an event, which are the same.
  unfoldable pub decode_req_event : Request → ReadBuffer → Go (ℤ × Request × ReadBuffer)
  decode_req_event req buffer = do
    (obj, err, buffer) ← read_object h buffer
    elim err [ some msg ↦ ret (failure, broken req msg, buffer) | none ↦ ret (pos 0, req, buffer) ]

  -- The three attachments, the version and the method name.
  unfoldable pub decode_req_front : Request → ReadBuffer → Go (Request × ReadBuffer)
  decode_req_front req buffer = do
    (s, buffer) ← read_string h buffer
    let inv = set_attachment req.invocation dubbo_version_key s
    (s, buffer) ← read_string h buffer
    let inv = set_attachment inv path_key s
    (s, buffer) ← read_string h buffer
    let inv = set_attachment inv version_key s
    let inv = record inv { version = get_attachment inv version_key [] }
    (s, buffer) ← read_string h buffer
    ret (record req { invocation = record inv { method_name = s } }, buffer)

  -- The map of attachments, with which a call ends.
  unfoldable pub decode_req_attachments : Request → ReadBuffer → Go (ℤ × Request × ReadBuffer)
  decode_req_attachments req buffer = do
    (m, err, buffer) ← read_map h buffer
    elim err [
      | some msg ↦ ret (failure, broken req msg, buffer)
      | none ↦ ret (pos 0, accepted req m, buffer)
    ]

  module _ (find_all : Text → List Text) where
    -- The arguments; a message if one could not be read. `one` is the exception of the registry for
    -- the method subscribe, which reads a single value.
    unfoldable pub decode_req_arguments :
        Bool → Request → ReadBuffer → Go (Option Text × Request × ReadBuffer)
    decode_req_arguments one req buffer = do
      (type_desc, buffer) ← read_string h buffer
      args ← type_des_to_args find_all type_desc
      if is_empty type_desc then ret (none, req, buffer) else (do
        (err, args, buffer) ← read_arguments (if one then 1 else length args) 0 args buffer
        elim err [
          | some msg ↦ ret (some msg, req, buffer)
          | none ↦
              ret (
                none,
                record req { invocation = record req.invocation { arguments = args } },
                buffer,
              )
        ])

    -- What follows the front of a call: the arguments, and the map of attachments.
    unfoldable pub decode_req_rest : Request → ReadBuffer → Go (ℤ × Request × ReadBuffer)
    decode_req_rest req buffer = do
      (err, req, buffer) ← decode_req_arguments false req buffer
      elim err [
        | some msg ↦ ret (failure, broken req msg, buffer)
        | none ↦ decode_req_attachments req buffer
      ]

    unfoldable pub decode_req_body : Request → ReadBuffer → Go (ℤ × Request × ReadBuffer)
    unfolding is_heartbeat decode_req_rest
    decode_req_body req buffer =
        if is_heartbeat req
        then decode_req_event req buffer
        else (if req.event
            then decode_req_event req buffer
            else (do (req, buffer) ← decode_req_front req buffer; decode_req_rest req buffer))

    -- The registry's decoder reads no map and sets the attachments to nil; the error that it tests
    -- before that is declared nil and never set.
    unfoldable pub decode_req_body_for_registry :
        Request → ReadBuffer → Go (ℤ × Request × ReadBuffer)
    unfolding is_heartbeat
    decode_req_body_for_registry req buffer =
        if is_heartbeat req
        then decode_req_event req buffer
        else (if req.event then decode_req_event req buffer else (do
          (req, buffer) ← decode_req_front req buffer
          (err, req, buffer) ←
              decode_req_arguments (text_eq req.method_name (codes "subscribe")) req buffer
          elim err [
            | some msg ↦ ret (failure, broken req msg, buffer)
            | none ↦ ret (
              pos 0,
              record req {
                invocation = record req.invocation { attachments = none };
                is_broken = false;
                payload = nil;
              },
              buffer,
            )
          ]))
