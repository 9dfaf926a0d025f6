-- ===== src/Examples/Codec.antt =====
-- The theorems on frames at concrete messages.
use mesher.Prelude.{ℕ, ◌≡◌, refl, List, [], ◌∷◌, ◌++◌, none, some, arith}
use mesher.Prelude.Int.{pos}
use mesher.Prelude.Go.{ret}
use mesher.Wire.Hessian.{encoder_error}
use mesher.Wire.WriteBuffer.{WriteBuffer, get_valid_data}
use mesher.Wire.WriteBuffer.Stream.{IsValid, output, report}
use mesher.Message.{Request, status_ok, get_attachment, set_attachment, zero_request}
use mesher.Prelude.Text.{codes, insert, text_eq, lookup}
use mesher.Wire.Object.{text}
use mesher.TypeUtil.{get_java_desc, type_des_to_args, fill_matches}
use mesher.Wire.ReadBuffer.{
  set_buffer, read_string, read_object, read_map, run_decoder, read_into, as_text, as_text_table,
  text_entries,
}
use mesher.Codec.Encode.{encode_dubbo_req, encode_dubbo_rsp, attachments_object}
use mesher.Codec.Broken.{Decoded, decode_req_body-Decoded}
use mesher.Codec.Decode.{
  decode_req_body, decode_req_front, decode_req_arguments, decode_req_attachments, read_arguments,
}
use mesher.Codec.Frame.{frame, req_flag, rsp_flag}
use mesher.Codec.Body.{
  arguments_error, req_body, rsp_objects, objects_bytes, encode_dubbo_req-frame,
  encode_dubbo_rsp-frame,
}
use mesher.Examples.Samples.{
  hessian, empty_buffer, sample_request, unencodable_request, sample_response,
}

pub empty_buffer-IsValid : IsValid empty_buffer
empty_buffer-IsValid = record { sized = refl; within = omega arith }

pub sample_arguments : arguments_error hessian sample_request.arguments ≡ none
unfolding report
sample_arguments = refl

encode_dubbo_req-frame_example :
    (b' : WriteBuffer) × (encode_dubbo_req hessian sample_request empty_buffer ≡ ret (pos 0, b'))
    × (get_valid_data b'
        ≡ ret (frame (req_flag sample_request) status_ok 9 (req_body hessian sample_request)))
encode_dubbo_req-frame_example =
    encode_dubbo_req-frame hessian sample_request empty_buffer empty_buffer-IsValid (omega arith)
      sample_arguments

encode_dubbo_rsp-frame_example :
    (b' : WriteBuffer) × (encode_dubbo_rsp hessian sample_response empty_buffer ≡ ret (pos 0, b'))
    × (get_valid_data b'
        ≡ ret (
            frame
              (rsp_flag sample_response)
              status_ok
              9
              (objects_bytes hessian (rsp_objects hessian sample_response))))
encode_dubbo_rsp-frame_example =
    encode_dubbo_rsp-frame hessian sample_response empty_buffer empty_buffer-IsValid (omega arith)

unencodable_error :
    arguments_error hessian unencodable_request.arguments
    ≡ some (encoder_error (codes "unknown type"))
unfolding report
unencodable_error = refl

-- The bytes of a request, in full.
sample_bytes :
    req_body hessian sample_request
    ≡ (5 ∷ codes "2.0.0")
      ++ (0 ∷ [])
      ++ (5 ∷ codes "0.0.0")
      ++ (2 ∷ codes "hi")
      ++ (1 ∷ codes "I")
      ++ (b'I' ∷ 7 ∷ [])
unfolding output report get_attachment get_java_desc attachments_object
sample_bytes = refl

-- A call in the encoding of the samples: five texts, one argument, a map and one byte more.
abbrev call_body : List ℕ
call_body = 1 ∷ b'2' ∷ 1 ∷ b'p' ∷ 1 ∷ b'1' ∷ 1 ∷ b'm' ∷ 1 ∷ b'I' ∷ 1 ∷ b'x' ∷ 255 ∷ 0 ∷ []

abbrev called : Request
called = record zero_request {
  invocation = record {
    method_name = codes "m";
    version = codes "1";
    arguments = record { java_type = codes "I"; value = text (codes "x") } ∷ [];
    attachments = some ((codes "k", codes "v") ∷ []);
    url_path = [];
  };
}

decode_call :
    decode_req_body hessian (λ d. d ∷ []) zero_request (set_buffer call_body)
    ≡ ret (pos 0, called, record (set_buffer call_body) { rd_ind = 13 })
unfolding decode_req_body decode_req_front decode_req_arguments decode_req_attachments
    read_arguments set_buffer read_string read_object read_map run_decoder read_into as_text
    as_text_table text_entries insert set_attachment get_attachment type_des_to_args fill_matches
    lookup text_eq
decode_call = refl

decode_req_body-Decoded_example :
    Decoded hessian
      (λ d. d ∷ [])
      zero_request
      (set_buffer call_body)
      (pos 0)
      called
      (record (set_buffer call_body) { rd_ind = 13 })
decode_req_body-Decoded_example =
    decode_req_body-Decoded hessian (λ d. d ∷ []) zero_request (set_buffer call_body) decode_call
