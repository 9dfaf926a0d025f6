-- ===== src/Examples/Samples.antt =====
-- A small stand-in for the gohessian library, and messages to send with it.
use mesher.Prelude.{ℕ, ◌%◌, List, [], ◌∷◌, none, some, true, length, ◌==◌, if◌then◌else◌}
use mesher.Prelude.Text.{codes}
use mesher.Wire.Object.{Object, nil, text, int32, dict, entry, stop, other}
use mesher.Wire.Hessian.{Hessian, Encoder, Decoder, finish, write, answer, read, encoder_error}
use mesher.Wire.WriteBuffer.{WriteBuffer}
use mesher.Message.{Request, DubboRsp, zero_request, zero_rsp, status_ok}

-- A text is its length and its bytes, an int32 a tag and a byte, nil a tag; nothing else can be
-- encoded.
abbrev pub encode : Object → Encoder
encode nil = write (b'N' ∷ []) (λ n e. finish none)
encode (text s) = write (length s ∷ []) (λ n e. write s (λ n' e'. finish none))
encode (int32 w) = write (b'I' ∷ w % 256 ∷ []) (λ n e. finish none)
encode o = finish (some (encoder_error (codes "unknown type")))

-- The number in front of a text.
abbrev pub first : List ℕ → ℕ
first [] = 0
first (n ∷ p) = n

-- It reads a length and a text of that length; the length 255 stands for a map.
abbrev pub decode : Decoder
decode = read 1 λ n.
    if first n == 255
    then answer (dict (entry (codes "k") (text (codes "v")) stop)) none
    else read (first n) (λ s. answer (text s) none)

abbrev pub hessian : Hessian
hessian = record { to_bytes2 = encode; typed = decode; untyped = decode }

abbrev pub empty_buffer : WriteBuffer
empty_buffer = record {
  buffer = 0 ∷ 0 ∷ 0 ∷ 0 ∷ 0 ∷ 0 ∷ 0 ∷ 0 ∷ 0 ∷ 0 ∷ 0 ∷ 0 ∷ 0 ∷ 0 ∷ 0 ∷ 0 ∷ [];
  wr_ind = 0;
  capacity = 16;
}

abbrev pub sample_request : Request
sample_request = record zero_request {
  invocation = record {
    method_name = codes "hi";
    version = codes "2.0.0";
    arguments = record { java_type = codes "I"; value = int32 7 } ∷ [];
    attachments = none;
    url_path = [];
  };
  msg_id = 9;
  status = status_ok;
  two_way = true;
}

-- It has an argument of a type that the encoder does not know.
abbrev pub unencodable_request : Request
unencodable_request = record zero_request {
  invocation = record {
    method_name = codes "hi";
    version = codes "2.0.0";
    arguments = record { java_type = codes "I"; value = other 1 } ∷ [];
    attachments = none;
    url_path = [];
  };
}

abbrev pub sample_response : DubboRsp
sample_response = record zero_rsp { value = text (codes "ok"); id = 9; status = status_ok }
