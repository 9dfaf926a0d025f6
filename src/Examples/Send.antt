-- ===== src/Examples/Send.antt =====
-- The theorems on the send loops at concrete messages.
use mesher.Prelude.{
  All, ap, Bool, ℕ, List, [], ◌∷◌, ◌++◌, some, true, false, ◌≡◌, refl, arith, replicate,
}
use mesher.Prelude.Text.{codes}
use mesher.Wire.Object.{is_nil}
use mesher.Wire.Hessian.{encoder_error}
use mesher.Message.{DubboRsp}
use mesher.Wire.WriteBuffer.Stream.{output, report}
use mesher.Codec.Body.{arguments_error}
use mesher.Conn.{bytes, closed, client_recv_loop, server_recv_loop}
use mesher.Conn.Framing.{concat, IsSent}
use mesher.Conn.Send.{client_snd_loop, server_snd_loop}
use mesher.Conn.Send.Replies.{
  Cutting, arriving, IsSendable, answers, client_recv_loop-server_snd_loop,
}
use mesher.Conn.Send.Unencoded.{cut_off, client_snd_loop-unencoded}
use mesher.Examples.Samples.{hessian, sample_response, unencodable_request}

-- Every body arrives byte by byte.
abbrev bytewise : ℕ → List ℕ → List (List ℕ)
bytewise n [] = []
bytewise n (c ∷ b) = (c ∷ []) ∷ bytewise n b

bytewise-whole : (n : ℕ) (b : List ℕ) → concat (bytewise n b) ≡ b
bytewise-whole n [] = refl
bytewise-whole n (c ∷ b) = ap (λ x. c ∷ x) (bytewise-whole n b)

bytewise-IsSent : (n : ℕ) (b : List ℕ) → All IsSent (bytewise n b)
bytewise-IsSent n [] = tt
bytewise-IsSent n (c ∷ b) = (omega arith, bytewise-IsSent n b)

abbrev byte_by_byte : Cutting
byte_by_byte = record { cut = bytewise; whole = bytewise-whole; some_bytes = bytewise-IsSent }

-- Two responses, and the write of the second fails.
abbrev two_responses : List (DubboRsp × Bool)
two_responses = (sample_response, true) ∷ (sample_response, false) ∷ []

sample_response-IsSendable : IsSendable hessian sample_response
unfolding output is_nil
sample_response-IsSendable = record { small = omega arith; clear = refl; short = omega arith }

client_recv_loop-server_snd_loop_example :
    ((server_snd_loop hessian two_responses).ending ≡ closed)
    × (client_recv_loop 2 (arriving byte_by_byte 0 (server_snd_loop hessian two_responses).writes)
        ≡ record { tasks = answers hessian (sample_response ∷ []); ending = closed })
client_recv_loop-server_snd_loop_example =
    client_recv_loop-server_snd_loop hessian byte_by_byte 2 two_responses
      (sample_response-IsSendable, (sample_response-IsSendable, tt)) (omega arith)

unencodable_arguments :
    arguments_error hessian unencodable_request.invocation.arguments
    ≡ some (encoder_error (codes "unknown type"))
unfolding report
unencodable_arguments = refl

client_snd_loop-unencoded_example :
    (client_snd_loop hessian ((unencodable_request, true) ∷ []) ≡ record {
      writes =
          (replicate 16 0 ++ cut_off hessian unencodable_request)
          ∷ (client_snd_loop hessian []).writes;
      ending = (client_snd_loop hessian []).ending;
    })
    × (server_recv_loop 3
          (bytes (replicate 16 0) ∷ (bytes (cut_off hessian unencodable_request) ∷ []))
        ≡ server_recv_loop 2 (bytes (cut_off hessian unencodable_request) ∷ []))
client_snd_loop-unencoded_example =
    client_snd_loop-unencoded hessian unencodable_request (encoder_error (codes "unknown type")) []
      2 [] unencodable_arguments
