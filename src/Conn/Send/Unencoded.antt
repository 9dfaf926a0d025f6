-- ===== src/Conn/Send/Unencoded.antt =====
-- A request that cannot be encoded, between the send loop of the client and the receive loop of the
-- server.
use mesher.Prelude.{ℕ, suc, ◌≤◌, ◌≡◌, refl, List, ◌∷◌, ◌++◌, some, Bool, true, arith, replicate}
use mesher.Prelude.Go.{ret}
use mesher.Wire.Hessian.{Hessian, WriteError}
use mesher.Wire.WriteBuffer
use mesher.Wire.WriteBuffer.Stream.{init-IsValid}
use mesher.Message.{Request}
use mesher.Codec.Encode.{request_front}
use mesher.Codec.Decode.{decode_req_head}
use mesher.Codec.Body.{objects_bytes, arguments_bytes, arguments_error, encode_dubbo_req-aborted}
use mesher.Conn.{Segment, bytes, msg_recv_loop, server_recv_loop, read_conn}
use mesher.Conn.Send.{msg_snd_loop, encode_req, client_snd_loop}

module _ (h : Hessian) where
  -- The bytes that are written before the argument that fails, and a part of it.
  abbrev pub cut_off : Request → List ℕ
  cut_off req = objects_bytes h (request_front h req.invocation) ++ arguments_bytes h req.arguments

  encode_req-aborted :
      (req : Request) (e : WriteError)
      → arguments_error h req.arguments ≡ some e
      → encode_req h req ≡ ret (replicate 16 0 ++ cut_off req)
  encode_req-aborted req e bad =
      let room : 16 ≤ (WriteBuffer.init 0).capacity = unfold WriteBuffer.init in omega arith in
      let (b, made, got) =
        encode_dubbo_req-aborted h req (WriteBuffer.init 0) e (init-IsValid 0) room bad in
      rw made (unfold WriteBuffer.init in got)

  -- If an argument of a request cannot be encoded, the send loop of the client goes on as after any other
  -- request, and writes 16 zero bytes and what was encoded of the request; the receive loop of the
  -- server, if the zeros arrive in one piece, drops them and takes the bytes behind them for the header
  -- of a message.
  pub client_snd_loop-unencoded :
      (req : Request) (e : WriteError) (ms : List (Request × Bool)) (fuel : ℕ) (s : List Segment)
      → arguments_error h req.arguments ≡ some e
      → (client_snd_loop h ((req, true) ∷ ms) ≡ record {
        writes = (replicate 16 0 ++ cut_off req) ∷ (client_snd_loop h ms).writes;
        ending = (client_snd_loop h ms).ending;
      })
        × (server_recv_loop (suc fuel) (bytes (replicate 16 0) ∷ (bytes (cut_off req) ∷ s))
            ≡ server_recv_loop fuel (bytes (cut_off req) ∷ s))
  unfolding msg_snd_loop msg_recv_loop read_conn decode_req_head
  client_snd_loop-unencoded req e ms fuel s bad = (rw (encode_req-aborted req e bad) refl, refl)
