-- ===== src/Conn/Send.antt =====
-- protocol/dubbo/client/client_conn.go and protocol/dubbo/server/dubbo_conn.go: the loops that take
-- messages from a queue, encode them and write them to the connection.
pub mod Replies
pub mod Unencoded
use mesher.Prelude.{ℕ, List, [], ◌∷◌, Bool, true, false, if◌then◌else◌}
use mesher.Prelude.Int.{ℤ}
use mesher.Prelude.Go.{Go, ret, panic, ◌>>=◌}
use mesher.Wire.Hessian.{Hessian}
use mesher.Wire.WriteBuffer
use mesher.Wire.WriteBuffer.{get_valid_data}
use mesher.Message.{Request, DubboRsp}
use mesher.Codec.Encode.{encode_dubbo_req, encode_dubbo_rsp}
use mesher.Conn.{End, closed, crashed}

-- What was written, one entry for each `Write` that gave no error, and how the loop ended.
pub record Sending : Type 0 where
  pub writes : List (List ℕ)
  pub ending : End

abbrev pub stopped : End → Sending
stopped e = record { writes = []; ending = e }

abbrev pub one_write : Go (List ℕ) → Bool → Sending → Sending
one_write panic ok rest = stopped crashed
one_write (ret d) true rest = record { writes = d ∷ rest.writes; ending = rest.ending }
one_write (ret d) false rest = stopped closed

-- `MsgSndLoop` on the messages that Dequeue gives until it reports an error, each with whether its
-- `Write` gives no error.
unfoldable pub msg_snd_loop {ℓ} : {M : Type ℓ} → (M → Go (List ℕ)) → List (M × Bool) → Sending
msg_snd_loop encode [] = stopped closed
msg_snd_loop encode ((m, ok) ∷ ms) = one_write (encode m) ok (msg_snd_loop encode ms)

module _ (h : Hessian) where
  -- The buffer is new for every message, and the result of the encoder is dropped.
  abbrev pub encode_req : Request → Go (List ℕ)
  encode_req req =
      encode_dubbo_req h req (WriteBuffer.init 0) >>= λ (result, buffer). get_valid_data buffer

  abbrev pub encode_rsp : DubboRsp → Go (List ℕ)
  encode_rsp rsp =
      encode_dubbo_rsp h rsp (WriteBuffer.init 0) >>= λ (result, buffer). get_valid_data buffer

  abbrev pub client_snd_loop : List (Request × Bool) → Sending
  client_snd_loop = msg_snd_loop encode_req

  abbrev pub server_snd_loop : List (DubboRsp × Bool) → Sending
  server_snd_loop = msg_snd_loop encode_rsp
