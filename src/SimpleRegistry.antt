-- ===== src/SimpleRegistry.antt =====
-- protocol/dubbo/simpleRegistry/simple_registry_server.go: the answers of the registry to a connection.
pub mod Answers
use mesher.Prelude.{ℕ, zero, suc, List, [], ◌∷◌, Bool, take}
use mesher.Prelude.Int.{ℤ, pos}
use mesher.Prelude.Go.{Go, ret, panic, ◌>>=◌}
use mesher.Wire.Object.{nil}
use mesher.Wire.Hessian.{Hessian}
use mesher.Wire.WriteBuffer
use mesher.Wire.WriteBuffer.{get_valid_data, overwrite}
use mesher.Message.{Request, DubboRsp, init, zero_request, zero_rsp}
use mesher.Codec.Encode.{encode_dubbo_rsp, header_length}
use mesher.Codec.Decode.{decode_req_head}
use mesher.Conn.{Segment, Reading, got, timed_out, lost, read_conn, End, closed, crashed, running}
use mesher.Conn.Send.{Sending, stopped}

abbrev pub buffer_size : ℕ
buffer_size = 1024

abbrev pub void_rsp : Bool → ℕ → DubboRsp
void_rsp event id = record (init zero_rsp) { event = event; id = id; value = nil }

module _ (h : Hessian) where
  -- `SendVoidRespond`: the bytes for the connection
  unfoldable pub send_void_respond : Request → Go (List ℕ)
  unfolding encode_dubbo_rsp get_valid_data
  send_void_respond req =
      encode_dubbo_rsp h (void_rsp req.event req.msg_id) (WriteBuffer.init buffer_size)
      >>= λ (result, buffer). get_valid_data buffer

  -- The header is decoded from the buffer, however many bytes were read, and the result is dropped.
  unfoldable pub answer : List ℕ → Go (List ℕ)
  unfolding send_void_respond
  answer buf =
      decode_req_head zero_request (take header_length buf) (pos 0) >>= λ (result, req, len).
      send_void_respond req

  abbrev pub wrote : Go (List ℕ) → Sending → Sending
  wrote panic rest = stopped crashed
  wrote (ret d) rest = record { writes = d ∷ rest.writes; ending = rest.ending }

  abbrev pub one_read :
      (List ℕ → List Segment → Sending) → List ℕ → Reading × List Segment → Sending
  one_read loop buf (got b, s) = let buf' = overwrite buf b in wrote (answer buf') (loop buf' s)
  one_read loop buf (timed_out, s) = stopped closed
  one_read loop buf (lost, s) = stopped closed

  -- `handleConn`, on fuel; the error of a `Write` is dropped.
  unfoldable pub handle_conn : ℕ → List ℕ → List Segment → Sending
  unfolding answer overwrite read_conn
  handle_conn zero buf s = stopped running
  handle_conn (suc fuel) buf s = one_read (handle_conn fuel) buf (read_conn buffer_size s)
