-- ===== src/Wire/Hessian.antt =====
-- The gohessian library, which the source only calls: a parameter. An encoder is any finite program
-- of calls of `io.Writer.Write`, a decoder any finite program of calls of `io.Reader.Read`.
use mesher.Prelude.{ℕ, List, Option}
use mesher.Prelude.Text.{Text}
use mesher.Wire.Object.{Object}

-- The errors of `WriteBuffer`, and one that the encoder reports itself.
pub data WriteError : Type 0 where
  not_enough_space : WriteError
  index_over : ℕ → ℕ → WriteError
  encoder_error : Text → WriteError

-- `write p k`: it calls `Write(p)` and goes on with the number and the error that come back.
pub data Encoder : Type 0 where
  finish : Option WriteError → Encoder
  write : List ℕ → (ℕ → Option WriteError → Encoder) → Encoder

-- `read n k`: it calls `Read` on a slice of length `n` and goes on with the bytes that were copied.
-- The error that `Read` returns is nil on every path. A decoder error is its message.
pub data Decoder : Type 0 where
  answer : Object → Option Text → Decoder
  read : ℕ → (List ℕ → Decoder) → Decoder

-- `typed` is `ToObject2` under the type map `TypMap`, `untyped` the one with no type map.
pub record Hessian : Type 0 where
  pub to_bytes2 : Object → Encoder
  pub typed : Decoder
  pub untyped : Decoder
