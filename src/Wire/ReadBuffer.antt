-- ===== src/Wire/ReadBuffer.antt =====
-- protocol/dubbo/utils/buffer.go, the type ReadBuffer, over a slice whose capacity is its length.
pub mod Cursor
use mesher.Prelude.{
  ℕ, zero, suc, ◌+◌, ◌-◌, ◌%◌, ◌≤◌, ◌≡◌, List, [], ◌∷◌, ◌++◌, Option, none, some, Bool, true, false,
  length, replicate, ltb, leb, ◌==◌, if◌then◌else◌,
}
use mesher.Prelude.Text.{Text, Table, insert}
use mesher.Prelude.Go.{Go, ret, panic, ◌>>=◌, slice}
use mesher.Wire.Object.{
  Object, Objects, Entries, nil, text, int32, blob, array, dict, other, stop, entry,
}
use mesher.Wire.Hessian.{Hessian, Decoder, answer, read}

-- `len` is the source's field `length`.
pub record ReadBuffer : Type 0 where
  pub buffer : List ℕ
  pub rd_ind : ℕ
  pub len : ℕ
  pub capacity : ℕ

unfoldable pub set_buffer : List ℕ → ReadBuffer
set_buffer src = record { buffer = src; rd_ind = 0; len = length src; capacity = length src }

unfoldable pub init : ℕ → ReadBuffer
init capacity = record { buffer = replicate capacity 0; rd_ind = 0; len = 0; capacity = capacity }

-- The method `Read` on a slice of length `size`: the bytes that it copies there, whose number it
-- returns with a nil error. `size` is at least `len - rd_ind` on the last path.
unfoldable pub read_into : ReadBuffer → ℕ → Go (List ℕ × ReadBuffer)
read_into b size =
    if ltb (b.rd_ind + size) b.len
    then (do
      p ← slice b.buffer b.rd_ind (b.rd_ind + size)
      ret (p, record b { rd_ind = b.rd_ind + size }))
    else (if b.len == b.rd_ind
        then ret ([], b)
        else (do p ← slice b.buffer b.rd_ind b.len; ret (p, record b { rd_ind = b.len - 1 })))

unfoldable pub read_bytes : ReadBuffer → ℕ → Go (List ℕ × ReadBuffer)
read_bytes b n = do
  p ← slice b.buffer b.rd_ind (b.rd_ind + n)
  ret (p, record b { rd_ind = b.rd_ind + n })

-- The decoder's program run with the buffer as its reader.
unfoldable pub run_decoder : Decoder → ReadBuffer → Go (Object × Option Text × ReadBuffer)
run_decoder (answer o e) b = ret (o, e, b)
run_decoder (read n k) b = do (p, b) ← read_into b n; run_decoder (k p) b

-- `v.(string)` and the like: a failed type assertion panics.
unfoldable pub as_text : Object → Go Text
as_text (text s) = ret s
as_text o = panic

unfoldable pub as_int32 : Object → Go ℕ
as_int32 (int32 w) = ret w
as_int32 o = panic

-- The loop over `tmpMap`, with every value asserted to be a string.
unfoldable pub text_entries : Entries → Go (Table Text)
text_entries stop = ret []
text_entries (entry k v es) = do s ← as_text v; m ← text_entries es; ret (insert k s m)

unfoldable pub as_text_table : Object → Go (Table Text)
as_text_table (dict es) = text_entries es
as_text_table o = panic

module _ (h : Hessian) where
  unfoldable pub read_object : ReadBuffer → Go (Object × Option Text × ReadBuffer)
  read_object b = run_decoder h.typed b

  unfoldable pub read_byte : ReadBuffer → Go (ℕ × ReadBuffer)
  read_byte b = do (tmp, e, b) ← read_object b; w ← as_int32 tmp; ret (w % 256, b)

  unfoldable pub read_string : ReadBuffer → Go (Text × ReadBuffer)
  read_string b = do (obj, e, b) ← run_decoder h.untyped b; s ← as_text obj; ret (s, b)

  -- The map, or the decoder's error.
  unfoldable pub read_map : ReadBuffer → Go (Table Text × Option Text × ReadBuffer)
  read_map b = do
    (obj, e, b) ← run_decoder h.untyped b
    elim e [ some msg ↦ ret ([], some msg, b) | none ↦ do m ← as_text_table obj; ret (m, none, b) ]
