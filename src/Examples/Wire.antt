-- ===== src/Examples/Wire.antt =====
-- The theorems on bytes and buffers at concrete values.
use mesher.Prelude.{◌^◌, ◌≡◌, refl, [], ◌∷◌, replicate, arith}
use mesher.Prelude.Text.{codes}
use mesher.Prelude.Go.{ret, ◌>>=◌}
use mesher.Wire.Bytes.{long2bytes, bytes2long}
use mesher.Wire.Object.{text}
use mesher.Wire.WriteBuffer.{WriteBuffer}
use mesher.Wire.WriteBuffer.Stream.{run_encoder-Appends, IsValid, Appends, output, report}
use mesher.Wire.WriteBuffer.{run_encoder}
use mesher.Wire.ReadBuffer.{ReadBuffer}
use mesher.Wire.ReadBuffer.Cursor
use mesher.Wire.ReadBuffer.Cursor.{StaysOpen, unread, set_buffer-IsValid}
use mesher.Examples.Samples.{empty_buffer, encode}

-- The id 2 ^ 40 comes back as 1.
long_lost : (do c ← long2bytes (2 ^ 40) (replicate 8 0) 0; bytes2long c 0) ≡ ret 1
unfolding long2bytes bytes2long
long_lost = refl

empty_buffer-IsValid : IsValid empty_buffer
empty_buffer-IsValid = record { sized = refl; within = omega arith }

run_encoder-Appends_example :
    (b' : WriteBuffer) × (run_encoder
        (encode (text (codes "a text of more than 16 bytes")))
        empty_buffer
      ≡ ret (report (encode (text (codes "a text of more than 16 bytes"))), b'))
    × Appends empty_buffer b' (output (encode (text (codes "a text of more than 16 bytes"))))
run_encoder-Appends_example =
    run_encoder-Appends (encode (text (codes "a text of more than 16 bytes"))) empty_buffer
      empty_buffer-IsValid

-- Two bytes of data, of which the first is a length.
abbrev short_data : ReadBuffer
short_data = record { buffer = 3 ∷ b'x' ∷ []; rd_ind = 0; len = 2; capacity = 2 }

short_data-IsValid : Cursor.IsValid short_data
short_data-IsValid = record { sized = refl; within = omega arith }
