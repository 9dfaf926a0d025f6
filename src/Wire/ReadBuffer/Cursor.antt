-- ===== src/Wire/ReadBuffer/Cursor.antt =====
-- The cursor of a read buffer, under any decoder.
use mesher.Prelude.{
  ℕ, ◌+◌, ◌-◌, ◌≤◌, ◌<◌, ◌≡◌, refl, ◌∙◌, List, Option, true, false, length, take, drop, ltb, ◌==◌,
  arith, length-take, length-drop, take-length, min, inl, inr, Bool-cases,
}
use mesher.Prelude.Text.{Text}
use mesher.Prelude.Go.{ret, slice}
use mesher.Wire.Object.{Object}
use mesher.Wire.Hessian.{Decoder, answer, read}
use mesher.Wire.ReadBuffer.{ReadBuffer, set_buffer, read_into, run_decoder}

pub record IsValid (b : ReadBuffer) : Type 0 where
  pub sized : length b.buffer ≡ b.len
  pub within : b.rd_ind ≤ b.len

pub set_buffer-IsValid : (src : List ℕ) → IsValid (set_buffer src)
unfolding set_buffer
set_buffer-IsValid src = record { sized = refl; within = omega arith }

-- The bytes that are not read yet.
abbrev pub unread : ReadBuffer → List ℕ
unread b = drop b.rd_ind b.buffer

slice-unread :
    (b : ReadBuffer) (n : ℕ)
    → IsValid b
    → b.rd_ind + n ≤ b.len
    → slice b.buffer b.rd_ind (b.rd_ind + n) ≡ ret (take n (unread b))
slice-unread b n v h = let e : b.rd_ind + n - b.rd_ind ≡ n = omega arith in rw (e) (ground arith)

-- A read that ends before the end of the data.
pub read_into-inside :
    (b : ReadBuffer) (size : ℕ)
    → IsValid b
    → b.rd_ind + size < b.len
    → read_into b size ≡ ret (take size (unread b), record b { rd_ind = b.rd_ind + size })
unfolding read_into
read_into-inside b size v h =
    let t : ltb (b.rd_ind + size) b.len ≡ true = ground arith in
    rw (t, slice-unread b size v (omega arith))

-- A read that reaches the end: all the rest is copied, and the cursor is left on the last byte.
pub read_into-end :
    (b : ReadBuffer) (size : ℕ)
    → IsValid b
    → b.rd_ind < b.len
    → b.len ≤ b.rd_ind + size
    → read_into b size ≡ ret (unread b, record b { rd_ind = b.len - 1 })
unfolding read_into
read_into-end b size v h k =
    let t : ltb (b.rd_ind + size) b.len ≡ false = ground arith in
    let s : (b.len == b.rd_ind) ≡ false = ground arith in
    let whole : take (b.len - b.rd_ind) (unread b) ≡ unread b =
      take-length _ _ (omega (arith, length-drop b.rd_ind b.buffer)) in
    let sl : slice b.buffer b.rd_ind b.len ≡ ret (unread b) = ground (arith, whole) in rw (t, s, sl)

-- After a read that reached the end of the data, the last byte is delivered once more, and so on
-- for ever: a one-byte read returns it and leaves the buffer as it is.
read_into_again :
    (b : ReadBuffer) (size : ℕ)
    → IsValid b
    → b.rd_ind < b.len
    → b.len ≤ b.rd_ind + size
    → (b' : ReadBuffer) × (read_into b size ≡ ret (unread b, b'))
      × (read_into b' 1 ≡ ret (drop (b.len - 1) b.buffer, b'))
read_into_again b size v h k = (
  record b { rd_ind = b.len - 1 },
  read_into-end b size v h k,
  read_into-end (record b { rd_ind = b.len - 1 }) 1
      (record { sized = v.sized; within = omega arith }) (omega arith) (omega arith),
)

-- One read from a buffer with data left returns as many bytes as were asked for or as are left, at
-- least one of them if any was asked for, and leaves data in the buffer.
pub record StaysOpen (b b' : ReadBuffer) : Type 0 where
  pub valid : IsValid b'
  pub left : b'.rd_ind < b'.len
  pub same : b'.buffer ≡ b.buffer
  pub len : b'.len ≡ b.len

pub read_into-StaysOpen :
    (b : ReadBuffer) (size : ℕ)
    → IsValid b
    → b.rd_ind < b.len
    → (p : List ℕ) × (b' : ReadBuffer) × (read_into b size ≡ ret (p, b'))
      × (length p ≡ min size (b.len - b.rd_ind))
      × StaysOpen b b'
read_into-StaysOpen b size v h = elim (Bool-cases (ltb (b.rd_ind + size) b.len)) [
  | inl inside ↦ (
    take size (unread b),
    record b { rd_ind = b.rd_ind + size },
    read_into-inside b size v (ground arith),
    omega (arith, length-take size (unread b), length-drop b.rd_ind b.buffer),
    record {
      valid = record { sized = v.sized; within = ground arith };
      left = ground arith;
      same = refl;
      len = refl;
    },
  )
  | inr over ↦ (
    unread b,
    record b { rd_ind = b.len - 1 },
    read_into-end b size v h (ground arith),
    ground (arith, length-drop b.rd_ind b.buffer),
    record {
      valid = record { sized = v.sized; within = omega arith };
      left = omega arith;
      same = refl;
      len = refl;
    },
  )
]

-- Any decoder run on a valid buffer with data left ends with no panic, and there is still data left:
-- it never comes to the end.
run_decoder-StaysOpen :
    (d : Decoder) (b : ReadBuffer)
    → IsValid b
    → b.rd_ind < b.len
    → (o : Object) × (e : Option Text) × (b' : ReadBuffer) × (run_decoder d b ≡ ret (o, e, b'))
      × StaysOpen b b'
unfolding run_decoder
run_decoder-StaysOpen (answer o e) b v h =
    (o, e, b, refl, record { valid = v; left = h; same = refl; len = refl })
run_decoder-StaysOpen (read n k) b v h =
    let (p, m, first, _, s) = read_into-StaysOpen b n v h in
    let (o, e, b', rest, s') = run_decoder-StaysOpen (k p) m s.valid s.left in
    (
      o,
      e,
      b',
      rw first rest,
      record { valid = s'.valid; left = s'.left; same = s'.same ∙ s.same; len = s'.len ∙ s.len },
    )
