-- ===== src/Wire/WriteBuffer/Stream.antt =====
-- The write buffer as an append-only stream of bytes.
use native.Mathlib.Nat.{add_comm}
use mesher.Prelude.{
  ℕ, ◌+◌, ◌-◌, ◌≤◌, ◌≡◌, refl, sym, ap, subst, ◌∙◌, List, [], ◌∷◌, ◌++◌, Option, none, some, false,
  length, take, drop, replicate, ltb, if◌then◌else◌, arith, append-nil, append_assoc, length-append,
  length-take, length-drop, length-replicate, take-append, inl, inr, Bool-cases,
}
use mesher.Prelude.Go.{ret, slice}
use mesher.Wire.Hessian.{Encoder, finish, write, WriteError, not_enough_space}
use mesher.Wire.WriteBuffer.{
  WriteBuffer, init, overwrite, copy_at, grow, write_bytes, write_to, run_encoder,
}

-- The slice is as long as the capacity, and the index lies in it.
pub record IsValid (b : WriteBuffer) : Type 0 where
  pub sized : length b.buffer ≡ b.capacity
  pub within : b.wr_ind ≤ b.capacity

-- The bytes below the index.
abbrev pub written : WriteBuffer → List ℕ
written b = take b.wr_ind b.buffer

-- `b'` is `b` with `bs` appended to what was written.
pub record Appends (b b' : WriteBuffer) (bs : List ℕ) : Type 0 where
  pub valid : IsValid b'
  pub content : written b' ≡ written b ++ bs
  pub index : b'.wr_ind ≡ b.wr_ind + length bs
  pub kept : b.capacity ≤ b'.capacity

pub init-IsValid : (size : ℕ) → IsValid (init size)
unfolding init
init-IsValid size = record { sized = length-replicate _ 0; within = ground arith }

pub overwrite_lem :
    (dst src : List ℕ) → length src ≤ length dst → overwrite dst src ≡ src ++ drop (length src) dst
unfolding overwrite
overwrite_lem [] [] h = refl
overwrite_lem [] (s ∷ src) h = elim h [ ]
overwrite_lem (d ∷ dst) [] h = refl
overwrite_lem (d ∷ dst) (s ∷ src) h = ap (◌∷◌ s) (overwrite_lem dst src (omega arith))

-- A copy that fits keeps what stands before it and behind it.
unfoldable pub patched : List ℕ → ℕ → List ℕ → List ℕ
patched dst at src = take at dst ++ (src ++ drop (length src) (drop at dst))

copy_at-ret :
    (dst : List ℕ) (at : ℕ) (src : List ℕ)
    → at + length src ≤ length dst
    → copy_at dst at src ≡ ret (patched dst at src)
unfolding copy_at patched
copy_at-ret dst at src h = ground (arith, overwrite_lem (drop at dst) src, length-drop at dst)

pub length-patched :
    (dst : List ℕ) (at : ℕ) (src : List ℕ)
    → at + length src ≤ length dst
    → length (patched dst at src) ≡ length dst
unfolding patched
length-patched dst at src h = simp (length-append, length-take, length-drop) (omega arith)

front :
    (dst : List ℕ) (at : ℕ) (src : List ℕ)
    → at + length src ≤ length dst
    → length (take at dst ++ src) ≡ at + length src
front dst at src h = simp (length-append, length-take) (omega arith)

take-patched :
    (dst : List ℕ) (at : ℕ) (src : List ℕ)
    → at + length src ≤ length dst
    → take (at + length src) (patched dst at src) ≡ take at dst ++ src
unfolding patched
take-patched dst at src h =
    rw
      (sym (front dst at src h), ← append_assoc (take at dst) src (drop (length src) (drop at dst)))
      (take-append (take at dst ++ src) (drop (length src) (drop at dst)))

pub slice-front : (xs : List ℕ) (n : ℕ) → n ≤ length xs → slice xs 0 n ≡ ret (take n xs)
slice-front xs n h = let e : n - 0 ≡ n = omega arith in rw (e) (ground arith)

length-written : (b : WriteBuffer) → IsValid b → length (written b) ≡ b.wr_ind
length-written b v = omega (arith, length-take b.wr_ind b.buffer)

-- Growing keeps what was written and makes room for `n` more bytes.
grow-ret :
    (b : WriteBuffer) (n : ℕ)
    → IsValid b
    → (b' : WriteBuffer) × (grow b n ≡ ret b')
      × IsValid b'
      × (written b' ≡ written b)
      × (b'.wr_ind ≡ b.wr_ind)
      × (b.capacity ≤ b'.capacity)
      × (b.wr_ind + n ≤ b'.capacity)
unfolding grow
grow-ret b n v = elim (Bool-cases (ltb b.capacity (b.wr_ind + n))) [
  | inl more ↦
      let zeros : List ℕ = replicate (b.capacity + n) 0 in
      let len : length zeros ≡ b.capacity + n = length-replicate (b.capacity + n) 0 in
      let old : length (written b) ≡ b.wr_ind = length-written b v in
      let buf : List ℕ = patched zeros 0 (written b) in
      (
        record b { buffer = buf; capacity = b.capacity + n },
        rw more (
            rw (
              slice-front b.buffer b.wr_ind (omega arith),
              copy_at-ret zeros 0 (written b) (omega arith),
            )),
        record {
          sized = length-patched zeros 0 (written b) (omega arith) ∙ len;
          within = omega arith;
        },
        subst (λ k. take k buf ≡ written b) (add_comm 0 _ ∙ omega (arith, old))
            (take-patched zeros 0 (written b) (omega arith)),
        refl,
        omega arith,
        omega arith,
      )
  | inr fits ↦ (b, rw fits, v, refl, refl, omega arith, ground arith)
]

write_fitting :
    (b : WriteBuffer) (src : List ℕ)
    → IsValid b
    → b.wr_ind + length src ≤ b.capacity
    → let b' : WriteBuffer = record b {
      buffer = patched b.buffer b.wr_ind src;
      wr_ind = b.wr_ind + length src;
    } in
      (copy_at b.buffer b.wr_ind src ≡ ret b'.buffer) × IsValid b' × (written b' ≡ written b ++ src)
write_fitting b src v h = (
  copy_at-ret b.buffer b.wr_ind src (omega arith),
  record { sized = length-patched b.buffer b.wr_ind src (omega arith) ∙ v.sized; within = h },
  take-patched b.buffer b.wr_ind src (omega arith),
)

-- Appending never fails: it grows the slice where the source does not fit.
pub write_bytes-Appends :
    (b : WriteBuffer) (src : List ℕ)
    → IsValid b
    → (b' : WriteBuffer) × (write_bytes b src ≡ ret (length src, b')) × Appends b b' src
unfolding write_bytes
write_bytes-Appends b src v = elim (Bool-cases (ltb b.capacity (b.wr_ind + length src))) [
  | inl more ↦
      let step : ℕ = if ltb 4096 (length src) then length src else 4096 in
      let enough : length src ≤ step = ground arith in
      let (g, made, ok, same, at, kept, room) = grow-ret b step v in
      let (done, valid, content) = write_fitting g src ok (omega arith) in
      (
        record g { buffer = patched g.buffer g.wr_ind src; wr_ind = g.wr_ind + length src },
        rw (more, made, done),
        record {
          valid = valid;
          content = content ∙ ap (λ (w : List ℕ). w ++ src) same;
          index = omega arith;
          kept = kept;
        },
      )
  | inr fits ↦
      let (done, valid, content) = write_fitting b src v (ground arith) in
      (
        record b { buffer = patched b.buffer b.wr_ind src; wr_ind = b.wr_ind + length src },
        rw (fits, done),
        record { valid = valid; content = content; index = refl; kept = omega arith },
      )
]

-- Without growing, what stands behind the written bytes stays too.
pub write_bytes-fitting :
    (b : WriteBuffer) (src : List ℕ)
    → IsValid b
    → b.wr_ind + length src ≤ b.capacity
    → write_bytes b src
      ≡ ret (
        length src,
        record b { buffer = patched b.buffer b.wr_ind src; wr_ind = b.wr_ind + length src },
      )
unfolding write_bytes
write_bytes-fitting b src v h =
    let fits : ltb b.capacity (b.wr_ind + length src) ≡ false = ground arith in
    rw (fits, (write_fitting b src v h).0)

-- What an encoder writes and what it reports, on a writer that answers as `write_to` does: all bytes
-- taken, and an error for an empty chunk.
unfoldable pub answer_to : List ℕ → Option WriteError
answer_to [] = some not_enough_space
answer_to (c ∷ p) = none

unfoldable pub output : Encoder → List ℕ
output (finish e) = []
output (write p k) = p ++ output (k (length p) (answer_to p))

unfoldable pub report : Encoder → Option WriteError
report (finish e) = e
report (write p k) = report (k (length p) (answer_to p))

write_to-ret :
    (b b' : WriteBuffer) (p : List ℕ)
    → write_bytes b p ≡ ret (length p, b')
    → write_to b p ≡ ret (length p, answer_to p, b')
unfolding write_to answer_to
write_to-ret b b' [] e = rw e
write_to-ret b b' (c ∷ p) e = rw e (ground arith)

pub Appends-trans :
    {a b c : WriteBuffer} (xs ys : List ℕ)
    → Appends a b xs
    → Appends b c ys
    → Appends a c (xs ++ ys)
Appends-trans {a} {b} {c} xs ys p q = record {
  valid = q.valid;
  content = q.content ∙ ap (λ (w : List ℕ). w ++ ys) p.content ∙ append_assoc (written a) xs ys;
  index = omega (arith, p.index, q.index, length-append xs ys);
  kept = omega (arith, p.kept, q.kept);
}

-- Any encoder run on a valid buffer ends with no panic: it appends its output to what was written,
-- keeps the buffer valid and reports its own error.
pub run_encoder-Appends :
    (p : Encoder) (b : WriteBuffer)
    → IsValid b
    → (b' : WriteBuffer) × (run_encoder p b ≡ ret (report p, b')) × Appends b b' (output p)
unfolding run_encoder output report
run_encoder-Appends (finish e) b v = (
  b,
  refl,
  record {
    valid = v;
    content = sym (append-nil (written b));
    index = omega arith;
    kept = omega arith;
  },
)
run_encoder-Appends (write p k) b v =
    let (m, first, a) = write_bytes-Appends b p v in
    let (b', rest, a') = run_encoder-Appends (k (length p) (answer_to p)) m a.valid in
    (b', rw (write_to-ret b m p first) rest, Appends-trans p _ a a')
