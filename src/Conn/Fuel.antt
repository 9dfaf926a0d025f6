-- ===== src/Conn/Fuel.antt =====
-- How much fuel the receive loop needs.
use mesher.Prelude.{
  ℕ, zero, suc, ◌+◌, ◌-◌, ◌<◌, ◌≤◌, ◌≢◌, List, [], ◌∷◌, Bool, arith, length, take, drop,
  length-drop, ltb, if-cases,
}
use mesher.Prelude.Int.{ℤ, pos, negsuc}
use mesher.Prelude.Go.{Go, ret, panic}
use mesher.Conn.{
  Segment, bytes, timeout, Reading, got, lost, timed_out, left_over, read_conn, Body, filled,
  broken_off, after, read_body, running, Received, spawned, with_head, one_message, msg_recv_loop,
}
use mesher.Codec.Encode.{header_length}

-- A segment counts for one and for its bytes.
abbrev pub size : List Segment → ℕ
size [] = 0
size (timeout ∷ s) = suc (size s)
size (bytes b ∷ s) = suc (length b + size s)

size-left_over : (b : List ℕ) (s : List Segment) → size (left_over b s) ≤ suc (length b + size s)
size-left_over [] s = omega arith
size-left_over (c ∷ b) s = omega arith

left_over-shorter :
    (n : ℕ) (b : List ℕ) (s : List Segment)
    → size (left_over (drop (suc n) b) s) < suc (length b + size s)
left_over-shorter n [] s = omega arith
left_over-shorter n (c ∷ b) s =
    let shorter = length-drop n b in omega (arith, shorter, size-left_over (drop n b) s)

abbrev Shorter : ℕ → Reading × List Segment → Type 0
Shorter n (lost, s) = Unit {0}
Shorter n (timed_out, s) = size s < n
Shorter n (got b, s) = size s < n

read_conn-Shorter : (n : ℕ) (s : List Segment) → Shorter (size s) (read_conn (suc n) s)
unfolding read_conn
read_conn-Shorter n [] = tt
read_conn-Shorter n (timeout ∷ s) = omega arith
read_conn-Shorter n (bytes b ∷ s) = left_over-shorter n b s

abbrev Bounded : ℕ → Body → Type 0
Bounded n broken_off = Unit {0}
Bounded n (filled b s) = size s ≤ n

after-Bounded : (n : ℕ) (b : List ℕ) (x : Body) → Bounded n x → Bounded n (after b x)
after-Bounded n b (filled c s) h = h
after-Bounded n b broken_off h = tt

Bounded-weaken : (m n : ℕ) (x : Body) → m ≤ n → Bounded m x → Bounded n x
Bounded-weaken m n (filled c s) le h = omega (arith, le, h)
Bounded-weaken m n broken_off le h = tt

read_body-Bounded :
    (retry : Bool) (n : ℕ) (s : List Segment) → Bounded (size s) (read_body retry n s)
unfolding read_body
read_body-Bounded retry zero s = omega arith
read_body-Bounded retry (suc n) [] = tt
read_body-Bounded retry (suc n) (timeout ∷ s) =
    let rest = read_body retry (suc n) s in
    if-cases (Bounded (suc (size s))) retry rest broken_off
      (λ _.
        Bounded-weaken (size s) (suc (size s)) rest (omega arith)
          (read_body-Bounded retry (suc n) s))
      (λ _. tt)
read_body-Bounded retry (suc n) (bytes b ∷ s) =
    let rest = read_body retry (suc n - length b) s in
    let all = suc (length b + size s) in
    if-cases (Bounded all) (ltb (length b) (suc n)) (after b rest)
      (filled (take (suc n) b) (left_over (drop (suc n) b) s))
      (λ _. after-Bounded all b rest (
        Bounded-weaken (size s) all rest (omega arith)
          (read_body-Bounded retry (suc n - length b) s)))
      (λ _. let lt = left_over-shorter n b s in omega (arith, lt))

module _ {ℓ} {M : Type ℓ} where
  spawned-ends :
      (m : M) (n : ℕ) (b : Body) (loop : List Segment → Received M)
      → Bounded n b
      → ((s : List Segment) → size s ≤ n → (loop s).ending ≢ running)
      → (spawned m b loop).ending ≢ running
  spawned-ends m n broken_off loop h k = λ e. cc
  spawned-ends m n (filled b s) loop h k = k s h

  with_head-ends :
      (retry : Bool) (h : Go (ℤ × M × ℤ)) (s : List Segment) (loop : List Segment → Received M)
      → ((t : List Segment) → size t ≤ size s → (loop t).ending ≢ running)
      → (with_head retry h s loop).ending ≢ running
  with_head-ends retry panic s loop k = λ e. cc
  with_head-ends retry (ret (negsuc c, m, len)) s loop k = k s (omega arith)
  with_head-ends retry (ret (pos (suc c), m, len)) s loop k = k s (omega arith)
  with_head-ends retry (ret (pos zero, m, negsuc j)) s loop k = λ e. cc
  with_head-ends retry (ret (pos zero, m, pos n)) s loop k =
      spawned-ends m (size s) (read_body retry n s) loop (read_body-Bounded retry n s) k

  one_message-ends :
      (retry : Bool) (decode : List ℕ → Go (ℤ × M × ℤ)) (n : ℕ) (r : Reading × List Segment)
      (loop : List Segment → Received M)
      → Shorter n r
      → ((t : List Segment) → size t < n → (loop t).ending ≢ running)
      → (one_message retry decode r loop).ending ≢ running
  one_message-ends retry decode n (lost, s) loop h k = λ e. cc
  one_message-ends retry decode n (timed_out, s) loop h k = k s h
  one_message-ends retry decode n (got b, s) loop h k =
      if-cases (λ x. x.ending ≢ running) (ltb (length b) header_length) (loop s)
        (with_head retry (decode b) s loop) (λ _. k s h)
        (λ _. with_head-ends retry (decode b) s loop (λ t le. k t (omega arith)))

  -- A fuel above the number of the segments and the bytes that come is enough: the loop ends by closing the
  -- connection or by a panic, for every decoder of headers.
  pub msg_recv_loop_ends :
      (retry : Bool) (decode : List ℕ → Go (ℤ × M × ℤ)) (fuel : ℕ) (s : List Segment)
      → size s < fuel
      → (msg_recv_loop retry decode fuel s).ending ≢ running
  unfolding msg_recv_loop
  msg_recv_loop_ends retry decode zero s h = absurd (omega (arith, h))
  msg_recv_loop_ends retry decode (suc fuel) s h =
      one_message-ends retry decode (size s) (read_conn header_length s)
        (msg_recv_loop retry decode fuel) (read_conn-Shorter 15 s)
        (λ t lt. msg_recv_loop_ends retry decode fuel t (omega arith))
