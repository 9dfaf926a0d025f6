-- ===== src/Conn/Framing.antt =====
-- What the receive loop makes of messages that are sent one after another.
use mesher.Prelude.{
  ℕ, zero, suc, ◌-◌, ◌<◌, ◌≡◌, refl, sym, ap, ◌∙◌, List, [], ◌∷◌, ◌++◌, append-nil, Bool, true,
  false, arith, length, length-append, take, drop, take-length, ltb, if◌then◌else◌, subst, All,
}
use mesher.Prelude.Int.{ℤ, pos}
use mesher.Prelude.Go.{Go, ret}
use mesher.Conn.{
  Segment, bytes, got, left_over, read_conn, filled, after, read_body, closed, Received, spawned,
  with_head, one_message, msg_recv_loop,
}

abbrev pub concat : List (List ℕ) → List ℕ
concat [] = []
concat (c ∷ cs) = c ++ concat cs

abbrev pub segments : List (List ℕ) → List Segment → List Segment
segments [] s = s
segments (c ∷ cs) s = bytes c ∷ segments cs s

abbrev pub IsSent : List ℕ → Type 0
IsSent c = 0 < length c

read_body-segment :
    (retry : Bool) (n : ℕ) (b : List ℕ) (s : List Segment)
    → 0 < n
    → read_body retry n (bytes b ∷ s) ≡ (
        if ltb (length b) n
        then after b (read_body retry (n - length b) s)
        else filled (take n b) (left_over (drop n b) s))
unfolding read_body
read_body-segment retry zero b s h = absurd (omega (arith, h))
read_body-segment retry (suc n) b s h = refl

drop-length : (b : List ℕ) → drop (length b) b ≡ []
drop-length [] = refl
drop-length (c ∷ b) = drop-length b

read_body-whole :
    (retry : Bool) (b : List ℕ) (s : List Segment)
    → IsSent b
    → read_body retry (length b) (bytes b ∷ s) ≡ filled b s
read_body-whole retry b s h =
    read_body-segment retry (length b) b s h
    ∙ ground (arith, take-length (length b) b (omega arith), drop-length b)

read_body-more :
    (retry : Bool) (b c : List ℕ) (s t : List Segment)
    → IsSent b
    → IsSent c
    → read_body retry (length c) s ≡ filled c t
    → read_body retry (length (b ++ c)) (bytes b ∷ s) ≡ filled (b ++ c) t
read_body-more retry b c s t hb hc ih =
    let total = length-append b c in
    read_body-segment retry (length (b ++ c)) b s (omega (arith, total))
    ∙ ap
        (λ x.
          if x
          then after b (read_body retry (length (b ++ c) - length b) s)
          else filled (take (length (b ++ c)) b) (left_over (drop (length (b ++ c)) b) s))
        {x = ltb (length b) (length (b ++ c))} {y = true} (ground (arith, total))
    ∙ ap (λ k. after b (read_body retry k s)) {x = length (b ++ c) - length b} {y = length c}
        (omega (arith, total))
    ∙ ap (after b) ih

read_body-concat :
    (retry : Bool) (cs : List (List ℕ)) (s : List Segment)
    → All IsSent cs
    → read_body retry (length (concat cs)) (segments cs s) ≡ filled (concat cs) s
read_body-concat retry [] s h = unfold read_body in refl
read_body-concat retry (c ∷ []) s h =
    subst (λ d. read_body retry (length d) (bytes c ∷ s) ≡ filled d s) (sym (append-nil c))
      (read_body-whole retry c s h.0)
read_body-concat retry (c ∷ d ∷ cs) s h =
    read_body-more retry c (concat (d ∷ cs)) (segments (d ∷ cs) s) s h.0
      (omega (arith, h.1.0, length-append d (concat cs))) (read_body-concat retry (d ∷ cs) s h.1)

drop-all : (n : ℕ) (b : List ℕ) → length b ≡ n → drop n b ≡ []
drop-all n b h = ap (λ k. drop k b) (sym h) ∙ drop-length b

pub read_conn-whole :
    (head : List ℕ) (s : List Segment)
    → length head ≡ 16
    → read_conn 16 (bytes head ∷ s) ≡ (got head, s)
unfolding read_conn
read_conn-whole head s h =
    ap (λ b. (got b, left_over (drop 16 head) s)) (take-length 16 head (omega arith))
    ∙ ap (λ b. (got head, left_over b s)) (drop-all 16 head h)

module _ {ℓ} {M : Type ℓ} where
  -- A message with its header and the pieces in which its body comes.
  pub record Frame (decode : List ℕ → Go (ℤ × M × ℤ)) : Type ℓ where
    pub head : List ℕ
    pub message : M
    pub pieces : List (List ℕ)
    pub whole_head : length head ≡ 16
    pub some_bytes : All IsSent pieces
    pub decoded : decode head ≡ ret (pos 0, message, pos (length (concat pieces)))

  abbrev pub stream : {decode : List ℕ → Go (ℤ × M × ℤ)} → List (Frame decode) → List Segment
  stream [] = []
  stream (f ∷ fs) = bytes f.head ∷ segments f.pieces (stream fs)

  abbrev pub messages : {decode : List ℕ → Go (ℤ × M × ℤ)} → List (Frame decode) → List (M × List ℕ)
  messages [] = []
  messages (f ∷ fs) = (f.message, concat f.pieces) ∷ messages fs

  one_message-Frame :
      (retry : Bool) (decode : List ℕ → Go (ℤ × M × ℤ)) (f : Frame decode) (s : List Segment)
      (loop : List Segment → Received M)
      → one_message retry decode (read_conn 16 (bytes f.head ∷ segments f.pieces s)) loop
        ≡ record { tasks = (f.message, concat f.pieces) ∷ (loop s).tasks; ending = (loop s).ending }
  one_message-Frame retry decode f s loop =
      let rest = segments f.pieces s in
      ap (λ r. one_message retry decode r loop) (read_conn-whole f.head rest f.whole_head)
      ∙ ap (λ x. if x then loop rest else with_head retry (decode f.head) rest loop)
          {x = ltb (length f.head) 16} {y = false} (ground (arith, f.whole_head))
      ∙ ap (λ h. with_head retry h rest loop) f.decoded
      ∙ ap (λ b. spawned f.message b loop) (read_body-concat retry f.pieces s f.some_bytes)

  -- On messages that each come as a header in one segment and a body in any pieces, one after another, the
  -- loop with more fuel than messages hands over exactly these messages with their whole bodies, in order,
  -- and then closes the connection.
  pub msg_recv_loop-stream :
      (retry : Bool) (decode : List ℕ → Go (ℤ × M × ℤ)) (fuel : ℕ) (fs : List (Frame decode))
      → length fs < fuel
      → msg_recv_loop retry decode fuel (stream fs)
        ≡ record { tasks = messages fs; ending = closed }
  unfolding msg_recv_loop
  msg_recv_loop-stream retry decode zero fs h = absurd (omega (arith, h))
  msg_recv_loop-stream retry decode (suc fuel) [] h = unfold read_conn in refl
  msg_recv_loop-stream retry decode (suc fuel) (f ∷ fs) h =
      one_message-Frame retry decode f (stream fs) (msg_recv_loop retry decode fuel)
      ∙ ap (λ r. record { tasks = (f.message, concat f.pieces) ∷ r.tasks; ending = r.ending })
          (msg_recv_loop-stream retry decode fuel fs (omega arith))
