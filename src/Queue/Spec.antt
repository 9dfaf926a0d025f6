-- ===== src/Queue/Spec.antt =====
-- The queue against its specification: which messages leave it, and in which order.
use mesher.Prelude.{
  ℕ, ◌≡◌, refl, ap, ◌∙◌, List, [], ◌∷◌, ◌++◌, none, some, append_assoc, arith, Option-cases, inl,
  inr,
}
use mesher.Prelude.Go.{ret}
use mesher.Queue.{
  MsgQueue, new_msg_queue, push, pop, split_back, Label, Step, Run, start, accepted, delivered,
  refuse, store, resume_store, take, resume_take, here, later,
}

module _ {ℓ} {A : Type ℓ} where
  pub split_back-none : (xs : List A) → split_back xs ≡ none → xs ≡ []
  unfolding split_back
  split_back-none [] e = refl
  split_back-none (x ∷ xs) e = ground arith

  pub split_back-append :
      (xs : List A) (l : List A) (a : A) → split_back xs ≡ some (l, a) → xs ≡ l ++ (a ∷ [])
  unfolding split_back
  split_back-append [] l a e = cc
  split_back-append (x ∷ xs) l a e = elim (Option-cases (split_back xs)) [
    | inl n ↦ ground (arith, split_back-none xs n)
    | inr ((l', b), n) ↦ ground (arith, split_back-append xs l' b n)
  ]

  -- What `pop` returns is the oldest message, and the others stay in order.
  pub pop-append :
      (q : MsgQueue A) (a : A) (q' : MsgQueue A)
      → pop q ≡ ret (a, q')
      → q.msg_list ≡ q'.msg_list ++ (a ∷ [])
  unfolding pop
  pop-append q a q' e = elim (Option-cases (split_back q.msg_list)) [
    | inl n ↦ ground arith
    | inr ((l, b), n) ↦ ground (arith, split_back-append q.msg_list l b n)
  ]

  oldest :
      (q : MsgQueue A) (a : A) (q' : MsgQueue A)
      → pop q ≡ ret (a, q')
      → (ins outs : List A) → ins ≡ q.msg_list ++ outs
      → ins ≡ q'.msg_list ++ (a ∷ outs)
  oldest q a q' o ins outs e =
      e
      ∙ ap (λ (l : List A). l ++ outs) (pop-append q a q' o)
      ∙ append_assoc q'.msg_list (a ∷ []) outs

  Step-content :
      {c p : ℕ} {q q' : MsgQueue A} {l : Label A} (ins outs : List A)
      → Step c p q l q'
      → ins ≡ q.msg_list ++ outs
      → accepted l ins ≡ q'.msg_list ++ delivered l outs
  unfolding push
  Step-content ins outs (store msg i f) e = ap (◌∷◌ msg) e
  Step-content ins outs (resume_store before msg after i w k s) e = ap (◌∷◌ msg) e
  Step-content {q} ins outs (take a q' i w m o) e = oldest q a q' o ins outs e
  Step-content {q} ins outs (resume_take a q' i k s o) e = oldest _ a q' o ins outs e
  Step-content ins outs (refuse i s) e = e
  Step-content ins outs _ e = e

  -- In every run the messages that were accepted are, newest first, those in the queue and then
  -- those that were delivered.
  pub Run-content :
      {c p max : ℕ} {ins outs : List A} {q : MsgQueue A}
      → Run c p (start max) ins outs q
      → ins ≡ q.msg_list ++ outs
  unfolding new_msg_queue
  Run-content here = refl
  Run-content (later {ins} {outs} r s) = Step-content ins outs s (Run-content r)
