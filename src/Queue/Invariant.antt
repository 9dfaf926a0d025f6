-- ===== src/Queue/Invariant.antt =====
-- The count of messages in a run, its limit, and the messages that a consumer finds when it goes on.
use mesher.Prelude.{
  ℕ, ◌+◌, ◌-◌, ◌≤◌, ◌<◌, ◌≡◌, ◌≢◌, ◌⊎◌, inl, inr, refl, ap, List, [], ◌∷◌, ◌++◌, Option, none, some,
  false, arith, length, length-append, Option-cases,
}
use mesher.Prelude.Go.{ret, panic}
use mesher.Queue.{
  MsgQueue, State, actived, deactived, not_called, new_msg_queue, is_empty, is_full, signal, push,
  pop, split_back, Label, Step, Run, start, refuse, enter, store, wait_not_full, resume_store,
  resume_refuse, take, wait_not_empty, resume_take, resume_fail, deactivate, broadcast_not_empty,
  broadcast_not_full, here, later,
}
use mesher.Queue.Spec.{pop-append, split_back-none}

abbrev pub one_inside {ℓ} : {A : Type ℓ} → Option A → ℕ
one_inside none = 0
one_inside (some a) = 1

-- The wake-ups that will be followed by a store.
abbrev pub due : State → ℕ → ℕ
due actived woken = woken
due deactived woken = 0

module _ {ℓ} {A : Type ℓ} where
  pub record Inv (consumers producers max : ℕ) (q : MsgQueue A) : Type ℓ where
    pub limit : q.max_msg_num ≡ max
    pub counted : q.msg_count ≡ length q.msg_list
    pub consuming : q.waiting_consumers ≤ consumers
    pub woken_consuming : q.woken_consumers ≤ q.waiting_consumers
    pub producing : length q.waiting_producers + one_inside q.inside ≤ producers
    pub woken_producing : q.woken_producers ≤ length q.waiting_producers
    pub closed : (q.closing ≡ not_called) ⊎ (q.state ≡ deactived)
    pub bounded : q.msg_count + due q.state q.woken_producers ≤ max + (producers - 1)
    pub single : consumers ≤ 1 → due q.state q.woken_consumers ≤ q.msg_count

  -- What `pop` changes.
  record Popped (q q' : MsgQueue A) : Type ℓ where
    list : length q.msg_list ≡ length q'.msg_list + 1
    count : q'.msg_count ≡ q.msg_count - 1
    woken : q'.woken_producers ≡ signal (length q.waiting_producers) q.woken_producers
    max : q'.max_msg_num ≡ q.max_msg_num
    state : q'.state ≡ q.state
    closing : q'.closing ≡ q.closing
    inside : q'.inside ≡ q.inside
    waiting_consumers : q'.waiting_consumers ≡ q.waiting_consumers
    woken_consumers : q'.woken_consumers ≡ q.woken_consumers
    waiting_producers : q'.waiting_producers ≡ q.waiting_producers

  pop-Popped : (q : MsgQueue A) (a : A) (q' : MsgQueue A) → pop q ≡ ret (a, q') → Popped q q'
  unfolding pop
  pop-Popped q a q' e =
      ground (arith, ap length (pop-append q a q' e), length-append q'.msg_list (a ∷ []))

  one_fewer :
      {ws : List A} (before : List A) (msg : A) (after : List A)
      → ws ≡ before ++ (msg ∷ after)
      → length ws ≡ length (before ++ after) + 1
  one_fewer before msg after e =
      omega (arith, ap length e, length-append before (msg ∷ after), length-append before after)

  Step-Inv :
      {c p max : ℕ} {q q' : MsgQueue A} {l : Label A}
      → Step c p q l q'
      → Inv c p max q
      → Inv c p max q'
  unfolding push is_full is_empty
  Step-Inv (refuse i s) v = v
  Step-Inv (enter msg i s w) v = ground arith
  Step-Inv (store msg i f) v = ground arith
  Step-Inv {q} (wait_not_full msg i f) v =
      ground (arith, length-append q.waiting_producers (msg ∷ []))
  Step-Inv (resume_store before msg after i w k s) v = ground (arith, one_fewer before msg after w)
  Step-Inv (resume_refuse before msg after i w k s) v = ground (arith, one_fewer before msg after w)
  Step-Inv {q} (take a q' i w m o) v = ground (arith, pop-Popped q a q' o)
  Step-Inv (wait_not_empty i w m) v = ground arith
  Step-Inv (resume_take a q' i k s o) v = ground (arith, pop-Popped _ a q' o)
  Step-Inv (resume_fail i k s) v = ground arith
  Step-Inv (deactivate c) v = ground arith
  Step-Inv (broadcast_not_empty c) v = ground arith
  Step-Inv (broadcast_not_full c) v = ground arith

  start-Inv : (c p max : ℕ) → Inv c p max (start max)
  unfolding new_msg_queue
  start-Inv c p max = ground arith

  pub Run-Inv :
      {c p max : ℕ} {ins outs : List A} {q : MsgQueue A}
      → Run c p (start max) ins outs q
      → Inv c p max q
  Run-Inv {c} {p} {max} here = start-Inv c p max
  Run-Inv (later r s) = Step-Inv s (Run-Inv r)

  -- In every run the count is the number of messages in the queue, and with `p` producers it exceeds
  -- the limit by at most `p - 1`.
  pub Run-bounded :
      {c p max : ℕ} {ins outs : List A} {q : MsgQueue A}
      → Run c p (start max) ins outs q
      → (q.msg_count ≡ length q.msg_list) × (q.msg_count ≤ max + (p - 1))
  Run-bounded {q} r = ground (arith, Run-Inv r)

  pop-ne-panic : (q : MsgQueue A) → 0 < length q.msg_list → pop q ≢ panic
  unfolding pop
  pop-ne-panic q h e = elim (Option-cases (split_back q.msg_list)) [
    | inl n ↦ omega (arith, ap length (split_back-none q.msg_list n))
    | inr ((l, a), n) ↦ ground arith
  ]

  -- With a single consumer no `Dequeue` panics: whenever the consumer finds the queue not empty, or
  -- was woken up and the queue is active, there is a message to take. (`r` is the queue as that
  -- consumer leaves the wait.)
  pop_total :
      {p max : ℕ} {ins outs : List A} {q : MsgQueue A}
      → Run 1 p (start max) ins outs q
      → (is_empty q ≡ false) ⊎ ((0 < q.woken_consumers) × (q.state ≡ actived))
      → (r : MsgQueue A) → r.msg_list ≡ q.msg_list
      → pop r ≢ panic
  unfolding is_empty
  pop_total {q} run h r e = let v = Run-Inv run in pop-ne-panic r (ground (arith, v, ap length e))

  -- With two consumers it may panic: one waits, a message comes and wakes it, the other takes the
  -- message first.
  pub two_consumers_panic :
      (max : ℕ) (a : A)
      → 0 < max
      → (q : MsgQueue A) × Run 2 1 (start max) (a ∷ []) (a ∷ []) q
        × (0 < q.woken_consumers)
        × (q.state ≡ actived)
        × (pop (record q {
          waiting_consumers = q.waiting_consumers - 1;
          woken_consumers = q.woken_consumers - 1;
        })
            ≡ panic)
  unfolding push pop split_back is_empty is_full new_msg_queue
  two_consumers_panic max a h = (
    _,
    later
        (later
          (later (later here (wait_not_empty refl (omega arith) refl))
            (enter a refl refl (omega arith)))
          (store a refl (ground arith)))
        (take a _ refl (omega arith) refl refl),
    omega arith,
    refl,
    refl,
  )
