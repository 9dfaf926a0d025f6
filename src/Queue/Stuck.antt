-- ===== src/Queue/Stuck.antt =====
-- A consumer that calls `Dequeue` on an empty queue after it was deactivated.
use mesher.Prelude.{ℕ, ◌≤◌, ◌≡◌, List, [], none, true, arith, ◌∙◌}
use mesher.Queue.{
  MsgQueue, deactived, all_told, accepted, delivered, is_empty, Label, Step, Run, refuse, enter,
  store, wait_not_full, resume_store, resume_refuse, take, wait_not_empty, resume_take, resume_fail,
  deactivate, broadcast_not_empty, broadcast_not_full, here, later,
}

module _ {ℓ} {A : Type ℓ} where
  -- `Deavtive` is over, no message is left, and no consumer was woken.
  pub record IsDrained (q : MsgQueue A) : Type ℓ where
    pub state : q.state ≡ deactived
    pub closing : q.closing ≡ all_told
    pub outside : q.inside ≡ none
    pub list : q.msg_list ≡ []
    pub count : q.msg_count ≡ 0
    pub none_woken : q.woken_consumers ≡ 0

  Step-IsDrained :
      {c p : ℕ} {q q' : MsgQueue A} {l : Label A}
      → Step c p q l q'
      → IsDrained q
      → (ins outs : List A)
      → IsDrained q'
        × (q.waiting_consumers ≤ q'.waiting_consumers)
        × (accepted l ins ≡ ins)
        × (delivered l outs ≡ outs)
  unfolding is_empty
  Step-IsDrained (refuse i s) d ins outs = ground arith
  Step-IsDrained (enter msg i s w) d ins outs = ground arith
  Step-IsDrained (store msg i f) d ins outs = ground arith
  Step-IsDrained (wait_not_full msg i f) d ins outs = ground arith
  Step-IsDrained (resume_store before msg after i w k s) d ins outs = ground arith
  Step-IsDrained (resume_refuse before msg after i w k s) d ins outs = ground arith
  Step-IsDrained (take a q' i w m o) d ins outs = ground arith
  Step-IsDrained (wait_not_empty i w m) d ins outs = ground arith
  Step-IsDrained (resume_take a q' i k s o) d ins outs = ground arith
  Step-IsDrained (resume_fail i k s) d ins outs = ground arith
  Step-IsDrained (deactivate c) d ins outs = ground arith
  Step-IsDrained (broadcast_not_empty c) d ins outs = ground arith
  Step-IsDrained (broadcast_not_full c) d ins outs = ground arith

  -- `Dequeue` does not look at the state before it waits. In every run from an empty queue whose
  -- `Deavtive` is over and where no consumer was woken, the queue stays empty, so that each further
  -- call waits too, no waiting consumer goes on, and nothing is accepted or delivered.
  dequeue_hangs :
      {c p : ℕ} {q : MsgQueue A} {ins outs : List A} {q' : MsgQueue A}
      → IsDrained q
      → Run c p q ins outs q'
      → IsDrained q'
        × (is_empty q' ≡ true)
        × (q.waiting_consumers ≤ q'.waiting_consumers)
        × (ins ≡ [])
        × (outs ≡ [])
  unfolding is_empty
  dequeue_hangs d here = ground arith
  dequeue_hangs d (later {ins} {outs} r s) =
      let (d', _, more, i, o) = dequeue_hangs d r in
      let (d'', more', i', o') = Step-IsDrained s d' ins outs in
      (d'', ground arith, omega arith, i' ∙ i, o' ∙ o)
