-- ===== src/Examples/Queue.antt =====
-- The theorems on the message queue at concrete runs.
use mesher.Prelude.{ℕ, ◌+◌, ◌-◌, ◌≤◌, ◌<◌, ◌≡◌, refl, List, [], ◌∷◌, ◌++◌, arith, length}
use mesher.Prelude.Go.{panic}
use mesher.Queue.{
  MsgQueue, actived, deactived, all_told, new_msg_queue, is_empty, is_full, push, pop, split_back,
  Run, start, enter, store, wait_not_full, resume_store, take, here, later,
}
use mesher.Queue.Spec.{Run-content}
use mesher.Queue.Invariant.{Run-bounded, two_consumers_panic}
use mesher.Queue.Stuck.{IsDrained}

abbrev with_messages : List ℕ → ℕ → MsgQueue ℕ
with_messages l max = record (start max) { msg_list = l; msg_count = length l }

-- Two messages are stored.
two_stored : Run {A = ℕ} 1 1 (start 5) (8 ∷ 7 ∷ []) [] (with_messages (8 ∷ 7 ∷ []) 5)
unfolding push new_msg_queue is_full
two_stored =
    later
      (later (later (later here (enter 7 refl refl (omega arith))) (store 7 refl refl))
        (enter 8 refl refl (omega arith)))
      (store 8 refl refl)

-- The first of them is taken.
one_taken : Run {A = ℕ} 1 1 (start 5) (8 ∷ 7 ∷ []) (7 ∷ []) (with_messages (8 ∷ []) 5)
unfolding pop split_back new_msg_queue is_empty
one_taken = later two_stored (take 7 _ refl (omega arith) refl refl)

Run-content_example : ◌≡◌ {A = List ℕ} (8 ∷ 7 ∷ []) ((8 ∷ []) ++ (7 ∷ []))
Run-content_example = Run-content one_taken

Run-bounded_example :
    ((with_messages (8 ∷ []) 5).msg_count ≡ length {A = ℕ} (8 ∷ []))
    × ((with_messages (8 ∷ []) 5).msg_count ≤ 5 + (1 - 1))
Run-bounded_example = Run-bounded one_taken

two_consumers_panic_example :
    (q : MsgQueue ℕ) × Run 2 1 (start 5) (7 ∷ []) (7 ∷ []) q
    × (0 < q.woken_consumers)
    × (q.state ≡ actived)
    × (pop (record q {
      waiting_consumers = q.waiting_consumers - 1;
      woken_consumers = q.woken_consumers - 1;
    })
        ≡ panic)
two_consumers_panic_example = two_consumers_panic 5 7 (omega arith)

-- A queue with room for one message holds two: the limit is not tested again after a wait.
limit_exceeded :
    (q : MsgQueue ℕ) × Run 1 2 (start 1) (8 ∷ 9 ∷ 7 ∷ []) (7 ∷ []) q × (q.msg_count ≡ 2)
unfolding push pop split_back is_empty is_full new_msg_queue
limit_exceeded =
    let full = later (later here (enter 7 refl refl (omega arith))) (store 7 refl refl) in
    let waiting =
      later (later full (enter 8 refl refl (omega arith))) (wait_not_full 8 refl refl) in
    let woken = later waiting (take 7 _ refl (omega arith) refl refl) in
    let refilled = later (later woken (enter 9 refl refl (omega arith))) (store 9 refl refl) in
    (_, later refilled (resume_store [] 8 [] refl refl (omega arith) refl), refl)

-- A connection that was closed while its queue was empty.
abbrev after_close : MsgQueue ℕ
after_close = record (start 5) { state = deactived; closing = all_told }

after_close-IsDrained : IsDrained after_close
unfolding new_msg_queue
after_close-IsDrained = ground arith
