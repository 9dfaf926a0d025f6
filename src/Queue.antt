-- ===== src/Queue.antt =====
-- protocol/dubbo/utils/msgqueue.go, a bounded queue of messages under a mutex with two condition
-- variables. A step is what one goroutine does from a lock of the mutex to the next `Wait` or
-- unlock. `Deavtive` takes no lock, so its three statements are steps that may fall anywhere, also
-- into an `Enqueue` that has passed its test of the state (`inside`).
-- Which waiting goroutine a signal wakes is left open: a number of wake-ups is counted, and any
-- waiting goroutine may use one up.
pub mod Spec
pub mod Invariant
pub mod Stuck
use mesher.Prelude.{
  ℕ, suc, ◌+◌, ◌-◌, ◌<◌, ◌≡◌, List, [], ◌∷◌, ◌++◌, Option, none, some, Bool, true, false, leb, ltb,
  ◌==◌, if◌then◌else◌, length,
}
use mesher.Prelude.Go.{Go, ret, panic}

abbrev pub max_buffer_msg : ℕ
max_buffer_msg = 65535

pub data State : Type 0 where
  actived deactived : State

-- How far a call of `Deavtive` has come.
pub data Closing : Type 0 where
  not_called state_set consumers_told all_told : Closing

module _ {ℓ} (A : Type ℓ) where
  -- `waiting_consumers` counts the goroutines in `notEmptyCond.Wait`, of which `woken_consumers` may
  -- go on; `waiting_producers` holds the messages of those in `notFullCond.Wait`.
  pub record MsgQueue : Type ℓ where
    pub msg_list : List A
    pub msg_count : ℕ
    pub max_msg_num : ℕ
    pub state : State
    pub closing : Closing
    pub inside : Option A
    pub waiting_consumers : ℕ
    pub woken_consumers : ℕ
    pub waiting_producers : List A
    pub woken_producers : ℕ

  unfoldable pub new_msg_queue : MsgQueue
  new_msg_queue = record {
    msg_list = [];
    msg_count = 0;
    max_msg_num = max_buffer_msg;
    state = actived;
    closing = not_called;
    inside = none;
    waiting_consumers = 0;
    woken_consumers = 0;
    waiting_producers = [];
    woken_producers = 0;
  }

-- `Signal` wakes one waiting goroutine, if there is any.
abbrev pub signal : ℕ → ℕ → ℕ
signal waiting woken = if ltb woken waiting then woken + 1 else woken

-- What a step does to the messages.
pub data Label {ℓ} (A : Type ℓ) : Type ℓ where
  accept : A → Label A
  deliver : A → Label A
  quiet : Label A

module _ {ℓ} {A : Type ℓ} where
  unfoldable pub is_empty : MsgQueue A → Bool
  is_empty q = q.msg_count == 0

  unfoldable pub is_full : MsgQueue A → Bool
  is_full q = leb q.max_msg_num q.msg_count

  -- The end of `Enqueue`: `PushFront`, the count and the signal.
  unfoldable pub push : A → MsgQueue A → MsgQueue A
  push msg q = record q {
    msg_list = msg ∷ q.msg_list;
    msg_count = q.msg_count + 1;
    woken_consumers = signal q.waiting_consumers q.woken_consumers;
  }

  -- `Back` and `Remove`: the last element and the others; none if there is no element.
  unfoldable pub split_back : List A → Option (List A × A)
  split_back [] = none
  split_back (a ∷ l) = elim (split_back l) [ none ↦ some ([], a) | some (l', b) ↦ some (a ∷ l', b) ]

  -- The end of `Dequeue`. `iter.Value` of a nil element panics.
  unfoldable pub pop : MsgQueue A → Go (A × MsgQueue A)
  pop q = elim (split_back q.msg_list) [
    | none ↦ panic
    | some (l, a) ↦ ret (
      a,
      record q {
        msg_list = l;
        msg_count = q.msg_count - 1;
        woken_producers = signal (length q.waiting_producers) q.woken_producers;
      },
    )
  ]

  -- With at most `consumers` goroutines in `Dequeue` and at most `producers` in `Enqueue`.
  pub data Step (consumers producers : ℕ) (q : MsgQueue A) : Label A → MsgQueue A → Type ℓ where
    refuse : q.inside ≡ none → q.state ≡ deactived → Step consumers producers q quiet q
    enter :
        (msg : A)
        → q.inside ≡ none
        → q.state ≡ actived
        → length q.waiting_producers < producers
        → Step consumers producers q quiet (record q { inside = some msg })
    store :
        (msg : A)
        → q.inside ≡ some msg
        → is_full q ≡ false
        → Step consumers producers q (accept msg) (push msg (record q { inside = none }))
    wait_not_full :
        (msg : A)
        → q.inside ≡ some msg
        → is_full q ≡ true
        → Step consumers producers q quiet
            (record q { inside = none; waiting_producers = q.waiting_producers ++ (msg ∷ []) })
    resume_store :
        (before : List A) (msg : A) (after : List A)
        → q.inside ≡ none
        → q.waiting_producers ≡ before ++ (msg ∷ after)
        → 0 < q.woken_producers
        → q.state ≡ actived
        → Step consumers producers q (accept msg) (
            push msg (record q {
              waiting_producers = before ++ after;
              woken_producers = q.woken_producers - 1;
            }))
    -- "Enqueue time out"
    resume_refuse :
        (before : List A) (msg : A) (after : List A)
        → q.inside ≡ none
        → q.waiting_producers ≡ before ++ (msg ∷ after)
        → 0 < q.woken_producers
        → q.state ≡ deactived
        → Step consumers producers q quiet (record q {
          waiting_producers = before ++ after;
          woken_producers = q.woken_producers - 1;
        })
    take :
        (a : A) (q' : MsgQueue A)
        → q.inside ≡ none
        → q.waiting_consumers < consumers
        → is_empty q ≡ false
        → pop q ≡ ret (a, q')
        → Step consumers producers q (deliver a) q'
    wait_not_empty :
        q.inside ≡ none
        → q.waiting_consumers < consumers
        → is_empty q ≡ true
        → Step consumers producers q quiet
            (record q { waiting_consumers = q.waiting_consumers + 1 })
    resume_take :
        (a : A) (q' : MsgQueue A)
        → q.inside ≡ none
        → 0 < q.woken_consumers
        → q.state ≡ actived
        → pop (record q {
          waiting_consumers = q.waiting_consumers - 1;
          woken_consumers = q.woken_consumers - 1;
        })
          ≡ ret (a, q')
        → Step consumers producers q (deliver a) q'
    -- "Queue is deactive"
    resume_fail :
        q.inside ≡ none
        → 0 < q.woken_consumers
        → q.state ≡ deactived
        → Step consumers producers q quiet (record q {
          waiting_consumers = q.waiting_consumers - 1;
          woken_consumers = q.woken_consumers - 1;
        })
    deactivate :
        q.closing ≡ not_called
        → Step consumers producers q quiet (record q { state = deactived; closing = state_set })
    broadcast_not_empty :
        q.closing ≡ state_set
        → Step consumers producers q quiet
            (record q { woken_consumers = q.waiting_consumers; closing = consumers_told })
    broadcast_not_full :
        q.closing ≡ consumers_told
        → Step consumers producers q quiet
            (record q { woken_producers = length q.waiting_producers; closing = all_told })

  -- The runs from a queue with room for `max` messages, and what they accepted and delivered, newest
  -- first.
  abbrev pub start : ℕ → MsgQueue A
  start max = record (new_msg_queue A) { max_msg_num = max }

  abbrev pub accepted : Label A → List A → List A
  accepted (accept a) l = a ∷ l
  accepted (deliver a) l = l
  accepted quiet l = l

  abbrev pub delivered : Label A → List A → List A
  delivered (deliver a) l = a ∷ l
  delivered (accept a) l = l
  delivered quiet l = l

  pub data Run (consumers producers : ℕ) (q0 : MsgQueue A)
      : List A → List A → MsgQueue A → Type ℓ where
    here : Run consumers producers q0 [] [] q0
    later :
        {ins outs : List A} {q q' : MsgQueue A} {l : Label A}
        → Run consumers producers q0 ins outs q
        → Step consumers producers q l q'
        → Run consumers producers q0 (accepted l ins) (delivered l outs) q'
