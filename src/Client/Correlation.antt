-- ===== src/Client/Correlation.antt =====
-- Which call an answer goes to.
use mesher.Prelude.{
  ℕ, suc, ◌<◌, ◌≡◌, inl, inr, refl, sym, ap, ◌∙◌, List, [], ◌∷◌, Option, none, some, true, false,
  ◌==◌, ==_iff, if-cases, Bool-cases, All, arith,
}
use mesher.Message.{DubboRsp}
use mesher.Client.{
  Phase, preparing, waiting, received, timed_out, removing, returned, failed, Call, DubboClient,
  new_dubbo_client, update, find, remove, set_phase, enter, add_wait_msg, remove_wait_msg, reply_to,
  rsp_call_back, finish, finish_timeout, Step, send, wait, reply, hand_over, time_out, give_up,
  go_on, go_on_timeout, answer, no_answer, begin_close, lock_close, tell, end_close, reopen, Run,
  here, later,
}

some-inj : {A : Type 0} {a b : A} → some a ≡ some b → a ≡ b
some-inj e = cc

returned-inj : {a b : Option DubboRsp} → returned a ≡ returned b → a ≡ b
returned-inj e = cc

-- The response that a call holds or has returned has the id of its request.
abbrev IsMatched : Call → Type 0
IsMatched c =
    ((r : DubboRsp) → c.rsp ≡ some r → r.id ≡ c.msg_id)
    × ((r : DubboRsp) → c.phase ≡ returned (some r) → r.id ≡ c.msg_id)

abbrev Knows : (ℕ → Call) → ℕ → ℕ × ℕ → Type 0
Knows calls next (id, k) = (k < next) × ((calls k).msg_id ≡ id)

-- Each entry of the map names a call that was made with the id of the entry.
abbrev Inv : DubboClient → Type 0
Inv s = ((k : ℕ) → IsMatched (s.calls k)) × All (Knows s.calls s.next) s.msg_wait_rsp_map

update-IsMatched :
    (k : ℕ) (c : Call) (calls : ℕ → Call)
    → ((j : ℕ) → IsMatched (calls j))
    → IsMatched c
    → (j : ℕ) → IsMatched (update k c calls j)
update-IsMatched k c calls h m j = if-cases IsMatched (j == k) c (calls j) (λ _. m) (λ _. h j)

update-msg_id :
    (k : ℕ) (c : Call) (calls : ℕ → Call) (j : ℕ)
    → c.msg_id ≡ (calls k).msg_id
    → (update k c calls j).msg_id ≡ (calls j).msg_id
update-msg_id k c calls j e =
    if-cases (λ x. x.msg_id ≡ (calls j).msg_id) (j == k) c (calls j)
      (λ same. e ∙ ap (λ x. (calls x).msg_id) (sym ((==_iff j k).0 same))) (λ _. refl)

update-other : (n : ℕ) (c : Call) (calls : ℕ → Call) (j : ℕ) → j < n → update n c calls j ≡ calls j
update-other n c calls j h =
    if-cases (λ x. x ≡ calls j) (j == n) c (calls j) (λ same. absurd (ground (arith, h, same)))
      (λ _. refl)

update-Knows :
    (k : ℕ) (c : Call) (calls : ℕ → Call) (n : ℕ) (m : List (ℕ × ℕ))
    → c.msg_id ≡ (calls k).msg_id
    → All (Knows calls n) m
    → All (Knows (update k c calls) n) m
update-Knows k c calls n [] e a = tt
update-Knows k c calls n ((id, j) ∷ m) e a =
    ((a.0.0, update-msg_id k c calls j e ∙ a.0.1), update-Knows k c calls n m e a.1)

next-Knows :
    (c : Call) (calls : ℕ → Call) (n : ℕ) (m : List (ℕ × ℕ))
    → All (Knows calls n) m
    → All (Knows (update n c calls) (suc n)) m
next-Knows c calls n [] a = tt
next-Knows c calls n ((id, j) ∷ m) a = (
  (omega (arith, a.0.0), ap (λ x. x.msg_id) (update-other n c calls j a.0.0) ∙ a.0.1),
  next-Knows c calls n m a.1,
)

remove-Knows :
    (calls : ℕ → Call) (n id : ℕ) (m : List (ℕ × ℕ))
    → All (Knows calls n) m
    → All (Knows calls n) (remove id m)
unfolding remove
remove-Knows calls n id [] a = tt
remove-Knows calls n id ((i, k) ∷ m) a =
    if-cases (λ l. All (Knows calls n) l) (i == id) (remove id m) ((i, k) ∷ remove id m)
      (λ _. remove-Knows calls n id m a.1) (λ _. (a.0, remove-Knows calls n id m a.1))

find-Knows :
    (calls : ℕ → Call) (n id k : ℕ) (m : List (ℕ × ℕ))
    → All (Knows calls n) m
    → find id m ≡ some k
    → (calls k).msg_id ≡ id
unfolding find
find-Knows calls n id k [] a e = cc
find-Knows calls n id k ((i, j) ∷ m) a e = elim (Bool-cases (i == id)) [
  | inl same ↦
      ap (λ x. (calls x).msg_id) {x = k} {y = j} (ground (arith, e, same))
      ∙ (a.0.1 ∙ (==_iff i id).0 same)
  | inr other ↦ find-Knows calls n id k m a.1 (ground (arith, e, other))
]

set_phase-Inv :
    (k : ℕ) (p : Phase) (s : DubboClient)
    → ((r : DubboRsp) → p ≡ returned (some r) → r.id ≡ (s.calls k).msg_id)
    → Inv s
    → Inv (set_phase k p s)
set_phase-Inv k p s h (m, a) = (
  update-IsMatched k (record (s.calls k) { phase = p }) s.calls m ((m k).0, h),
  update-Knows k (record (s.calls k) { phase = p }) s.calls s.next s.msg_wait_rsp_map refl a,
)

reply_to-Inv :
    (r : DubboRsp) (o : Option ℕ) (s : DubboClient)
    → ((k : ℕ) → o ≡ some k → (s.calls k).msg_id ≡ r.id)
    → Inv s
    → Inv (reply_to r o s)
reply_to-Inv r none s h i = i
reply_to-Inv r (some k) s h (m, a) = (
  update-IsMatched k (record (s.calls k) { rsp = some r }) s.calls m
      ((λ q e. ap (λ x. x.id) (some-inj (sym e)) ∙ sym (h k refl)), (m k).1),
  update-Knows k (record (s.calls k) { rsp = some r }) s.calls s.next s.msg_wait_rsp_map refl a,
)

remove_wait_msg-Inv : (id : ℕ) (s : DubboClient) → Inv s → Inv (remove_wait_msg id s)
unfolding remove_wait_msg
remove_wait_msg-Inv id s (m, a) = (m, remove-Knows s.calls s.next id s.msg_wait_rsp_map a)

wait-Inv : (k : ℕ) (s : DubboClient) → k < s.next → Inv s → Inv (add_wait_msg k s)
unfolding add_wait_msg
wait-Inv k s h (m, a) =
    let (m2, a2) = set_phase-Inv k waiting s (λ r e. cc) (m, a) in
    let id = (s.calls k).msg_id in
    (
      m2,
      (
        (h, update-msg_id k (record (s.calls k) { phase = waiting }) s.calls k refl),
        remove-Knows (set_phase k waiting s).calls s.next id s.msg_wait_rsp_map a2,
      ),
    )

Step-Inv : {s t : DubboClient} → Step s t → Inv s → Inv t
Step-Inv (send s id dialled f) (m, a) =
    unfold enter in
    (
      update-IsMatched s.next (record { msg_id = id; rsp = none; phase = preparing }) s.calls m
          ((λ r e. cc), λ r e. cc),
      next-Knows (record { msg_id = id; rsp = none; phase = preparing }) s.calls s.next
          s.msg_wait_rsp_map a,
    )
Step-Inv (wait s k h f p) i = wait-Inv k s h i
Step-Inv (reply s r f) i =
    unfold rsp_call_back in
    reply_to-Inv r (find r.id s.msg_wait_rsp_map) s
      (λ k e. find-Knows s.calls s.next r.id k s.msg_wait_rsp_map i.1 e) i
Step-Inv (hand_over s k h p) i = set_phase-Inv k received s (λ r e. cc) i
Step-Inv (time_out s k p) i = set_phase-Inv k timed_out s (λ r e. cc) i
Step-Inv (give_up s k p c) i = set_phase-Inv k failed s (λ r e. cc) i
Step-Inv (go_on s k p c) i = set_phase-Inv k (removing false) s (λ r e. cc) i
Step-Inv (go_on_timeout s k p c) i = set_phase-Inv k (removing true) s (λ r e. cc) i
Step-Inv (answer s k p f) i =
    unfold finish in
    set_phase-Inv k (returned (s.calls k).rsp) (remove_wait_msg (s.calls k).msg_id s)
      (λ r e. (i.0 k).0 r (returned-inj e)) (remove_wait_msg-Inv (s.calls k).msg_id s i)
Step-Inv (no_answer s k p f) i =
    unfold finish_timeout in
    set_phase-Inv k failed (remove_wait_msg (s.calls k).msg_id s) (λ r e. cc)
      (remove_wait_msg-Inv (s.calls k).msg_id s i)
Step-Inv (begin_close s c d) i = i
Step-Inv (lock_close s c f) i = i
Step-Inv (tell s k ks h p) i = set_phase-Inv k received s (λ r e. cc) i
Step-Inv (end_close s h) i = (i.0, tt)
Step-Inv (reopen s c) i = i

Run-Inv : {s t : DubboClient} → Run s t → Inv s → Inv t
Run-Inv (here s) i = i
Run-Inv (later s t u run step) i = Step-Inv step (Run-Inv run i)

-- In every run from a new client, whatever answers arrive and however the calls, the timers and the
-- closing interleave, a call of `Send` that returns a response returns one with the id of its own
-- request.
pub Run-correlated :
    {s : DubboClient} (k : ℕ) (r : DubboRsp)
    → Run new_dubbo_client s
    → (s.calls k).phase ≡ returned (some r)
    → r.id ≡ (s.calls k).msg_id
Run-correlated k r run e = ((Run-Inv run ((λ j. ((λ q e. cc), λ q e. cc)), tt)).0 k).1 r e
