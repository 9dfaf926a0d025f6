-- ===== src/Client/Blocked.antt =====
-- An answer that comes after its call timed out.
use mesher.Prelude.{
  subst, ℕ, ◌≡◌, ◌≢◌, refl, sym, ap, ◌∙◌, List, Option, none, some, true, false, ◌==◌, if-cases,
  arith,
}
use mesher.Message.{DubboRsp}
use mesher.Client.{
  Phase, preparing, waiting, timed_out, removing, returned, failed, Call, Holder, free, replying,
  telling, DubboClient, nobody, new_dubbo_client, update, find, set_phase, enter, add_wait_msg,
  reply_to, rsp_call_back, Step, send, wait, reply, hand_over, time_out, give_up, go_on,
  go_on_timeout, answer, no_answer, begin_close, lock_close, tell, end_close, reopen, Run, here,
  later,
}

abbrev PastSelect : Phase → Type 0
PastSelect preparing = ⊥
PastSelect waiting = ⊥
PastSelect p = Unit {0}

abbrev IsUnanswered : Phase → Type 0
IsUnanswered p = (o : Option DubboRsp) → p ≢ returned o

-- The callback holds the mutex and waits for a call that no longer listens; n calls were made.
abbrev IsLate : ℕ → ℕ → DubboClient → Type 0
IsLate k n s =
    (s.holder ≡ replying k)
    × PastSelect (s.calls k).phase
    × (s.next ≡ n)
    × ((j : ℕ) → IsUnanswered (s.calls j).phase)

not_free : {k : ℕ} {h : Holder} → h ≡ replying k → h ≡ free → ⊥
not_free l f = cc

not_telling : {k : ℕ} {ks : List ℕ} {h : Holder} → h ≡ replying k → h ≡ telling ks → ⊥
not_telling l f = cc

replying-inj : {j k : ℕ} → replying j ≡ replying k → j ≡ k
replying-inj e = cc

not_waiting :
    (s : DubboClient) (j k : ℕ)
    → PastSelect (s.calls k).phase
    → j ≡ k
    → (s.calls j).phase ≡ waiting
    → ⊥
not_waiting s j k past e p = subst PastSelect (ap (λ i. (s.calls i).phase) (sym e) ∙ p) past

update-IsUnanswered :
    (k : ℕ) (c : Call) (calls : ℕ → Call)
    → IsUnanswered c.phase
    → ((j : ℕ) → IsUnanswered (calls j).phase)
    → (j : ℕ) → IsUnanswered (update k c calls j).phase
update-IsUnanswered k c calls un u i =
    if-cases (λ x. IsUnanswered x.phase) (i == k) c (calls i) (λ _. un) (λ _. u i)

set_phase-IsLate :
    (k n j : ℕ) (p : Phase) (s : DubboClient)
    → PastSelect p
    → IsUnanswered p
    → IsLate k n s
    → IsLate k n (set_phase j p s)
set_phase-IsLate k n j p s past un (h, w, m, u) =
    let c : Call = record (s.calls j) { phase = p } in
    (
      h,
      if-cases (λ x. PastSelect x.phase) (k == j) c (s.calls k) (λ _. past) (λ _. w),
      m,
      update-IsUnanswered j c s.calls un u,
    )

Step-IsLate : {k n : ℕ} {s t : DubboClient} → Step s t → IsLate k n s → IsLate k n t
Step-IsLate (send s id dialled f) l = absurd (not_free l.0 f)
Step-IsLate (wait s j h f p) l = absurd (not_free l.0 f)
Step-IsLate (reply s r f) l = absurd (not_free l.0 f)
Step-IsLate {k} (hand_over s j h p) l =
    absurd (not_waiting s j k l.1 (replying-inj (sym h ∙ l.0)) p)
Step-IsLate {k} {n} (time_out s j p) l = set_phase-IsLate k n j timed_out s tt (λ o e. cc) l
Step-IsLate {k} {n} (give_up s j p c) l = set_phase-IsLate k n j failed s tt (λ o e. cc) l
Step-IsLate {k} {n} (go_on s j p c) l = set_phase-IsLate k n j (removing false) s tt (λ o e. cc) l
Step-IsLate {k} {n} (go_on_timeout s j p c) l =
    set_phase-IsLate k n j (removing true) s tt (λ o e. cc) l
Step-IsLate (answer s j p f) l = absurd (not_free l.0 f)
Step-IsLate (no_answer s j p f) l = absurd (not_free l.0 f)
Step-IsLate (begin_close s c d) l = l
Step-IsLate (lock_close s c f) l = absurd (not_free l.0 f)
Step-IsLate (tell s j ks h p) l = absurd (not_telling l.0 h)
Step-IsLate (end_close s h) l = absurd (not_telling l.0 h)
Step-IsLate (reopen s c) l = l

Run-IsLate : {k n : ℕ} {s t : DubboClient} → Run s t → IsLate k n s → IsLate k n t
Run-IsLate (here s) l = l
Run-IsLate (later s t u run step) l = Step-IsLate step (Run-IsLate run l)

-- The state after one request timed out and then its answer came.
abbrev asked : DubboRsp → DubboClient
asked r = add_wait_msg 0 (enter r.id true new_dubbo_client)

abbrev asked_late : DubboRsp → DubboClient
asked_late r = set_phase 0 timed_out (asked r)

abbrev answered_late : DubboRsp → DubboClient
answered_late r = reply_to r (some 0) (asked_late r)

asked_late-found : (r : DubboRsp) → find r.id (asked_late r).msg_wait_rsp_map ≡ some 0
unfolding find add_wait_msg enter
asked_late-found r = ground arith

late_step : (r : DubboRsp) → Step (asked_late r) (answered_late r)
late_step r =
    subst (λ o. Step (asked_late r) (reply_to r o (asked_late r))) (asked_late-found r)
      (unfold rsp_call_back in reply (asked_late r) r (unfold add_wait_msg enter in refl))

late_run : (r : DubboRsp) → Run new_dubbo_client (answered_late r)
unfolding enter add_wait_msg
late_run r =
    later _ _ _
      (later _ _ _
        (later _ _ _ (later _ _ _ (here new_dubbo_client) (send new_dubbo_client r.id true refl))
          (wait (enter r.id true new_dubbo_client) 0 (omega arith) refl refl))
        (time_out (asked r) 0 refl))
      (late_step r)

answered_late-IsLate : (r : DubboRsp) → IsLate 0 1 (answered_late r)
unfolding enter add_wait_msg
answered_late-IsLate r =
    let c : Call = record { msg_id = r.id; rsp = some r; phase = timed_out } in
    (
      refl,
      tt,
      refl,
      update-IsUnanswered 0 c (asked_late r).calls (λ o e. cc)
          (update-IsUnanswered 0 (record c { rsp = none }) (asked r).calls (λ o e. cc)
            (update-IsUnanswered 0 (record c { rsp = none; phase = waiting })
              (enter r.id true new_dubbo_client).calls (λ o e. cc)
              (update-IsUnanswered 0 (record c { rsp = none; phase = preparing }) nobody (λ o e. cc)
                (λ j o e. cc)))),
    )

-- For every response there is a run from a new client, with one request of that id which timed out
-- before this response came and was stored for it, after which in every further run the callback holds
-- the mutex for good: no further call starts and no call returns a response.
pub late_answer_blocks :
    (r : DubboRsp)
    → (s : DubboClient) × Run new_dubbo_client s
      × ((s.calls 0).phase ≡ timed_out)
      × ((s.calls 0).msg_id ≡ r.id)
      × ((s.calls 0).rsp ≡ some r)
      × ((t : DubboClient)
          → Run s t
          → (t.holder ≡ replying 0)
            × (t.next ≡ 1)
            × ((j : ℕ) (o : Option DubboRsp) → (t.calls j).phase ≢ returned o))
unfolding enter add_wait_msg
late_answer_blocks r = (
  answered_late r,
  late_run r,
  refl,
  refl,
  refl,
  λ t run. let (h, past, n, un) = Run-IsLate run (answered_late-IsLate r) in (h, n, un),
)
