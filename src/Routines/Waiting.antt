-- ===== src/Routines/Waiting.antt =====
-- The count of a manager's group, and who waits for ever.
use mesher.Prelude.{
  ℕ, zero, suc, ◌+◌, ◌≤◌, ◌≡◌, refl, ap, ◌∙◌, ltb, subst, false, if◌then◌else◌, arith,
}
use mesher.Prelude.Int.{ℤ, pos, negsuc, is_negative}
use mesher.Routines.{
  ThreadGroupWait, succ, pred, done, add, wait, RoutineManager, spawn, task_ends, manager_done,
  manager_wait, close_manager, Tasks, no_task, one_spawned, one_ended, Run, new, spawned, ended,
  done_called, wait_called,
}

-- The count is one more than the tasks that run, less the calls of Done.
abbrev pub IsCount : ℤ → ℕ → ℕ → Type 0
IsCount (pos c) running dones = c + dones ≡ suc running
IsCount (negsuc c) running dones = dones ≡ suc (suc (running + c))

succ-IsCount : (c : ℤ) (r d : ℕ) → IsCount c r d → IsCount (succ c) (r + 1) d
succ-IsCount (pos c) r d h = omega (arith, h)
succ-IsCount (negsuc zero) r d h = omega (arith, h)
succ-IsCount (negsuc (suc c)) r d h = omega (arith, h)

pred-IsCount_task : (c : ℤ) (r d : ℕ) → IsCount c (suc r) d → IsCount (pred c) r d
pred-IsCount_task (pos zero) r d h = omega (arith, h)
pred-IsCount_task (pos (suc c)) r d h = omega (arith, h)
pred-IsCount_task (negsuc c) r d h = omega (arith, h)

pred-IsCount_done : (c : ℤ) (r d : ℕ) → IsCount c r d → IsCount (pred c) r (suc d)
pred-IsCount_done (pos zero) r d h = omega (arith, h)
pred-IsCount_done (pos (suc c)) r d h = omega (arith, h)
pred-IsCount_done (negsuc c) r d h = omega (arith, h)

Run-IsCount : {m : RoutineManager} {d w : ℕ} → Run m d w → IsCount m.wg.count m.running d
unfolding spawn task_ends manager_done manager_wait
Run-IsCount new = refl
Run-IsCount (spawned {m} {dones} r) = succ-IsCount m.wg.count m.running dones (Run-IsCount r)
Run-IsCount (ended {m} {dones} others e r) =
    pred-IsCount_task m.wg.count others dones
      (subst (λ k. IsCount m.wg.count k dones) e (Run-IsCount r))
Run-IsCount (done_called {m} {dones} r) =
    pred-IsCount_done m.wg.count m.running dones (Run-IsCount r)
Run-IsCount (wait_called r) = Run-IsCount r

pred-negative : (c : ℤ) (r d : ℕ) → IsCount c r d → is_negative (pred c) ≡ ltb r d
pred-negative (pos zero) r d h = ground (arith, h)
pred-negative (pos (suc c)) r d h = ground (arith, h)
pred-negative (negsuc c) r d h = ground (arith, h)

done-waiting :
    (w : ThreadGroupWait) (r d : ℕ)
    → IsCount w.count r d
    → (done w).waiting ≡ (if ltb r d then 0 else w.waiting)
unfolding done
done-waiting w r d h = ap (λ b. if b then 0 else w.waiting) (pred-negative w.count r d h)

-- In every run, a call of Done, and the end of a task, ends all waits if there were more calls of Done
-- before than tasks that run, and otherwise it ends none.
pub Run-wakes :
    {m : RoutineManager} {dones waits : ℕ} (others : ℕ)
    → Run m dones waits
    → ((manager_done m).wg.waiting ≡ (if ltb m.running dones then 0 else m.wg.waiting))
      × ((task_ends others m).wg.waiting ≡ (if ltb m.running dones then 0 else m.wg.waiting))
unfolding manager_done task_ends
Run-wakes {m} {dones} others r = let e = done-waiting m.wg m.running dones (Run-IsCount r) in (e, e)

-- In every run with at most one call of Done, every call of Wait still waits, though all tasks may have
-- ended.
Run-waits :
    {m : RoutineManager} {dones waits : ℕ} → Run m dones waits → dones ≤ 1 → m.wg.waiting ≡ waits
unfolding spawn manager_wait wait add
Run-waits new h = refl
Run-waits (spawned r) h = Run-waits r h
Run-waits (ended {m} {dones} others e r) h =
    let few : ltb m.running dones ≡ false = ground arith in
    (Run-wakes others r).1 ∙ rw few (Run-waits r h)
Run-waits (done_called {m} {dones} r) h =
    let few : ltb m.running dones ≡ false = ground arith in
    (Run-wakes 0 r).0 ∙ rw few (Run-waits r (omega arith))
Run-waits (wait_called r) h = ap (λ n. n + 1) (Run-waits r h) ∙ omega arith

Tasks-Run :
    {m m' : RoutineManager} {dones waits : ℕ} → Run m dones waits → Tasks m m' → Run m' dones waits
Tasks-Run r no_task = r
Tasks-Run r (one_spawned t) = spawned (Tasks-Run r t)
Tasks-Run r (one_ended others e t) = ended others e (Tasks-Run r t)

-- The first call of DubboClient.Close waits, and goes on waiting whatever tasks are spawned or end
-- later: with no other call of Done it never returns.
pub close_manager-waits :
    {m m' : RoutineManager} → Run m 0 0 → Tasks (close_manager m) m' → m'.wg.waiting ≡ 1
unfolding close_manager
close_manager-waits r t = Run-waits (Tasks-Run (wait_called (done_called r)) t) (omega arith)
