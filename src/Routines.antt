-- ===== src/Routines.antt =====
-- protocol/dubbo/utils/thrmgr.go: the group of goroutines that a manager starts, and the wait for their
-- end. A goroutine is in a call, so the state has the numbers of those that run a task and of those that
-- stand in `cond.Wait`; a wake-up that no broadcast caused does not occur in Go.
pub mod Waiting
use mesher.Prelude.{ℕ, zero, suc, ◌+◌, ◌<◌, ◌≡◌, Bool, true, false, if◌then◌else◌}
use mesher.Prelude.Int.{ℤ, pos, negsuc, is_negative}

pub record ThreadGroupWait : Type 0 where
  pub count : ℤ
  pub waiting : ℕ

abbrev pub new_thread_group_wait : ThreadGroupWait
new_thread_group_wait = record { count = pos 1; waiting = 0 }

abbrev pub succ : ℤ → ℤ
succ (pos n) = pos (suc n)
succ (negsuc zero) = pos 0
succ (negsuc (suc n)) = negsuc n

abbrev pub pred : ℤ → ℤ
pred (pos zero) = negsuc 0
pred (pos (suc n)) = pos n
pred (negsuc n) = negsuc (suc n)

-- `Add`: the argument is not used.
unfoldable pub add : ℤ → ThreadGroupWait → ThreadGroupWait
add n w = record w { count = succ w.count }

-- `Done`: a broadcast ends every wait.
unfoldable pub done : ThreadGroupWait → ThreadGroupWait
done w =
    let c = pred w.count in record { count = c; waiting = if is_negative c then 0 else w.waiting }

-- `Wait` waits whatever the count is.
unfoldable pub wait : ThreadGroupWait → ThreadGroupWait
wait w = record w { waiting = w.waiting + 1 }

-- A manager with the number of goroutines that run a task.
pub record RoutineManager : Type 0 where
  pub wg : ThreadGroupWait
  pub running : ℕ

abbrev pub new_routine_manager : RoutineManager
new_routine_manager = record { wg = new_thread_group_wait; running = 0 }

unfoldable pub spawn : RoutineManager → RoutineManager
unfolding add
spawn m = record { wg = add (pos 1) m.wg; running = m.running + 1 }

-- The end of a task, of which so many others run.
unfoldable pub task_ends : ℕ → RoutineManager → RoutineManager
unfolding done
task_ends others m = record { wg = done m.wg; running = others }

unfoldable pub manager_done : RoutineManager → RoutineManager
unfolding done
manager_done m = record m { wg = done m.wg }

unfoldable pub manager_wait : RoutineManager → RoutineManager
unfolding wait
manager_wait m = record m { wg = wait m.wg }

-- The calls of the program and the ends of tasks, in any order: the manager after them, with the number
-- of calls of `Done` and of `Wait`.
pub data Run : RoutineManager → ℕ → ℕ → Type 0 where
  new : Run new_routine_manager 0 0
  spawned : {m : RoutineManager} {dones waits : ℕ} → Run m dones waits → Run (spawn m) dones waits
  ended :
      {m : RoutineManager} {dones waits : ℕ} (others : ℕ)
      → m.running ≡ suc others
      → Run m dones waits
      → Run (task_ends others m) dones waits
  done_called :
      {m : RoutineManager} {dones waits : ℕ}
      → Run m dones waits
      → Run (manager_done m) (suc dones) waits
  wait_called :
      {m : RoutineManager} {dones waits : ℕ}
      → Run m dones waits
      → Run (manager_wait m) dones (suc waits)

-- The manager in `DubboClient.Close`, behind the closing of the connection.
unfoldable pub close_manager : RoutineManager → RoutineManager
unfolding manager_done manager_wait
close_manager m = manager_wait (manager_done m)

-- What tasks can still do: be spawned, and end.
pub data Tasks (m : RoutineManager) : RoutineManager → Type 0 where
  no_task : Tasks m m
  one_spawned : {m' : RoutineManager} → Tasks m m' → Tasks m (spawn m')
  one_ended :
      {m' : RoutineManager} (others : ℕ)
      → m'.running ≡ suc others
      → Tasks m m'
      → Tasks m (task_ends others m')
