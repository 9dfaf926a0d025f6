-- ===== src/Examples/Routines.antt =====
-- The theorems on the manager of goroutines at a concrete run.
use mesher.Prelude.{◌≡◌, refl, ltb, if◌then◌else◌}
use mesher.Routines.{
  RoutineManager, new_routine_manager, spawn, task_ends, manager_done, manager_wait, close_manager,
  one_ended, no_task, Run, new, spawned, ended, done_called, wait_called,
}
use mesher.Routines.Waiting.{Run-wakes, close_manager-waits}

-- One task is spawned and ends, one goroutine waits, and Done is called once.
abbrev waited : RoutineManager
waited = manager_done (task_ends 0 (manager_wait (spawn new_routine_manager)))

waited-Run : Run waited 1 1
unfolding manager_wait spawn
waited-Run = done_called (ended 0 refl (wait_called (spawned new)))

Run-wakes_example :
    ((manager_done waited).wg.waiting ≡ (if ltb waited.running 1 then 0 else waited.wg.waiting))
    × ((task_ends 0 waited).wg.waiting ≡ (if ltb waited.running 1 then 0 else waited.wg.waiting))
Run-wakes_example = Run-wakes 0 waited-Run

one_runs : (close_manager (spawn new_routine_manager)).running ≡ 1
unfolding close_manager spawn
one_runs = refl

-- A client with a request whose task ends while Close waits.
close_manager-waits_example :
    (task_ends 0 (close_manager (spawn new_routine_manager))).wg.waiting ≡ 1
close_manager-waits_example = close_manager-waits (spawned new) (one_ended 0 one_runs no_task)
