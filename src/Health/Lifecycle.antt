-- ===== src/Health/Lifecycle.antt =====
-- The status that the instance has after a sequence of checks.
use mesher.Prelude.{
  ◌∙◌, ◌≡◌, ◌⊎◌, inl, inr, refl, List, [], ◌∷◌, ◌++◌, Option, none, some, Bool, true, false,
}
use mesher.Health.{
  HealthError, Status, running, down, other_status, Instance, change_status, after_failure,
  after_success, update_instance_status, run_checks,
}

-- The registry has the local status, and the checks may change it.
abbrev pub IsWatched : Instance → Type 0
IsWatched i =
    (i.registered_status ≡ i.local_status) × ((i.local_status ≡ running) ⊎ (i.local_status ≡ down))

abbrev pub status_for : Option HealthError → Status
status_for none = running
status_for (some e) = down

failure-IsWatched :
    (b : Bool) (s : Status) (i : Instance) → IsWatched i → IsWatched (after_failure b s i)
unfolding change_status
failure-IsWatched true running i w = (refl, inr refl)
failure-IsWatched false running i w = w
failure-IsWatched b down i w = w
failure-IsWatched b (other_status t) i w = w

success-IsWatched :
    (b : Bool) (s : Status) (i : Instance) → IsWatched i → IsWatched (after_success b s i)
unfolding change_status
success-IsWatched true down i w = (refl, inl refl)
success-IsWatched false down i w = w
success-IsWatched b running i w = w
success-IsWatched b (other_status t) i w = w

update-IsWatched :
    (r : Option Bool) (e : Option HealthError) (i : Instance)
    → IsWatched i
    → IsWatched (update_instance_status r e i)
unfolding update_instance_status
update-IsWatched none e i w = w
update-IsWatched (some b) (some e) i w = failure-IsWatched b i.local_status i w
update-IsWatched (some b) none i w = success-IsWatched b i.local_status i w

after_failure-down :
    (s : Status) (i : Instance)
    → i.local_status ≡ s
    → (s ≡ running) ⊎ (s ≡ down)
    → (after_failure true s i).local_status ≡ down
unfolding change_status
after_failure-down running i e w = refl
after_failure-down down i e w = e
after_failure-down (other_status t) i e (inl w) = cc
after_failure-down (other_status t) i e (inr w) = cc

after_success-running :
    (s : Status) (i : Instance)
    → i.local_status ≡ s
    → (s ≡ running) ⊎ (s ≡ down)
    → (after_success true s i).local_status ≡ running
unfolding change_status
after_success-running running i e w = e
after_success-running down i e w = refl
after_success-running (other_status t) i e (inl w) = cc
after_success-running (other_status t) i e (inr w) = cc

last_update :
    (e : Option HealthError) (i : Instance)
    → IsWatched i
    → (update_instance_status (some true) e i).local_status ≡ status_for e
unfolding update_instance_status
last_update none i w = after_success-running i.local_status i refl w.1
last_update (some e) i w = after_failure-down i.local_status i refl w.1

-- After any checks on an instance that is running or down, as the registry has it, whatever the
-- registry made of the updates, one more check whose update the registry takes if there is one leaves
-- the instance down where the check failed and running where it passed, and the registry has that
-- status too.
pub run_checks-last :
    (ts : List (Option HealthError × Option Bool)) (e : Option HealthError) (i : Instance)
    → IsWatched i
    → ((run_checks (ts ++ ((e, some true) ∷ [])) i).local_status ≡ status_for e)
      × ((run_checks (ts ++ ((e, some true) ∷ [])) i).registered_status ≡ status_for e)
unfolding run_checks
run_checks-last [] e i w =
    let l = last_update e i w in (l, (update-IsWatched (some true) e i w).0 ∙ l)
run_checks-last ((d, r) ∷ ts) e i w =
    run_checks-last ts e (update_instance_status r d i) (update-IsWatched r d i w)
