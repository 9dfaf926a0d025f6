-- ===== src/Schema/Calls.antt =====
-- What is to be shown of a property of the caches and the refresh queue so that every run keeps it.
use mesher.Prelude.{ℕ, ◌≤◌, ◌≡◌, subst, List, [], ◌∷◌, ◌++◌, Option, none, some}
use mesher.Prelude.Text.{Text}
use mesher.Prelude.Go.{Go, ret, panic}
use mesher.Istio.{MicroServiceInstance}
use mesher.Schema.Cache.{
  GoCache, MicroService, Task, interface_job, proto_job, Job, State, push, pop, proto_for_service,
  set_svc, set_proto, add_job, refreshed_svc, refreshed_proto, run_task, Step, time_goes,
  service_missed, proto_missed, not_discovered, service_found, proto_found, job_added, fires,
  put_back, ends, Run, none_yet, step,
}

module _ {ℓ κ} {C D : Type ℓ} (svc_cache : GoCache C MicroService) (proto_cache : GoCache D Text)
    (tick : ℕ) (P : State C D → Type κ) where
  pub record IsKept : Type (ℓ ⊔ κ) where
    pub on_time : (st : State C D) (t : ℕ) → P st → st.now ≤ t → P (record st { now = t })
    pub on_ask : (ts : List Task) (st : State C D) → P st → P (record st { asking = ts })
    pub on_svc :
        (ts : List Task) (name : Text) (svc : MicroService) (st : State C D)
        → P st
        → P (record (set_svc svc_cache proto_cache tick name svc st) {
          asking = ts;
          adding = interface_job name ∷ st.adding;
        })
    pub on_proto :
        (ts : List Task) (id : Text) (instances : List MicroServiceInstance) (st : State C D)
        → P st
        → P (record (set_proto svc_cache proto_cache tick id instances st) {
          asking = ts;
          adding = proto_job id ∷ st.adding;
        })
    pub on_add :
        (before after : List Task) (t : Task) (st : State C D)
        → P st
        → st.adding ≡ before ++ (t ∷ after)
        → P (record (add_job svc_cache proto_cache tick t st) { adding = before ++ after })
    pub on_fire :
        (due j : Job) (js : List Job) (st : State C D)
        → P st
        → st.held ≡ none
        → pop st.jobs ≡ some (j, js)
        → P (record st { jobs = js; held = some j; running = j.fn ∷ st.running })
    pub on_back :
        (j : Job) (st : State C D)
        → P st
        → st.held ≡ some j
        → P (record st { jobs = push tick st.now j.fn st.jobs; held = none })
    pub on_end :
        (before after : List Task) (t : Task) (st : State C D)
        → P st
        → st.running ≡ before ++ (t ∷ after)
        → P (record st { running = before ++ after })
    pub on_svc_set :
        (before after : List Task) (name : Text) (svc : MicroService) (st : State C D)
        → P st
        → st.running ≡ before ++ (interface_job name ∷ after)
        → P (record st { svcs = svc_cache.set st.svcs name svc; running = before ++ after })
    pub on_proto_set :
        (before after : List Task) (id proto : Text) (st : State C D)
        → P st
        → st.running ≡ before ++ (proto_job id ∷ after)
        → P (record st { protos = proto_cache.set st.protos id proto; running = before ++ after })

  abbrev Ended : List Task → Go (State C D) → Type κ
  Ended rest (ret st) = P (record st { running = rest })
  Ended rest panic = Unit {κ}

  module _ (k : IsKept) where
    refreshed_svc-Ended :
        (before after : List Task) (name : Text) (st : State C D) (o : Option (List MicroService))
        → P st
        → st.running ≡ before ++ (interface_job name ∷ after)
        → Ended (before ++ after) (refreshed_svc svc_cache proto_cache tick name st o)
    refreshed_svc-Ended before after name st none p e =
        k.on_end before after (interface_job name) st p e
    refreshed_svc-Ended before after name st (some []) p e = tt
    refreshed_svc-Ended before after name st (some (svc ∷ svcs)) p e =
        k.on_svc_set before after name svc st p e

    refreshed_proto-Ended :
        (before after : List Task) (id : Text) (st : State C D)
        (o : Option (List MicroServiceInstance))
        → P st
        → st.running ≡ before ++ (proto_job id ∷ after)
        → Ended (before ++ after) (ret (refreshed_proto svc_cache proto_cache tick id st o))
    refreshed_proto-Ended before after id st none p e = k.on_end before after (proto_job id) st p e
    refreshed_proto-Ended before after id st (some instances) p e =
        k.on_proto_set before after id (proto_for_service instances) st p e

    run_task-Ended :
        (discover : Text → Option (List MicroService))
        (instances_of : Text → Option (List MicroServiceInstance)) (before after : List Task)
        (t : Task) (st : State C D)
        → P st
        → st.running ≡ before ++ (t ∷ after)
        → Ended (before ++ after) (run_task svc_cache proto_cache tick discover instances_of t st)
    unfolding run_task
    run_task-Ended discover instances_of before after (interface_job name) st p e =
        refreshed_svc-Ended before after name st (discover name) p e
    run_task-Ended discover instances_of before after (proto_job id) st p e =
        refreshed_proto-Ended before after id st (instances_of id) p e

    Step-kept : {st st' : State C D} → P st → Step svc_cache proto_cache tick st st' → P st'
    Step-kept p (time_goes st t h) = k.on_time st t p h
    Step-kept p (service_missed name st e) = k.on_ask (interface_job name ∷ st.asking) st p
    Step-kept p (proto_missed id st e) = k.on_ask (proto_job id ∷ st.asking) st p
    Step-kept p (not_discovered before after t st e) = k.on_ask (before ++ after) st p
    Step-kept p (service_found before after name svc st e) =
        k.on_svc (before ++ after) name svc st p
    Step-kept p (proto_found before after id instances st e) =
        k.on_proto (before ++ after) id instances st p
    Step-kept p (job_added before after t st e) = k.on_add before after t st p e
    Step-kept p (fires due j js st h t d e) = k.on_fire due j js st p h e
    Step-kept p (put_back j st h) = k.on_back j st p h
    Step-kept p (ends discover instances_of before after t st st' h e) =
        subst (Ended (before ++ after)) e
          (run_task-Ended discover instances_of before after t st p h)

    pub Run-kept : {start st : State C D} → P start → Run svc_cache proto_cache tick start st → P st
    Run-kept p none_yet = p
    Run-kept p (step r s) = Step-kept (Run-kept p r) s
