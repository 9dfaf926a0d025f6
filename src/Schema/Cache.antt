-- ===== src/Schema/Cache.antt =====
-- protocol/dubbo/schema: the services of interfaces and the protocols of services are cached
-- (schema.go), and each cached entry has a job that refreshes it (cache.go). The library go-cache, of
-- which the entries never expire here, and the registries are parameters; a time is a number.
use mesher.Prelude.{ℕ, ◌+◌, ◌≤◌, ◌≡◌, List, [], ◌∷◌, ◌++◌, Option, none, some, if◌then◌else◌}
use mesher.Prelude.Text.{Text, codes, lookup, text_eq}
use mesher.Prelude.Go.{Go, ret, panic}
use mesher.Istio.{MicroServiceInstance}

-- A cache of go-cache: `Get` and `Set`, and what they promise.
pub record GoCache {ℓ} (C : Type ℓ) (V : Type 0) : Type ℓ where
  pub get : C → Text → Option V
  pub set : C → Text → V → C
  pub get-set :
      (c : C) (k j : Text) (v : V) → get (set c k v) j ≡ (if text_eq k j then some v else get c j)

-- `registry.MicroService`
pub record MicroService : Type 0 where
  pub service_id : Text
  pub service_name : Text
  pub version : Text
  pub app_id : Text

-- What a job does: `newInterfaceJob` or `newProtoJob`.
pub data Task : Type 0 where
  interface_job proto_job : Text → Task

pub record Job : Type 0 where
  pub fn : Task
  pub next : ℕ

-- The two caches, the queue of the refresher, the job that its goroutine has taken out, the calls of
-- `Fn` that run, the lookups that found no entry and ask the registry, those that have set an entry and
-- are about to add its job, and the clock.
pub record State {ℓ} (C D : Type ℓ) : Type ℓ where
  pub svcs : C
  pub protos : D
  pub jobs : List Job
  pub held : Option Job
  pub running : List Task
  pub asking : List Task
  pub adding : List Task
  pub now : ℕ

abbrev pub dubbo : Text
dubbo = codes "dubbo"

abbrev pub rest_proto : Text
rest_proto = codes "rest"

abbrev pub proto_after : Option Text → Text → Text
proto_after none later = rest_proto
proto_after (some address) later = later

unfoldable pub proto_for_service : List MicroServiceInstance → Text
proto_for_service [] = dubbo
proto_for_service (i ∷ is) = proto_after (lookup dubbo i.endpoints_map) (proto_for_service is)

-- `Queue.Push`: the job is due one tick from now.
unfoldable pub push : ℕ → ℕ → Task → List Job → List Job
push tick now fn jobs = jobs ++ (record { fn = fn; next = now + tick } ∷ [])

-- `Queue.Top` and `Queue.Pop`: none while the caller waits.
unfoldable pub top : List Job → Option Job
top [] = none
top (j ∷ js) = some j

unfoldable pub pop : List Job → Option (Job × List Job)
pop [] = none
pop (j ∷ js) = some (j, js)

module _ {ℓ} {C D : Type ℓ} (svc_cache : GoCache C MicroService) (proto_cache : GoCache D Text)
    (tick : ℕ) where
  abbrev pub set_svc : Text → MicroService → State C D → State C D
  set_svc name svc st = record st { svcs = svc_cache.set st.svcs name svc }

  abbrev pub set_proto : Text → List MicroServiceInstance → State C D → State C D
  set_proto id instances st = record st {
    protos = proto_cache.set st.protos id (proto_for_service instances);
  }

  -- `Add` of the refresher
  abbrev pub add_job : Task → State C D → State C D
  add_job fn st = record st { jobs = push tick st.now fn st.jobs }

  -- The first service is taken; a list that is empty and not nil panics.
  abbrev pub fetched_svc :
      Text → State C D → Option (List MicroService) → Go (Option MicroService × State C D)
  fetched_svc name st none = ret (none, st)
  fetched_svc name st (some []) = panic
  fetched_svc name st (some (svc ∷ others)) =
      let st' = add_job (interface_job name) (set_svc name svc st) in
      ret (svc_cache.get st'.svcs name, st')

  abbrev pub cached_svc :
      (Text → Option (List MicroService))
      → Text
      → State C D
      → Option MicroService
      → Go (Option MicroService × State C D)
  cached_svc discover name st none = fetched_svc name st (discover name)
  cached_svc discover name st (some svc) = ret (some svc, st)

  -- `GetSvcByInterface`
  unfoldable pub get_svc_by_interface :
      (Text → Option (List MicroService)) → Text → State C D → Go (Option MicroService × State C D)
  unfolding push
  get_svc_by_interface discover name st = cached_svc discover name st (svc_cache.get st.svcs name)

  abbrev or_dubbo : Option Text → Text
  or_dubbo none = dubbo
  or_dubbo (some proto) = proto

  abbrev pub fetched_proto :
      Text → State C D → Option (List MicroServiceInstance) → Text × State C D
  fetched_proto id st none = (dubbo, st)
  fetched_proto id st (some instances) =
      let st' = add_job (proto_job id) (set_proto id instances st) in
      (or_dubbo (proto_cache.get st'.protos id), st')

  abbrev pub cached_proto :
      (Text → Option (List MicroServiceInstance))
      → Text
      → State C D
      → Option Text
      → Text × State C D
  cached_proto instances_of id st none = fetched_proto id st (instances_of id)
  cached_proto instances_of id st (some proto) = (proto, st)

  -- `GetSupportProto`; an error of the registry is none.
  unfoldable pub get_support_proto :
      (Text → Option (List MicroServiceInstance))
      → Option MicroService
      → State C D
      → Text × State C D
  unfolding push proto_for_service
  get_support_proto instances_of none st = ([], st)
  get_support_proto instances_of (some svc) st =
      cached_proto instances_of svc.service_id st (proto_cache.get st.protos svc.service_id)

  abbrev pub refreshed_svc : Text → State C D → Option (List MicroService) → Go (State C D)
  refreshed_svc name st none = ret st
  refreshed_svc name st (some []) = panic
  refreshed_svc name st (some (svc ∷ others)) = ret (set_svc name svc st)

  abbrev pub refreshed_proto : Text → State C D → Option (List MicroServiceInstance) → State C D
  refreshed_proto id st none = st
  refreshed_proto id st (some instances) = set_proto id instances st

  -- A call of `Fn`
  unfoldable pub run_task :
      (Text → Option (List MicroService))
      → (Text → Option (List MicroServiceInstance))
      → Task
      → State C D
      → Go (State C D)
  unfolding proto_for_service
  run_task discover instances_of (interface_job name) st = refreshed_svc name st (discover name)
  run_task discover instances_of (proto_job id) st = ret (refreshed_proto id st (instances_of id))

  -- A lookup reads the cache, asks the registry, sets the entry and adds the job, with any steps of
  -- others in between; a lookup of a cached entry changes nothing. `run`: the job on top is taken out when
  -- it is due, its `Fn` is started, and it is put back.
  pub data Step : State C D → State C D → Type ℓ where
    time_goes : (st : State C D) (t : ℕ) → st.now ≤ t → Step st (record st { now = t })
    service_missed :
        (name : Text) (st : State C D)
        → svc_cache.get st.svcs name ≡ none
        → Step st (record st { asking = interface_job name ∷ st.asking })
    proto_missed :
        (id : Text) (st : State C D)
        → proto_cache.get st.protos id ≡ none
        → Step st (record st { asking = proto_job id ∷ st.asking })
    not_discovered :
        (before after : List Task) (t : Task) (st : State C D)
        → st.asking ≡ before ++ (t ∷ after)
        → Step st (record st { asking = before ++ after })
    service_found :
        (before after : List Task) (name : Text) (svc : MicroService) (st : State C D)
        → st.asking ≡ before ++ (interface_job name ∷ after)
        → Step st (record (set_svc name svc st) {
          asking = before ++ after;
          adding = interface_job name ∷ st.adding;
        })
    proto_found :
        (before after : List Task) (id : Text) (instances : List MicroServiceInstance)
        (st : State C D)
        → st.asking ≡ before ++ (proto_job id ∷ after)
        → Step st (record (set_proto id instances st) {
          asking = before ++ after;
          adding = proto_job id ∷ st.adding;
        })
    job_added :
        (before after : List Task) (t : Task) (st : State C D)
        → st.adding ≡ before ++ (t ∷ after)
        → Step st (record (add_job t st) { adding = before ++ after })
    fires :
        (due j : Job) (js : List Job) (st : State C D)
        → st.held ≡ none
        → top st.jobs ≡ some due
        → due.next ≤ st.now
        → pop st.jobs ≡ some (j, js)
        → Step st (record st { jobs = js; held = some j; running = j.fn ∷ st.running })
    put_back :
        (j : Job) (st : State C D)
        → st.held ≡ some j
        → Step st (record st { jobs = push tick st.now j.fn st.jobs; held = none })
    ends :
        (discover : Text → Option (List MicroService))
        (instances_of : Text → Option (List MicroServiceInstance)) (before after : List Task)
        (t : Task) (st st' : State C D)
        → st.running ≡ before ++ (t ∷ after)
        → run_task discover instances_of t st ≡ ret st'
        → Step st (record st' { running = before ++ after })

  pub data Run (start : State C D) : State C D → Type ℓ where
    none_yet : Run start start
    step : {st st' : State C D} → Run start st → Step st st' → Run start st'
