-- ===== src/Schema/Refreshed.antt =====
-- Which entries of the caches are refreshed, and what a later call of a lookup gives.
use mesher.Prelude.{
  ℕ, ◌≡◌, refl, sym, ap, ◌∙◌, subst, List, [], ◌∷◌, ◌++◌, Option, none, some, inl, inr,
  if◌then◌else◌, Bool-cases,
}
use mesher.Prelude.Text.{Text, text_eq, text_eq_iff}
use mesher.Prelude.Go.{Go, ret, panic}
use mesher.Istio.{MicroServiceInstance}
use mesher.Schema.Cache.{
  GoCache, MicroService, Task, interface_job, proto_job, Job, State, pop, set_svc, set_proto,
  proto_for_service, cached_svc, fetched_svc, get_svc_by_interface, Run,
}
use mesher.Schema.Calls.{IsKept, Run-kept}
use mesher.Schema.Provided.{
  HasTask, HasTask-insert, HasTask-middle, waits, added, fired, returned, Pending, Provided,
  Pending-pushed, Provided-waits, Provided-added, Provided-map, Pending-fired, Pending-returned,
}

not_both : {V : Type 0} {w : V} → none ≡ some w → ⊥
not_both e = cc

-- What is found after a `Set` is the new entry or an old one.
get-set-cases {ℓ κ} :
    {E : Type ℓ} {V : Type 0} (c : GoCache E V) (e : E) (k j : Text) (v w : V) {R : Type κ}
    → c.get (c.set e k v) j ≡ some w
    → (k ≡ j → R)
    → (c.get e j ≡ some w → R)
    → R
get-set-cases c e k j v w h f g = elim (Bool-cases (text_eq k j)) [
  | inl same ↦ f ((text_eq_iff k j).0 same)
  | inr other ↦
      g (ap (λ b. if b then some v else c.get e j) (sym other) ∙ sym (c.get-set e k j v) ∙ h)
]

module _ {ℓ} {C D : Type ℓ} (svc_cache : GoCache C MicroService) (proto_cache : GoCache D Text)
    (tick : ℕ) where
  -- Each cached entry is provided with a job, and each call of a job that runs has one.
  pub record IsCovered (st : State C D) : Type 0 where
    pub svc_job :
        (name : Text) (svc : MicroService)
        → svc_cache.get st.svcs name ≡ some svc
        → Provided svc_cache proto_cache tick (interface_job name) st
    pub proto_job_of :
        (id proto : Text)
        → proto_cache.get st.protos id ≡ some proto
        → Provided svc_cache proto_cache tick (proto_job id) st
    pub running_job : (t : Task) → HasTask t st.running → Pending svc_cache proto_cache tick t st

  IsCovered-svc :
      (ts : List Task) (name : Text) (svc : MicroService) (st : State C D)
      → IsCovered st
      → IsCovered (
          waits svc_cache proto_cache tick
            (interface_job name)
            ts
            (set_svc svc_cache proto_cache tick name svc st))
  IsCovered-svc ts name svc st p = record {
    svc_job = λ j w h.
        get-set-cases svc_cache st.svcs name j svc w h (λ e. inr (inl (ap interface_job e)))
          (λ h'.
            Provided-waits svc_cache proto_cache tick (interface_job name) ts (interface_job j) st
              (p.svc_job j w h'));
    proto_job_of = λ id proto h.
        Provided-waits svc_cache proto_cache tick (interface_job name) ts (proto_job id) st
          (p.proto_job_of id proto h);
    running_job = p.running_job;
  }

  IsCovered-proto :
      (ts : List Task) (id : Text) (instances : List MicroServiceInstance) (st : State C D)
      → IsCovered st
      → IsCovered (
          waits svc_cache proto_cache tick
            (proto_job id)
            ts
            (set_proto svc_cache proto_cache tick id instances st))
  IsCovered-proto ts id instances st p = record {
    svc_job = λ j w h.
        Provided-waits svc_cache proto_cache tick (proto_job id) ts (interface_job j) st
          (p.svc_job j w h);
    proto_job_of = λ j w h.
        get-set-cases proto_cache st.protos id j (proto_for_service instances) w h
          (λ e. inr (inl (ap proto_job e)))
          (λ h'.
            Provided-waits svc_cache proto_cache tick (proto_job id) ts (proto_job j) st
              (p.proto_job_of j w h'));
    running_job = p.running_job;
  }

  IsCovered-add :
      (before after : List Task) (u : Task) (st : State C D)
      → IsCovered st
      → st.adding ≡ before ++ (u ∷ after)
      → IsCovered (added svc_cache proto_cache tick (before ++ after) u st)
  IsCovered-add before after u st p e =
      let keep = λ (t : Task). Provided-added svc_cache proto_cache tick before after u t st e in
      record {
        svc_job = λ name svc g. keep (interface_job name) (p.svc_job name svc g);
        proto_job_of = λ id proto g. keep (proto_job id) (p.proto_job_of id proto g);
        running_job = λ t g. Pending-pushed svc_cache proto_cache tick u t st (p.running_job t g);
      }

  IsCovered-fire :
      (j : Job) (js : List Job) (st : State C D)
      → IsCovered st
      → st.held ≡ none
      → pop st.jobs ≡ some (j, js)
      → IsCovered (fired svc_cache proto_cache tick j js st)
  IsCovered-fire j js st p h e =
      let keep = λ (t : Task). Pending-fired svc_cache proto_cache tick j js t st h e in
      let provide = λ (t : Task).
        Provided-map svc_cache proto_cache tick t st (fired svc_cache proto_cache tick j js st)
          (keep t) (λ g. g) in
      record {
        svc_job = λ name svc g. provide (interface_job name) (p.svc_job name svc g);
        proto_job_of = λ id proto g. provide (proto_job id) (p.proto_job_of id proto g);
        running_job = λ (t : Task) (g : HasTask t (j.fn ∷ st.running)). elim g [
          | inl same ↦ inr (inl same)
          | inr later ↦ keep t (p.running_job t later)
        ];
      }

  IsCovered-back :
      (j : Job) (st : State C D)
      → IsCovered st
      → st.held ≡ some j
      → IsCovered (returned svc_cache proto_cache tick j st)
  IsCovered-back j st p e =
      let keep = λ (t : Task). Pending-returned svc_cache proto_cache tick j t st e in
      let provide = λ (t : Task).
        Provided-map svc_cache proto_cache tick t st (returned svc_cache proto_cache tick j st)
          (keep t) (λ g. g) in
      record {
        svc_job = λ name svc g. provide (interface_job name) (p.svc_job name svc g);
        proto_job_of = λ id proto g. provide (proto_job id) (p.proto_job_of id proto g);
        running_job = λ t g. keep t (p.running_job t g);
      }

  still_running :
      (before after : List Task) (u : Task) (st : State C D)
      → IsCovered st
      → st.running ≡ before ++ (u ∷ after)
      → (t : Task) → HasTask t (before ++ after)
      → Pending svc_cache proto_cache tick t st
  still_running before after u st p e t g =
      p.running_job t (subst (HasTask t) (sym e) (HasTask-insert t u before after g))

  was_running :
      (before after : List Task) (u : Task) (st : State C D)
      → IsCovered st
      → st.running ≡ before ++ (u ∷ after)
      → Pending svc_cache proto_cache tick u st
  was_running before after u st p e =
      p.running_job u (subst (HasTask u) (sym e) (HasTask-middle u before after))

  IsCovered-kept : IsKept svc_cache proto_cache tick IsCovered
  IsCovered-kept = record {
    on_time = λ st t p h. record {
      svc_job = p.svc_job;
      proto_job_of = p.proto_job_of;
      running_job = p.running_job;
    };
    on_ask = λ ts st p. record {
      svc_job = p.svc_job;
      proto_job_of = p.proto_job_of;
      running_job = p.running_job;
    };
    on_svc = IsCovered-svc;
    on_proto = IsCovered-proto;
    on_add = IsCovered-add;
    on_fire = λ due j js st p h e. IsCovered-fire j js st p h e;
    on_back = IsCovered-back;
    on_end = λ before after t st p h. record {
      svc_job = p.svc_job;
      proto_job_of = p.proto_job_of;
      running_job = still_running before after t st p h;
    };
    on_svc_set = λ before after name svc st p h. record {
      svc_job = λ j w g.
          get-set-cases svc_cache st.svcs name j svc w g
            (λ e. inl (
              subst (λ x. Pending svc_cache proto_cache tick (interface_job x) st) e
                (was_running before after (interface_job name) st p h)))
            (p.svc_job j w);
      proto_job_of = p.proto_job_of;
      running_job = still_running before after (interface_job name) st p h;
    };
    on_proto_set = λ before after id proto st p h. record {
      svc_job = p.svc_job;
      proto_job_of = λ j w g.
          get-set-cases proto_cache st.protos id j proto w g
            (λ e. inl (
              subst (λ x. Pending svc_cache proto_cache tick (proto_job x) st) e
                (was_running before after (proto_job id) st p h)))
            (p.proto_job_of j w);
      running_job = still_running before after (proto_job id) st p h;
    };
  }

  -- In every run from a state without cached entries and running jobs, with any interleaving of lookups
  -- and refreshes, each cached service and each cached protocol has a job that refreshes it, in the queue
  -- or about to be put back, or a lookup that has set the entry is about to add this job.
  pub Run-IsCovered :
      {start st : State C D}
      → ((name : Text) → svc_cache.get start.svcs name ≡ none)
      → ((id : Text) → proto_cache.get start.protos id ≡ none)
      → start.running ≡ []
      → Run svc_cache proto_cache tick start st
      → ((name : Text) (svc : MicroService)
          → svc_cache.get st.svcs name ≡ some svc
          → Provided svc_cache proto_cache tick (interface_job name) st)
        × ((id proto : Text)
            → proto_cache.get st.protos id ≡ some proto
            → Provided svc_cache proto_cache tick (proto_job id) st)
  Run-IsCovered {start} no_svc no_proto idle r =
      let first : IsCovered start = record {
        svc_job = λ name svc e. absurd (not_both (sym (no_svc name) ∙ e));
        proto_job_of = λ id proto e. absurd (not_both (sym (no_proto id) ∙ e));
        running_job = λ t h. absurd (subst (HasTask t) idle h);
      } in
      let p = Run-kept svc_cache proto_cache tick IsCovered IsCovered-kept first r in
      (p.svc_job, p.proto_job_of)

  -- What the call returns is what is cached then.
  abbrev IsCached : Text → Go (Option MicroService × State C D) → Type 0
  IsCached name (ret (r, st)) = svc_cache.get st.svcs name ≡ r
  IsCached name panic = Unit {0}

  fetched_svc-IsCached :
      (name : Text) (st : State C D) (o : Option (List MicroService))
      → svc_cache.get st.svcs name ≡ none
      → IsCached name (fetched_svc svc_cache proto_cache tick name st o)
  fetched_svc-IsCached name st none h = h
  fetched_svc-IsCached name st (some []) h = tt
  fetched_svc-IsCached name st (some (svc ∷ svcs)) h = refl

  cached_svc-IsCached :
      (discover : Text → Option (List MicroService)) (name : Text) (st : State C D)
      (o : Option MicroService)
      → svc_cache.get st.svcs name ≡ o
      → IsCached name (cached_svc svc_cache proto_cache tick discover name st o)
  cached_svc-IsCached discover name st none h = fetched_svc-IsCached name st (discover name) h
  cached_svc-IsCached discover name st (some svc) h = h

  abbrev Known : Text → State C D → Type 0
  Known name st = (svc : MicroService) × (svc_cache.get st.svcs name ≡ some svc)

  -- An entry stays, or another takes its place.
  Known-set :
      (name k : Text) (v : MicroService) (e : C)
      → ((svc : MicroService) × (svc_cache.get e name ≡ some svc))
      → ((svc : MicroService) × (svc_cache.get (svc_cache.set e k v) name ≡ some svc))
  Known-set name k v e (svc, h) = elim (Bool-cases (text_eq k name)) [
    | inl same ↦ (
      v,
      svc_cache.get-set e k name v ∙ ap (λ b. if b then some v else svc_cache.get e name) same,
    )
    | inr other ↦ (
      svc,
      svc_cache.get-set e k name v ∙ ap (λ b. if b then some v else svc_cache.get e name) other ∙ h,
    )
  ]

  Known-kept : (name : Text) → IsKept svc_cache proto_cache tick (Known name)
  Known-kept name = record {
    on_time = λ st t p h. p;
    on_ask = λ ts st p. p;
    on_svc = λ ts k v st p. Known-set name k v st.svcs p;
    on_proto = λ ts id instances st p. p;
    on_add = λ before after t st p h. p;
    on_fire = λ due j js st p h e. p;
    on_back = λ j st p h. p;
    on_end = λ before after t st p h. p;
    on_svc_set = λ before after k v st p h. Known-set name k v st.svcs p;
    on_proto_set = λ before after id proto st p h. p;
  }

  -- Once `GetSvcByInterface` has returned svc_cache proto_cache tick a service for an interface, it returns a service for it at
  -- any later time, at once and without a change of the state, whatever happens and whatever the
  -- registry would answer then.
  pub get_svc_by_interface-Run :
      (discover later : Text → Option (List MicroService)) (name : Text) (svc : MicroService)
      (st found now : State C D)
      → get_svc_by_interface svc_cache proto_cache tick discover name st ≡ ret (some svc, found)
      → Run svc_cache proto_cache tick found now
      → (svc' : MicroService) × (get_svc_by_interface svc_cache proto_cache tick later name now
          ≡ ret (some svc', now))
  unfolding get_svc_by_interface
  get_svc_by_interface-Run discover later name svc st found now e r =
      let cached : svc_cache.get found.svcs name ≡ some svc =
        subst (IsCached name) e
          (cached_svc-IsCached discover name st (svc_cache.get st.svcs name) refl) in
      let (svc', h) =
        Run-kept svc_cache proto_cache tick (Known name) (Known-kept name) (svc, cached) r in
      (svc', ap (cached_svc svc_cache proto_cache tick later name now) h)
