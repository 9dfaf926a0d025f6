-- ===== src/Schema/Provided.antt =====
-- Which jobs are in the queue, held, or about to be added, and which changes of the state keep them.
use mesher.Prelude.{ℕ, ◌≡◌, refl, subst, List, [], ◌∷◌, ◌++◌, Option, none, some, ◌⊎◌, inl, inr}
use mesher.Prelude.Text.{Text}
use mesher.Schema.Cache.{GoCache, MicroService, Task, Job, State, push, pop, add_job}
use mesher.Schema.Due.{pop-jobs}

-- A job for the task is in the list.
abbrev pub Has : Task → List Job → Type 0
Has t [] = ⊥
Has t (j ∷ js) = (j.fn ≡ t) ⊎ Has t js

abbrev pub HasTask : Task → List Task → Type 0
HasTask t [] = ⊥
HasTask t (u ∷ us) = (u ≡ t) ⊎ HasTask t us

pub Has-push : (tick now : ℕ) (fn t : Task) (js : List Job) → Has t js → Has t (push tick now fn js)
unfolding push
Has-push tick now fn t [] h = absurd h
Has-push tick now fn t (j ∷ js) (inl e) = inl e
Has-push tick now fn t (j ∷ js) (inr h) = inr (Has-push tick now fn t js h)

pub Has-pushed : (tick now : ℕ) (fn t : Task) (js : List Job) → fn ≡ t → Has t (push tick now fn js)
unfolding push
Has-pushed tick now fn t [] e = inl e
Has-pushed tick now fn t (j ∷ js) e = inr (Has-pushed tick now fn t js e)

pub HasTask-insert :
    (t u : Task) (before after : List Task)
    → HasTask t (before ++ after)
    → HasTask t (before ++ (u ∷ after))
HasTask-insert t u [] after h = inr h
HasTask-insert t u (b ∷ before) after (inl e) = inl e
HasTask-insert t u (b ∷ before) after (inr h) = inr (HasTask-insert t u before after h)

pub HasTask-middle : (t : Task) (before after : List Task) → HasTask t (before ++ (t ∷ after))
HasTask-middle t [] after = inl refl
HasTask-middle t (b ∷ before) after = inr (HasTask-middle t before after)

abbrev pub held_jobs : Option Job → List Job
held_jobs none = []
held_jobs (some j) = j ∷ []

module _ {ℓ} {C D : Type ℓ} (svc_cache : GoCache C MicroService) (proto_cache : GoCache D Text)
    (tick : ℕ) where
  -- The job is in the queue, or the goroutine of the refresher has it and puts it back.
  abbrev pub Pending : Task → State C D → Type 0
  Pending t st = Has t st.jobs ⊎ Has t (held_jobs st.held)

  -- It has a job, or a lookup that has set its entry is about to add one.
  abbrev pub Provided : Task → State C D → Type 0
  Provided t st = Pending t st ⊎ HasTask t st.adding

  abbrev pub pushed : Task → State C D → State C D
  pushed fn st = record st { jobs = push tick st.now fn st.jobs }

  pub Pending-pushed : (fn t : Task) (st : State C D) → Pending t st → Pending t (pushed fn st)
  Pending-pushed fn t st (inl h) = inl (Has-push tick st.now fn t st.jobs h)
  Pending-pushed fn t st (inr h) = inr h

  abbrev pub waits : Task → List Task → State C D → State C D
  waits fn ts st = record st { asking = ts; adding = fn ∷ st.adding }

  pub Provided-waits :
      (fn : Task) (ts : List Task) (t : Task) (st : State C D)
      → Provided t st
      → Provided t (waits fn ts st)
  Provided-waits fn ts t st (inl h) = inl h
  Provided-waits fn ts t st (inr h) = inr (inr h)

  -- A task at a place of the list, or elsewhere in it.
  HasTask-split :
      {R : Type 0} (before after : List Task) (u t : Task)
      → HasTask t (before ++ (u ∷ after))
      → (u ≡ t → R)
      → (HasTask t (before ++ after) → R)
      → R
  HasTask-split [] after u t (inl e) f g = f e
  HasTask-split [] after u t (inr h) f g = g h
  HasTask-split (b ∷ before) after u t (inl e) f g = g (inl e)
  HasTask-split (b ∷ before) after u t (inr h) f g =
      HasTask-split before after u t h f (λ h'. g (inr h'))

  abbrev pub added : List Task → Task → State C D → State C D
  added ts t st = record (add_job svc_cache proto_cache tick t st) { adding = ts }

  pub Provided-added :
      (before after : List Task) (u t : Task) (st : State C D)
      → st.adding ≡ before ++ (u ∷ after)
      → Provided t st
      → Provided t (added (before ++ after) u st)
  Provided-added before after u t st e (inl h) = inl (Pending-pushed u t st h)
  Provided-added before after u t st e (inr h) =
      HasTask-split before after u t (subst (HasTask t) e h)
        (λ same. inl (inl (Has-pushed tick st.now u t st.jobs same))) inr

  -- What keeps the jobs keeps what is provided.
  pub Provided-map :
      (t : Task) (st st' : State C D)
      → (Pending t st → Pending t st')
      → (HasTask t st.adding → HasTask t st'.adding)
      → Provided t st
      → Provided t st'
  Provided-map t st st' f g (inl h) = inl (f h)
  Provided-map t st st' f g (inr h) = inr (g h)

  abbrev pub fired : Job → List Job → State C D → State C D
  fired j js st = record st { jobs = js; held = some j; running = j.fn ∷ st.running }

  Has-popped :
      (j : Job) (js : List Job) (t : Task) → Has t (j ∷ js) → Has t js ⊎ Has t (held_jobs (some j))
  Has-popped j js t (inl e) = inr (inl e)
  Has-popped j js t (inr h) = inl h

  pub Pending-fired :
      (j : Job) (js : List Job) (t : Task) (st : State C D)
      → st.held ≡ none
      → pop st.jobs ≡ some (j, js)
      → Pending t st
      → Pending t (fired j js st)
  Pending-fired j js t st none_held e (inl h) =
      Has-popped j js t (subst (Has t) (pop-jobs st.jobs j js e) h)
  Pending-fired j js t st none_held e (inr h) =
      absurd (subst (λ o. Has t (held_jobs o)) none_held h)

  abbrev pub returned : Job → State C D → State C D
  returned j st = record st { jobs = push tick st.now j.fn st.jobs; held = none }

  Has-returned :
      (j : Job) (t : Task) (jobs : List Job) (now : ℕ)
      → Has t (held_jobs (some j))
      → Has t (push tick now j.fn jobs)
  Has-returned j t jobs now (inl e) = Has-pushed tick now j.fn t jobs e
  Has-returned j t jobs now (inr h) = absurd h

  pub Pending-returned :
      (j : Job) (t : Task) (st : State C D)
      → st.held ≡ some j
      → Pending t st
      → Pending t (returned j st)
  Pending-returned j t st e (inl h) = inl (Has-push tick st.now j.fn t st.jobs h)
  Pending-returned j t st e (inr h) =
      inl (Has-returned j t st.jobs st.now (subst (λ o. Has t (held_jobs o)) e h))
