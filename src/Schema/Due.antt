-- ===== src/Schema/Due.antt =====
-- The order of the refresh jobs: by the times at which they are due.
use mesher.Prelude.{ℕ, ◌+◌, ◌≤◌, ◌≡◌, sym, subst, List, [], ◌∷◌, ◌++◌, some, arith, All}
use mesher.Prelude.Text.{Text}
use mesher.Schema.Calls.{IsKept, Run-kept}
use mesher.Schema.Cache.{GoCache, MicroService, Task, Job, State, push, pop, Run}

-- Each job is due no later than those behind it.
abbrev pub InOrder : List Job → Type 0
InOrder [] = Unit {0}
InOrder (j ∷ js) = All (λ (k : Job). j.next ≤ k.next) js × InOrder js

abbrev pub DueBy : ℕ → List Job → Type 0
DueBy n js = All (λ (k : Job). k.next ≤ n) js

DueBy-le : {m n : ℕ} (js : List Job) → m ≤ n → DueBy m js → DueBy n js
DueBy-le [] h d = tt
DueBy-le (j ∷ js) h (d, ds) = (omega arith, DueBy-le js h ds)

All-last :
    (m : ℕ) (js : List Job) (k : Job)
    → All (λ (i : Job). m ≤ i.next) js
    → m ≤ k.next
    → All (λ (i : Job). m ≤ i.next) (js ++ (k ∷ []))
All-last m [] k a h = (h, tt)
All-last m (j ∷ js) k (a, b) h = (a, All-last m js k b h)

DueBy-push :
    (tick now : ℕ) (fn : Task) (js : List Job)
    → DueBy (now + tick) js
    → DueBy (now + tick) (push tick now fn js)
unfolding push
DueBy-push tick now fn [] d = (omega arith, tt)
DueBy-push tick now fn (j ∷ js) (d, ds) = (d, DueBy-push tick now fn js ds)

InOrder-push :
    (tick now : ℕ) (fn : Task) (js : List Job)
    → InOrder js
    → DueBy (now + tick) js
    → InOrder (push tick now fn js)
unfolding push
InOrder-push tick now fn [] o d = (tt, tt)
InOrder-push tick now fn (j ∷ js) (o, os) (d, ds) = (
  All-last j.next js (record { fn = fn; next = now + tick }) o d,
  InOrder-push tick now fn js os ds,
)

pub pop-jobs : (jobs : List Job) (j : Job) (js : List Job) → pop jobs ≡ some (j, js) → jobs ≡ j ∷ js
unfolding pop
pop-jobs [] j js e = cc
pop-jobs (i ∷ is) j js e = ground arith

module _ {ℓ} {C D : Type ℓ} (svc_cache : GoCache C MicroService) (proto_cache : GoCache D Text)
    (tick : ℕ) where
  -- The jobs are in the order in which they are due, and none is due more than a tick from now.
  pub record IsDue (st : State C D) : Type 0 where
    pub in_order : InOrder st.jobs
    pub soon : DueBy (st.now + tick) st.jobs

  pushed-IsDue :
      (fn : Task) (st : State C D)
      → IsDue st
      → InOrder (push tick st.now fn st.jobs) × DueBy (st.now + tick) (push tick st.now fn st.jobs)
  pushed-IsDue fn st p = (
    InOrder-push tick st.now fn st.jobs p.in_order p.soon,
    DueBy-push tick st.now fn st.jobs p.soon,
  )

  popped-IsDue :
      (j : Job) (js : List Job) (st : State C D)
      → IsDue st
      → pop st.jobs ≡ some (j, js)
      → InOrder js × DueBy (st.now + tick) js
  popped-IsDue j js st p e =
      let shape : st.jobs ≡ j ∷ js = pop-jobs st.jobs j js e in
      ((subst InOrder shape p.in_order).1, (subst (DueBy (st.now + tick)) shape p.soon).1)

  IsDue-kept : IsKept svc_cache proto_cache tick IsDue
  IsDue-kept = record {
    on_time =
        λ st t p h. record { in_order = p.in_order; soon = DueBy-le st.jobs (omega arith) p.soon };
    on_ask = λ ts st p. record { in_order = p.in_order; soon = p.soon };
    on_svc = λ ts name svc st p. record { in_order = p.in_order; soon = p.soon };
    on_proto = λ ts id instances st p. record { in_order = p.in_order; soon = p.soon };
    on_add = λ before after t st p h.
        let (o, d) = pushed-IsDue t st p in record { in_order = o; soon = d };
    on_fire = λ due j js st p h e.
        let (o, d) = popped-IsDue j js st p e in record { in_order = o; soon = d };
    on_back = λ j st p h. let (o, d) = pushed-IsDue j.fn st p in record { in_order = o; soon = d };
    on_end = λ before after t st p h. record { in_order = p.in_order; soon = p.soon };
    on_svc_set = λ before after name svc st p h. record { in_order = p.in_order; soon = p.soon };
    on_proto_set = λ before after id proto st p h. record { in_order = p.in_order; soon = p.soon };
  }

  -- In every run from an empty queue, whatever is looked up and refreshed in between, the jobs stand in
  -- the order in which they are due, and each of them is due within one interval from now.
  Run-IsDue :
      {start st : State C D}
      → start.jobs ≡ []
      → Run svc_cache proto_cache tick start st
      → InOrder st.jobs × DueBy (st.now + tick) st.jobs
  Run-IsDue {start} e r =
      let first : IsDue start = record {
        in_order = subst InOrder (sym e) tt;
        soon = subst (DueBy (start.now + tick)) (sym e) tt;
      } in
      let p = Run-kept svc_cache proto_cache tick IsDue IsDue-kept first r in (p.in_order, p.soon)
