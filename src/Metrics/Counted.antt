-- ===== src/Metrics/Counted.antt =====
-- What the counters say after calls of RecordStatus that do not panic.
use mesher.Prelude.{
  ℕ, ◌+◌, ◌≡◌, ◌≤◌, refl, sym, ap, ◌∙◌, List, [], ◌∷◌, ◌++◌, Option, none, some, Bool, true, false,
  ◌||◌, length, if◌then◌else◌, arith, Bool-cases, inl, inr,
}
use mesher.Prelude.Text.{Text, Table, text_eq, text_eq_iff, lookup, lookup-insert}
use mesher.Metrics.{
  counter_vec, LibraryCall, must_register, add, PrometheusExporter, new_exporter, with_counter,
  counted, total_request, total_success, total_failures, error_4xx, error_5xx, PromRecorder, get_ln,
  between, status_counters,
}

abbrev pub one_if : Bool → ℕ
one_if b = if b then 1 else 0

-- By how much a call adds to the counter of a name.
abbrev pub added_by : Text → LibraryCall → ℕ
added_by name (add other labels n) = if text_eq other name then n else 0
added_by name c = 0

-- The value of a counter over all its labels.
abbrev pub total : Text → List LibraryCall → ℕ
total name [] = 0
total name (c ∷ log) = added_by name c + total name log

abbrev registers : Text → LibraryCall → ℕ
registers name (must_register counter_vec other ln) = one_if (text_eq other name)
registers name c = 0

-- How often a counter of the name was registered.
abbrev pub registrations : Text → List LibraryCall → ℕ
registrations name [] = 0
registrations name (c ∷ log) = registers name c + registrations name log

-- Of a list of statuses, how many are in a class.
abbrev pub how_many : (ℕ → Bool) → List ℕ → ℕ
how_many p [] = 0
how_many p (status ∷ statuses) = one_if (p status) + how_many p statuses

abbrev pub failed : ℕ → Bool
failed status = between 400 451 status || between 500 511 status

-- What the calls leave if none panics.
unfoldable pub counted_all :
    List Text → List Text → Table Text → PrometheusExporter → PrometheusExporter
counted_all [] ln labels s = s
counted_all (name ∷ names) ln labels s = counted_all names ln labels (counted name ln labels s)

unfoldable pub recorded_all :
    PromRecorder
    → List (Table Text × ℕ × Option (List Text))
    → PrometheusExporter
    → PrometheusExporter
recorded_all e [] s = s
recorded_all e ((labels, status, opts) ∷ calls) s =
    recorded_all e calls (counted_all (status_counters status) (get_ln e opts) labels s)

abbrev pub statuses : List (Table Text × ℕ × Option (List Text)) → List ℕ
statuses [] = []
statuses ((labels, status, opts) ∷ calls) = status ∷ statuses calls

total-append :
    (name : Text) (a b : List LibraryCall) → total name (a ++ b) ≡ total name a + total name b
total-append name [] b = omega arith
total-append name (c ∷ a) b = omega (arith, total-append name a b)

with_counter-total :
    (name other : Text) (ln : List Text) (o : Option (List Text)) (s : PrometheusExporter)
    → total other (with_counter name ln o s).log ≡ total other s.log
with_counter-total name other ln none s =
    omega (arith, total-append other s.log (must_register counter_vec name ln ∷ []))
with_counter-total name other ln (some l) s = refl

-- Counting adds one to the counter of the name, and nothing to the others.
count-total :
    (name other : Text) (ln : List Text) (labels : Table Text) (s : PrometheusExporter)
    → total other (counted name ln labels s).log ≡ total other s.log + one_if (text_eq name other)
count-total name other ln labels s =
    let o = lookup name s.counters in
    omega (
      arith,
      total-append other (with_counter name ln o s).log (add name labels 1 ∷ []),
      with_counter-total name other ln o s,
    )

abbrev occurrences : Text → List Text → ℕ
occurrences other [] = 0
occurrences other (name ∷ names) = one_if (text_eq name other) + occurrences other names

counted_all-total :
    (names : List Text) (other : Text) (ln : List Text) (labels : Table Text)
    (s : PrometheusExporter)
    → total other (counted_all names ln labels s).log ≡ total other s.log + occurrences other names
unfolding counted_all
counted_all-total [] other ln labels s = omega arith
counted_all-total (name ∷ names) other ln labels s = omega (
  arith,
  counted_all-total names other ln labels (counted name ln labels s),
  count-total name other ln labels s,
)

-- A counter that stands for a class of statuses.
unfoldable pub Stands : Text → (ℕ → Bool) → Type 0
Stands name p = (status : ℕ) → occurrences name (status_counters status) ≡ one_if (p status)

recorded_all-total :
    (e : PromRecorder) (name : Text) (p : ℕ → Bool)
    (calls : List (Table Text × ℕ × Option (List Text))) (s : PrometheusExporter)
    → Stands name p
    → total name (recorded_all e calls s).log ≡ total name s.log + how_many p (statuses calls)
unfolding recorded_all Stands
recorded_all-total e name p [] s h = omega arith
recorded_all-total e name p ((labels, status, opts) ∷ calls) s h = omega (
  arith,
  recorded_all-total e name p calls (counted_all (status_counters status) (get_ln e opts) labels s)
      h,
  counted_all-total (status_counters status) name (get_ln e opts) labels s,
  h status,
)

pub requests-Stands : Stands total_request (λ status. true)
unfolding Stands status_counters text_eq
requests-Stands status = ground arith

pub success-Stands : Stands total_success (between 200 226)
unfolding Stands status_counters text_eq
success-Stands status = ground arith

pub failures-Stands : Stands total_failures failed
unfolding Stands status_counters text_eq
failures-Stands status = ground arith

pub error_4xx-Stands : Stands error_4xx (between 400 451)
unfolding Stands status_counters text_eq
error_4xx-Stands status = ground arith

pub error_5xx-Stands : Stands error_5xx (between 500 511)
unfolding Stands status_counters text_eq
error_5xx-Stands status = ground arith

abbrev has : Option (List Text) → Bool
has none = false
has (some l) = true

-- A counter was registered once if its name is in the map, and never if it is not.
unfoldable pub Registered : PrometheusExporter → Type 0
Registered s = (name : Text) → registrations name s.log ≡ one_if (has (lookup name s.counters))

registrations-append :
    (name : Text) (a b : List LibraryCall)
    → registrations name (a ++ b) ≡ registrations name a + registrations name b
registrations-append name [] b = omega arith
registrations-append name (c ∷ a) b = omega (arith, registrations-append name a b)

with_counter-Registered :
    (name : Text) (ln : List Text) (s : PrometheusExporter) (o : Option (List Text))
    → lookup name s.counters ≡ o
    → Registered s
    → Registered (with_counter name ln o s)
unfolding Registered
with_counter-Registered name ln s (some l) e h other = h other
with_counter-Registered name ln s none e h other =
    let more = registrations-append other s.log (must_register counter_vec name ln ∷ []) in
    let found = lookup-insert name other ln s.counters in
    elim (Bool-cases (text_eq name other)) [
      | inl same ↦
          let absent : lookup other s.counters ≡ none =
            ap (λ k. lookup k s.counters) (sym ((text_eq_iff name other).0 same)) ∙ e in
          ground (arith, more, found, h other, same, absent)
      | inr differ ↦ ground (arith, more, found, h other, differ)
    ]

count-Registered :
    (name : Text) (ln : List Text) (labels : Table Text) (s : PrometheusExporter)
    → Registered s
    → Registered (counted name ln labels s)
unfolding Registered
count-Registered name ln labels s h other =
    let t = with_counter name ln (lookup name s.counters) s in
    omega (
      arith,
      registrations-append other t.log (add name labels 1 ∷ []),
      with_counter-Registered name ln s (lookup name s.counters) refl h other,
    )

counted_all-Registered :
    (names : List Text) (ln : List Text) (labels : Table Text) (s : PrometheusExporter)
    → Registered s
    → Registered (counted_all names ln labels s)
unfolding counted_all
counted_all-Registered [] ln labels s h = h
counted_all-Registered (name ∷ names) ln labels s h =
    counted_all-Registered names ln labels (counted name ln labels s)
      (count-Registered name ln labels s h)

pub recorded_all-Registered :
    (e : PromRecorder) (calls : List (Table Text × ℕ × Option (List Text))) (s : PrometheusExporter)
    → Registered s
    → Registered (recorded_all e calls s)
unfolding recorded_all
recorded_all-Registered e [] s h = h
recorded_all-Registered e ((labels, status, opts) ∷ calls) s h =
    recorded_all-Registered e calls (counted_all (status_counters status) (get_ln e opts) labels s)
      (counted_all-Registered (status_counters status) (get_ln e opts) labels s h)

pub how_many-all :
    (calls : List (Table Text × ℕ × Option (List Text)))
    → how_many (λ status. true) (statuses calls) ≡ length calls
how_many-all [] = refl
how_many-all (c ∷ calls) = omega (arith, how_many-all calls)

pub recorded :
    (e : PromRecorder) (calls : List (Table Text × ℕ × Option (List Text))) (name : Text)
    (p : ℕ → Bool)
    → Stands name p
    → total name (recorded_all e calls new_exporter).log ≡ how_many p (statuses calls)
recorded e calls name p h = omega (arith, recorded_all-total e name p calls new_exporter h)

pub new-Registered : Registered new_exporter
unfolding Registered lookup
new-Registered name = refl

pub one_if-le : (b : Bool) → one_if b ≤ 1
one_if-le b = ground arith
