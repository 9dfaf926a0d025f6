-- ===== src/Metrics/Statuses.antt =====
-- What the counters say about the statuses that were recorded.
use mesher.Prelude.{ℕ, ◌≡◌, List, [], ◌∷◌, Option, true}
use mesher.Prelude.Text.{Text, Table, lookup}
use mesher.Prelude.Go.{Go, ret, ◌>>=◌}
use mesher.Metrics.{PrometheusExporter, matches, registered, PromRecorder, get_ln, record_status}

-- `RecordStatus`, called again and again
unfoldable pub record_all :
    PromRecorder
    → List (Table Text × ℕ × Option (List Text))
    → PrometheusExporter
    → Go PrometheusExporter
unfolding record_status
record_all e [] s = ret s
record_all e ((labels, status, opts) ∷ calls) s =
    record_status e labels status opts s >>= λ s'. record_all e calls s'

-- The labels of each call fit the label names, which are the same in all calls.
abbrev pub Fit : PromRecorder → List Text → List (Table Text × ℕ × Option (List Text)) → Type 0
Fit e ln [] = Unit {0}
Fit e ln ((labels, status, opts) ∷ calls) =
    (get_ln e opts ≡ ln) × (matches ln labels ≡ true) × Fit e ln calls

-- Every counter has these label names.
abbrev Uniform : List Text → PrometheusExporter → Type 0
Uniform ln s = (name : Text) → registered (lookup name s.counters) ln ≡ ln
