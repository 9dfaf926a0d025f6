-- ===== src/Examples/Metrics.antt =====
-- The theorem on the metrics at three statuses.
use mesher.Prelude.{ℕ, List, [], ◌∷◌, Option, none, some}
use mesher.Prelude.Text.{Text, Table, codes}
use mesher.Metrics.{PromRecorder}

abbrev recorder : PromRecorder
recorder = record { label_names = codes "service_name" ∷ [] }

abbrev labels : Table Text
labels = (codes "service_name", codes "users") ∷ []

-- A success, a redirection and two failures.
abbrev calls : List (Table Text × ℕ × Option (List Text))
calls =
    (labels, 200, none) ∷ (labels, 302, none) ∷ (labels, 404, none) ∷ (labels, 502, some []) ∷ []
