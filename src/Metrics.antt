-- ===== src/Metrics.antt =====
-- pkg/metrics/prometheus_exporter.go, prom_recorder.go and metrics.go: the collectors by name, and what
-- is recorded for a status, a latency and a start. The calls of the Prometheus library are a log, the
-- newest last; a float64 is its bit pattern. A call is taken as a whole here: the mutexes are left out, and
-- the registry has no collectors but those of the exporter, each name with one kind.
pub mod Counted
pub mod Statuses
use mesher.Prelude.{
  ℕ, List, [], ◌∷◌, ◌++◌, Option, none, some, Bool, true, false, ◌&&◌, leb, if◌then◌else◌, all,
  length, ◌==◌,
}
use mesher.Prelude.Text.{Text, Table, codes, lookup, insert}
use mesher.Prelude.Go.{Go, ret, panic, ◌>>=◌}

pub data Kind : Type 0 where
  counter_vec gauge_vec summary_vec : Kind

pub data LibraryCall : Type 0 where
  must_register : Kind → Text → List Text → LibraryCall
  add : Text → Table Text → ℕ → LibraryCall
  set : Text → Table Text → ℕ → LibraryCall
  observe : Text → Table Text → ℕ → LibraryCall

-- The names of the collectors with their labels, and the calls that were made.
pub record PrometheusExporter : Type 0 where
  pub counters : Table (List Text)
  pub gauges : Table (List Text)
  pub summary : Table (List Text)
  pub log : List LibraryCall

abbrev pub new_exporter : PrometheusExporter
new_exporter = record { counters = []; gauges = []; summary = []; log = [] }

abbrev pub logged : LibraryCall → PrometheusExporter → PrometheusExporter
logged c s = record s { log = s.log ++ c ∷ [] }

abbrev pub with_counter :
    Text → List Text → Option (List Text) → PrometheusExporter → PrometheusExporter
with_counter name label_names none s =
    logged (must_register counter_vec name label_names)
      (record s { counters = insert name label_names s.counters })
with_counter name label_names (some l) s = s

abbrev pub is_some : {A : Type 0} → Option A → Bool
is_some none = false
is_some (some a) = true

-- `With` of the library takes the labels: there is a value for each label name and no other.
unfoldable pub matches : List Text → Table Text → Bool
matches label_names labels =
    length labels == length label_names && all (λ l. is_some (lookup l labels)) label_names

-- The label names of the collector under a name: those it was registered with, or the given ones.
abbrev pub registered : Option (List Text) → List Text → List Text
registered none label_names = label_names
registered (some l) label_names = l

abbrev pub counted : Text → List Text → Table Text → PrometheusExporter → PrometheusExporter
counted name label_names labels s =
    logged (add name labels 1) (with_counter name label_names (lookup name s.counters) s)

-- `Count`: `With` panics if the labels do not match.
unfoldable pub count : Text → List Text → Table Text → PrometheusExporter → Go PrometheusExporter
unfolding matches
count name label_names labels s =
    if matches (registered (lookup name s.counters) label_names) labels
    then ret (counted name label_names labels s)
    else panic

abbrev with_gauge : Text → List Text → Option (List Text) → PrometheusExporter → PrometheusExporter
with_gauge name label_names none s =
    logged (must_register gauge_vec name label_names)
      (record s { gauges = insert name label_names s.gauges })
with_gauge name label_names (some l) s = s

-- `Gauge`: the panic of `With` is recovered, and the value is not set then.
unfoldable pub gauge : Text → ℕ → List Text → Table Text → PrometheusExporter → PrometheusExporter
unfolding matches
gauge name val label_names labels s =
    let s' = with_gauge name label_names (lookup name s.gauges) s in
    if matches (registered (lookup name s.gauges) label_names) labels
    then logged (set name labels val) s'
    else s'

abbrev with_summary :
    Text → List Text → Option (List Text) → PrometheusExporter → PrometheusExporter
with_summary name label_names none s =
    logged (must_register summary_vec name label_names)
      (record s { summary = insert name label_names s.summary })
with_summary name label_names (some l) s = s

-- `Summary`, which recovers too
unfoldable pub observe_summary :
    Text → ℕ → List Text → Table Text → PrometheusExporter → PrometheusExporter
unfolding matches
observe_summary name val label_names labels s =
    let s' = with_summary name label_names (lookup name s.summary) s in
    if matches (registered (lookup name s.summary) label_names) labels
    then logged (observe name labels val) s'
    else s'

abbrev pub total_request : Text
total_request = codes "requests_total"

abbrev pub total_success : Text
total_success = codes "successes_total"

abbrev pub total_failures : Text
total_failures = codes "failures_total"

abbrev pub request_latency_seconds : Text
request_latency_seconds = codes "request_latency_seconds"

abbrev pub error_4xx : Text
error_4xx = codes "status_4xx"

abbrev pub error_5xx : Text
error_5xx = codes "status_5xx"

abbrev pub start_time : Text
start_time = codes "start_time_seconds"

-- The label names of the recorder, and of the options of a call.
pub record PromRecorder : Type 0 where
  pub label_names : List Text

-- `GetLN`; none is nil options.
unfoldable pub get_ln : PromRecorder → Option (List Text) → List Text
get_ln e none = e.label_names
get_ln e (some []) = e.label_names
get_ln e (some (l ∷ ls)) = l ∷ ls

-- From one bound to the other, both included.
abbrev pub between : ℕ → ℕ → ℕ → Bool
between low high status = leb low status && leb status high

-- The counters of one status, in the order of the calls.
unfoldable pub status_counters : ℕ → List Text
status_counters status =
    if between 400 451 status
    then error_4xx ∷ total_failures ∷ total_request ∷ []
    else (if between 500 511 status
        then error_5xx ∷ total_failures ∷ total_request ∷ []
        else (if between 200 226 status
            then total_success ∷ total_request ∷ []
            else total_request ∷ []))

unfoldable pub count_all :
    List Text → List Text → Table Text → PrometheusExporter → Go PrometheusExporter
unfolding count
count_all [] ln labels s = ret s
count_all (name ∷ names) ln labels s = do s ← count name ln labels s; count_all names ln labels s

-- `RecordStatus`
unfoldable pub record_status :
    PromRecorder → Table Text → ℕ → Option (List Text) → PrometheusExporter → Go PrometheusExporter
unfolding get_ln status_counters count_all
record_status e labels status opts s = count_all (status_counters status) (get_ln e opts) labels s

-- `RecordLatency`
unfoldable pub record_latency :
    PromRecorder → Table Text → ℕ → Option (List Text) → PrometheusExporter → PrometheusExporter
unfolding get_ln observe_summary
record_latency e labels latency opts s =
    observe_summary request_latency_seconds latency (get_ln e opts) labels s

-- `RecordStartTime`, with the seconds of the time as a float64
unfoldable pub record_start_time :
    PromRecorder → Table Text → ℕ → Option (List Text) → PrometheusExporter → PrometheusExporter
unfolding get_ln gauge
record_start_time e labels seconds opts s = gauge start_time seconds (get_ln e opts) labels s
