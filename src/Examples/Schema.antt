-- ===== src/Examples/Schema.antt =====
-- The theorems on contracts and their caches at concrete values.
use mesher.Prelude.{
  ◌≡◌, refl, List, [], ◌∷◌, Option, none, some, inl, inr, subst, Bool-cases, arith,
}
use mesher.Prelude.Text.{
  Text, Table, codes, lookup, insert, lookup-insert, lookup-nil, text_eq, text_eq_iff,
}
use mesher.Prelude.Maps.{IsMap}
use mesher.Prelude.Go.{ret}
use mesher.Schema.{MethodInfo, SchemaContent}
use mesher.Schema.Lookup.{get_method_info_schema_by_url, get_method_by_interface}
use mesher.Schema.LongestPrefix.{IsLongest, get_method_info_schema_by_url_lem}
use mesher.Schema.AnyOrder.{in_order, get_method_info_schema_by_url-in_order}
use mesher.Schema.ByName.{IsMethodOf, get_method_by_interface_lem}
use mesher.Schema.Cache.{
  GoCache, MicroService, interface_job, proto_job, State, push, get_svc_by_interface, Run, none_yet,
  step, service_missed, service_found, job_added, time_goes,
}
use mesher.Schema.Provided.{Provided}
use mesher.Schema.Refreshed.{Run-IsCovered, get_svc_by_interface-Run}

abbrev operation : Text → MethodInfo
operation id = record { operation_id = id; parameters = []; response = [] }

abbrev methods : Text → Table MethodInfo
methods id = (codes "get", operation id) ∷ []

abbrev contract : Table (Table MethodInfo) → SchemaContent
contract paths = record { info = []; base_path = codes "/v1"; paths = paths; definition = [] }

abbrev users : Table (Table MethodInfo)
users = (codes "/u", methods (codes "all")) ∷ (codes "/u/one", methods (codes "one")) ∷ []

abbrev users_back : Table (Table MethodInfo)
users_back = (codes "/u/one", methods (codes "one")) ∷ (codes "/u", methods (codes "all")) ∷ []

users-IsMap : IsMap users
unfolding lookup text_eq
users-IsMap = (refl, (refl, tt))

users_back-IsMap : IsMap users_back
unfolding lookup text_eq
users_back-IsMap = (refl, (refl, tt))

same_users : (k : Text) → lookup k users ≡ lookup k users_back
unfolding lookup text_eq
same_users k = elim (Bool-cases (text_eq (codes "/u") k)) [
  | inl same ↦
      subst (λ x. lookup x users ≡ lookup x users_back) ((text_eq_iff (codes "/u") k).0 same) refl
  | inr other ↦ rw other
]

get_method_info_schema_by_url_lem_example :
    IsLongest
      (contract users)
      (codes "get")
      (codes "/v1/u/one")
      (get_method_info_schema_by_url (contract users) (codes "get") (codes "/v1/u/one"))
get_method_info_schema_by_url_lem_example =
    get_method_info_schema_by_url_lem (contract users) (codes "get") (codes "/v1/u/one") users-IsMap

get_method_info_schema_by_url-in_order_example :
    get_method_info_schema_by_url
      (in_order (contract users) users_back)
      (codes "get")
      (codes "/v1/u/one")
    ≡ get_method_info_schema_by_url (contract users) (codes "get") (codes "/v1/u/one")
get_method_info_schema_by_url-in_order_example =
    get_method_info_schema_by_url-in_order (contract users) users_back (codes "get")
      (codes "/v1/u/one") same_users users-IsMap users_back-IsMap

get_method_by_interface_lem_example :
    IsMethodOf
      (contract users)
      (codes "ONE")
      (get_method_by_interface (λ name. contract users) (codes "com.Users") (codes "ONE"))
unfolding lookup
get_method_by_interface_lem_example =
    get_method_by_interface_lem (λ name. contract users) (codes "com.Users") (codes "ONE")
      users-IsMap ((refl, tt), ((refl, tt), tt))

abbrev two_contracts : Text → Text → Text → Text → List SchemaContent
two_contracts svc ver app env = contract users ∷ contract [] ∷ []

-- An association list as a cache.
abbrev table_cache : {V : Type 0} → GoCache (Table V) V
table_cache = record {
  get = λ c k. lookup k c;
  set = λ c k v. insert k v c;
  get-set = λ c k j v. lookup-insert k j v c;
}

abbrev empty_state : State (Table MicroService) (Table Text)
empty_state = record {
  svcs = [];
  protos = [];
  jobs = [];
  held = none;
  running = [];
  asking = [];
  adding = [];
  now = 5;
}

abbrev service : MicroService
service = record {
  service_id = codes "1";
  service_name = codes "users";
  version = codes "0.0.1";
  app_id = codes "app";
}

abbrev found : State (Table MicroService) (Table Text)
found = record empty_state {
  svcs = (codes "com.Users", service) ∷ [];
  jobs = record { fn = interface_job (codes "com.Users"); next = 35 } ∷ [];
}

abbrev discover : Text → Option (List MicroService)
discover name = some (service ∷ [])

first_call :
    get_svc_by_interface table_cache table_cache 30 discover (codes "com.Users") empty_state
    ≡ ret (some service, found)
unfolding get_svc_by_interface push lookup insert text_eq
first_call = refl

-- The lookup misses, finds the service and sets it, and adds the job.
found_run : Run table_cache table_cache 30 empty_state found
unfolding push insert
found_run =
    step
      (step
        (step none_yet
          (service_missed (codes "com.Users") empty_state (lookup-nil (codes "com.Users"))))
        (service_found [] [] (codes "com.Users") service _ refl))
      (job_added [] [] (interface_job (codes "com.Users")) _ refl)

Run-IsCovered_example :
    ((name : Text) (svc : MicroService)
      → lookup name found.svcs ≡ some svc
      → Provided table_cache table_cache 30 (interface_job name) found)
    × ((id proto : Text)
        → lookup id found.protos ≡ some proto
        → Provided table_cache table_cache 30 (proto_job id) found)
Run-IsCovered_example =
    Run-IsCovered table_cache table_cache 30 (λ name. lookup-nil name) (λ id. lookup-nil id) refl
      found_run

get_svc_by_interface-Run_example :
    (svc : MicroService) × (get_svc_by_interface table_cache table_cache 30
        (λ name. none)
        (codes "com.Users")
        (record found { now = 99 })
      ≡ ret (some svc, record found { now = 99 }))
get_svc_by_interface-Run_example =
    get_svc_by_interface-Run table_cache table_cache 30 discover (λ name. none) (codes "com.Users")
      service empty_state found (record found { now = 99 }) first_call
      (step none_yet (time_goes found 99 (omega arith)))
