-- ===== src/Schema/Lookup.antt =====
-- protocol/dubbo/schema/schema.go: the method for an operation, and for the URL of a REST call. The
-- registry of contracts is a parameter.
use mesher.Prelude.{ℕ, List, [], ◌∷◌, ◌++◌, Option, none, some, ltb, length, if◌then◌else◌}
use mesher.Prelude.Text.{Text, Table, has_prefix, lookup}
use mesher.Prelude.Strings.{equal_fold, to_upper}
use mesher.Schema.{MethodInfo, SchemaContent, DefMethod, covert_swagger_methord_to_local_methord}

abbrev pub new_method : DefMethod
new_method = record {
  owner_svc = [];
  path = [];
  opera_id = [];
  paras = [];
  verb = [];
  responds = [];
}

-- The operation with the id in the methods of one path, with its verb.
unfoldable pub find_verb : Text → Table MethodInfo → Option (Text × MethodInfo)
unfolding equal_fold
find_verb operate_id [] = none
find_verb operate_id ((verb, m) ∷ ms) =
    let rest = find_verb operate_id ms in
    if equal_fold m.operation_id operate_id then some (verb, m) else rest

abbrev pub or_later :
    Text
    → Option (Text × MethodInfo)
    → Option (Text × Text × MethodInfo)
    → Option (Text × Text × MethodInfo)
or_later path none later = later
or_later path (some (verb, m)) later = some (path, verb, m)

unfoldable pub find_operation : Text → Table (Table MethodInfo) → Option (Text × Text × MethodInfo)
unfolding find_verb
find_operation operate_id [] = none
find_operation operate_id ((path, ms) ∷ paths) =
    or_later path (find_verb operate_id ms) (find_operation operate_id paths)

abbrev pub operation_method :
    SchemaContent → Text → Option (Text × Text × MethodInfo) → Option DefMethod
operation_method schema operate_id none = none
operation_method schema operate_id (some (path, verb, m)) = some (
    covert_swagger_methord_to_local_methord schema m (record new_method {
      verb = to_upper verb;
      path = schema.base_path ++ path;
      opera_id = operate_id;
    }))

-- `GetMethodByInterface`
unfoldable pub get_method_by_interface : (Text → SchemaContent) → Text → Text → Option DefMethod
unfolding find_operation covert_swagger_methord_to_local_methord to_upper
get_method_by_interface contract interface_name operate_id =
    let schema = contract interface_name in
    operation_method schema operate_id (find_operation operate_id schema.paths)

-- The longest key so far, and its method: `curMax`, `method` and `path`.
abbrev pub Best : Type 0
Best = ℕ × Option (MethodInfo × Text)

abbrev pub longer : Text → Option MethodInfo → Best → Best
longer key none b = b
longer key (some m) b = if ltb b.0 (length key) then (length key, some (m, key)) else b

abbrev pub offered : Text → Text → Text → Text → Table MethodInfo → Best → Best
offered base verb url key v b =
    if has_prefix url (base ++ key) then longer key (lookup verb v) b else b

unfoldable pub longest : Text → Text → Text → Table (Table MethodInfo) → Best → Best
longest base verb url [] b = b
longest base verb url ((key, v) ∷ paths) b =
    longest base verb url paths (offered base verb url key v b)

abbrev pub url_method : SchemaContent → Text → Option (MethodInfo × Text) → Option DefMethod
url_method schema verb none = none
url_method schema verb (some (m, path)) = some (
    covert_swagger_methord_to_local_methord schema m
      (record new_method { path = schema.base_path ++ path; verb = verb }))

-- `GetMethodInfoSchemaByURL`
unfoldable pub get_method_info_schema_by_url : SchemaContent → Text → Text → Option DefMethod
unfolding longest covert_swagger_methord_to_local_methord
get_method_info_schema_by_url schema verb url =
    url_method schema verb (longest schema.base_path verb url schema.paths (0, none)).1

abbrev pub better : Option DefMethod → Option DefMethod → Option DefMethod
better cur none = cur
better none (some m) = some m
better (some c) (some m) = if ltb (length c.path) (length m.path) then some m else some c

unfoldable pub best_of_schemas :
    Text
    → Text
    → List SchemaContent
    → Option SchemaContent × Option DefMethod
    → Option SchemaContent × Option DefMethod
unfolding get_method_info_schema_by_url
best_of_schemas verb url [] cur = cur
best_of_schemas verb url (v ∷ vs) cur =
    best_of_schemas verb url vs (some v, better cur.1 (get_method_info_schema_by_url v verb url))

-- `GetSchemaMethodBySvcURL`: the schema is the last one, whichever the method is from.
unfoldable pub get_schema_method_by_svc_url :
    (Text → Text → Text → Text → List SchemaContent)
    → Text
    → Text
    → Text
    → Text
    → Text
    → Text
    → Option SchemaContent × Option DefMethod
unfolding best_of_schemas
get_schema_method_by_svc_url contracts svc_name env ver app verb url =
    best_of_schemas verb url (contracts svc_name ver app env) (none, none)
