-- ===== src/Proxy/Dubbo/FromRest.antt =====
-- protocol/dubbo/proxy/rest2dubbo.go: a REST request as a dubbo call, and the answer back.
use mesher.Prelude.{
  ℕ, Bool, true, false, List, [], ◌∷◌, ◌++◌, Option, none, some, ◌⊎◌, inl, inr, if◌then◌else◌, ◌==◌,
}
use mesher.Prelude.Text.{Text, Table, codes, is_empty, text_eq, lookup}
use mesher.Prelude.Strings.{equal_fold}
use mesher.Prelude.Go.{Go, ret, ◌>>=◌, from_option}
use mesher.Wire.Object.{Object, Objects, array}
use mesher.Message.{Argument, DubboRsp, status_ok}
use mesher.TypeUtil.Values.{
  java_string, java_byte, java_integer, java_long, java_float, java_double, java_boolean,
  java_array, java_object, schema_string, schema_array, schema_object, object_to_string,
  rest_byte_to_value, rest_bytes_to_lst_value,
}
use mesher.Schema.{MethParam, DefMethod, get_rsp_schema}
use mesher.Proxy.{
  ResponseWriter, write_header, write, ErrorKind, fallback_null_error, lb_error, circuit_error,
  fault_error, other_error, ChainError, err_unknown, err_un_expected_handler_chain_response,
}

-- `SchemeTypeMAP`
abbrev pub scheme_type_map : Table Text
scheme_type_map =
    (schema_string, java_string)
    ∷ (schema_array, java_array)
    ∷ (schema_object, java_object)
    ∷ (codes "number", java_float)
    ∷ (codes "integer", java_integer)
    ∷ (codes "int32", java_integer)
    ∷ (codes "int64", java_long)
    ∷ (codes "float", java_float)
    ∷ (codes "double", java_double)
    ∷ (codes "byte", java_byte)
    ∷ (codes "binary", java_byte)
    ∷ (codes "boolean", java_boolean)
    ∷ (codes "date", java_string)
    ∷ (codes "date-time", java_string)
    ∷ (codes "password", java_string)
    ∷ []

-- `fmt.Sprintf("L%s;", s)`
abbrev class_of : Text → Text
class_of s = codes "L" ++ (s ++ codes ";")

-- `strings.Replace(s, ".", "/", -1)`
unfoldable pub slashes : Text → Text
slashes [] = []
slashes (c ∷ s) = (if c == b'.' then b'/' else c) ∷ slashes s

abbrev typed_items : Text → Option Text → Text
typed_items t none = t
typed_items t (some v) = class_of v

-- The last of the entries x-java-class and type counts.
abbrev list_type : Option (Table Text) → Text
list_type none = codes "Ljava/util/List;"
list_type (some items) =
    typed_items (typed_items (codes "Ljava/util/List;") (lookup (codes "x-java-class") items))
      (lookup (codes "type") items)

abbrev map_type : Option Text → Text
map_type none = codes "Ljava.util.Map;"
map_type (some v) = class_of v

abbrev class_type : Text → Option (Table Text) → Text
class_type cls none = class_of cls
class_type cls (some props) = map_type (lookup (codes "x-java-class") props)

abbrev real_type : MethParam → Text → Text
real_type v java_type =
    if text_eq v.dtype schema_array
    then slashes (list_type v.items)
    else (if text_eq java_type java_object
        then slashes (class_type v.obj_ref.jvm_cls_name v.additional_props)
        else [])

-- `getJVMType`: the Java type for the value, the one for the call, which may be empty, and whether the
-- values are the list in the query. A type that is not in the map leaves the Java type as it was.
abbrev jvm_type : MethParam → Text → Option Text → Text × Text × Bool
jvm_type v old none = (old, [], false)
jvm_type v old (some java_type) = (java_type, real_type v java_type, text_eq v.dtype schema_array)

unfoldable pub get_jvm_type : MethParam → Text → Text × Text × Bool
unfolding slashes
get_jvm_type v old = jvm_type v old (lookup v.dtype scheme_type_map)

-- The request: the values of a key of the query, and the body, which the first read empties.
pub record RestCall : Type 0 where
  pub query : Text → List Text
  pub body : Option Text

abbrev pub first_of : List Text → Text
first_of [] = []
first_of (s ∷ ss) = s

-- The bytes for a parameter, and the body that is left.
abbrev pub param_bytes : RestCall → MethParam → Option Text × Option Text
param_bytes r v =
    if equal_fold v.place (codes "query")
    then (some (first_of (r.query v.name)), r.body)
    else (r.body, elim r.body [ none ↦ none | some b ↦ some [] ])

abbrev listed : Text ⊎ Objects → Text ⊎ Object
listed (inl message) = inl message
listed (inr vs) = inr (array vs)

abbrev bytes_or_none : Option Text → Text
bytes_or_none none = []
bytes_or_none (some b) = b

abbrev missing : MethParam → Option Text → Bool
missing v none = v.required
missing v (some b) = false

abbrev with_argument : Text × Text × Bool → Text ⊎ Object → Text ⊎ Argument
with_argument t (inl message) = inl message
with_argument (java_type, real, is_list) (inr v) =
    inr (record { java_type = if is_empty real then java_type else real; value = v })

abbrev pub after_first : Argument → Text ⊎ List Argument → Text ⊎ List Argument
after_first a (inl message) = inl message
after_first a (inr as_) = inr (a ∷ as_)

abbrev pub then_more :
    Text ⊎ Argument → (Text → Go (Text ⊎ List Argument)) → Go (Text ⊎ List Argument)
then_more (inl message) k = ret (inl message)
then_more (inr a) k = k a.java_type >>= λ r. ret (after_first a r)

module _ (unmarshal : List ℕ → Text ⊎ Object) where
  abbrev pub param_value :
      RestCall → MethParam → Option Text → Text × Text × Bool → Go (Text ⊎ Object)
  param_value r v bytes (java_type, real, true) =
      rest_bytes_to_lst_value unmarshal schema_string (r.query v.name) >>= λ vs. ret (listed vs)
  param_value r v bytes (java_type, real, false) =
      rest_byte_to_value unmarshal java_type (bytes_or_none bytes)

  -- The argument for a parameter, or the message of an error.
  abbrev pub param_argument : RestCall → MethParam → Option Text → Text → Go (Text ⊎ Argument)
  param_argument r v bytes old =
      let t = get_jvm_type v old in
      if missing v bytes
      then ret (inl (codes "Param is null"))
      else (param_value r v bytes t >>= λ o. ret (with_argument t o))

  -- The loop over the parameters of ConvertHTTPReqToDubboReq; the Java type is that of the last one.
  unfoldable pub param_arguments : RestCall → List MethParam → Text → Go (Text ⊎ List Argument)
  unfolding get_jvm_type rest_byte_to_value rest_bytes_to_lst_value equal_fold
  param_arguments r [] old = ret (inr [])
  param_arguments r (v ∷ vs) old = do
    let (bytes, left) = param_bytes r v
    a ← param_argument r v bytes old
    then_more a (λ java_type. param_arguments (record r { body = left }) vs java_type)

abbrev text_answer : Text ⊎ Text → ResponseWriter → ResponseWriter
text_answer (inl message) w = write_header 500 w
text_answer (inr v) w = write v w

module _ (marshal : Object → Text) where
  abbrev pub ok_answer : DefMethod → DubboRsp → ResponseWriter → Go ResponseWriter
  ok_answer m rsp w = elim (get_rsp_schema m 200) [
    | none ↦ ret (write_header 500 w)
    | some s ↦ object_to_string marshal s.dtype rsp.value >>= λ v. ret (text_answer v w)
  ]

  -- `ConvertDubboRspToRestRsp`
  unfoldable pub convert_dubbo_rsp_to_rest_rsp :
      Option DefMethod → DubboRsp → ResponseWriter → Go ResponseWriter
  unfolding get_rsp_schema object_to_string write write_header
  convert_dubbo_rsp_to_rest_rsp m rsp w =
      if rsp.status == status_ok
      then (from_option m >>= λ m. ok_answer m rsp (write_header 200 w))
      else ret (write_header 500 w)

abbrev pub error_answer : ErrorKind → Text → ResponseWriter → ResponseWriter
error_answer fallback_null_error message w = write_header 200 w
error_answer circuit_error message w = write message (write_header 503 w)
error_answer lb_error message w = write message (write_header 502 w)
error_answer fault_error message w = write message (write_header 500 w)
error_answer other_error message w = write message (write_header 500 w)

abbrev answer_for_dubbo : Text → Option ChainError → ResponseWriter → ResponseWriter
answer_for_dubbo endpoint (some e) w = error_answer e.kind e.message w
answer_for_dubbo endpoint none w =
    if is_empty endpoint then write err_unknown (write_header 500 w) else w

-- `handleRequestForDubbo`, with the error of the chain's response, if there is one.
unfoldable pub handle_request_for_dubbo :
    Text → Option (Option ChainError) → ResponseWriter → ResponseWriter
unfolding write write_header
handle_request_for_dubbo endpoint none w =
    write err_un_expected_handler_chain_response (write_header 500 w)
handle_request_for_dubbo endpoint (some err) w = answer_for_dubbo endpoint err w
