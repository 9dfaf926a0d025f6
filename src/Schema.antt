-- ===== src/Schema.antt =====
-- protocol/dubbo/schema/schema.go: the methods of an interface, read from the contracts that the
-- registry of go-chassis gives. The records of the registry have the fields that the code reads. Texts
-- that are compared without case are ASCII. The first half of the file: the data and the conversion.
use mesher.Prelude.{
  ℕ, zero, suc, ◌+◌, ◌-◌, ◌/◌, ◌%◌, Bool, true, false, ◌&&◌, List, [], ◌∷◌, ◌++◌, Option, none,
  some, leb, ltb, length, ◌==◌, if◌then◌else◌,
}
use mesher.Prelude.Text.{Text, Table, codes, is_empty, lookup, insert, has_prefix, text_eq}
use mesher.Prelude.Split.{split}
use mesher.Prelude.Strings.{sprint_d, equal_fold}
pub mod Lookup
pub mod LongestPrefix
pub mod AnyOrder
pub mod Cache
pub mod Calls
pub mod Due
pub mod Provided
pub mod Refreshed
pub mod ByName
pub mod Operations

-- `registry.Definition`
pub record Definition : Type 0 where
  pub types : Text
  pub x_java_class : Text

-- `registry.Parameter`, with the fields of its schema
pub record Parameter : Type 0 where
  pub name : Text
  pub para_type : Text
  pub required : Bool
  pub para_in : Text
  pub schema_type : Text
  pub schema_reference : Text

-- `registry.MethodInfo`; a response is the map of its schema
pub record MethodInfo : Type 0 where
  pub operation_id : Text
  pub parameters : List Parameter
  pub response : Table (Table Text)

-- `registry.SchemaContent`
pub record SchemaContent : Type 0 where
  pub info : Table Text
  pub base_path : Text
  pub paths : Table (Table MethodInfo)
  pub definition : Table Definition

abbrev pub in_query : ℕ
in_query = 0

abbrev pub in_body : ℕ
in_body = 1

pub record DefField : Type 0 where
  pub dtype : Text
  pub formate : Text

pub record DefType : Type 0 where
  pub type_name : Text
  pub dtype : Text
  pub jvm_cls_name : Text
  pub fileds : Table DefField

pub record MethRespond : Type 0 where
  pub status : Text
  pub dtype : Text
  pub obj_ref : DefType

-- A map that is nil is none.
pub record MethParam : Type 0 where
  pub name : Text
  pub dtype : Text
  pub additional_props : Option (Table Text)
  pub items : Option (Table Text)
  pub required : Bool
  pub place : Text
  pub indx : ℕ
  pub obj_ref : DefType

pub record DefMethod : Type 0 where
  pub owner_svc : Text
  pub path : Text
  pub opera_id : Text
  pub paras : List MethParam
  pub verb : Text
  pub responds : Table MethRespond

unfoldable pub get_rsp_schema : DefMethod → ℕ → Option MethRespond
unfolding sprint_d
get_rsp_schema m status = lookup (sprint_d status) m.responds

abbrev pub name_and_where : Option MethParam → Text × ℕ
name_and_where none = ([], in_query)
name_and_where (some v) = (v.name, if equal_fold v.place (codes "query") then in_query else in_body)

unfoldable pub find_param : ℕ → List MethParam → Option MethParam
find_param indx [] = none
find_param indx (v ∷ vs) = if v.indx == indx then some v else find_param indx vs

-- `GetParamNameAndWhere`
unfoldable pub get_param_name_and_where : DefMethod → ℕ → Text × ℕ
unfolding find_param
get_param_name_and_where m indx = name_and_where (find_param indx m.paras)

unfoldable pub get_param_schema : DefMethod → ℕ → Option MethParam
unfolding find_param
get_param_schema m indx = find_param indx m.paras

abbrev last_piece : List Text → Text
last_piece [] = []
last_piece (p ∷ []) = p
last_piece (p ∷ q ∷ ps) = last_piece (q ∷ ps)

abbrev pub no_type : DefType
no_type = record { type_name = []; dtype = []; jvm_cls_name = []; fileds = [] }

abbrev def_type_of : Text → Option Definition → DefType
def_type_of name none = record no_type { type_name = name }
def_type_of name (some d) = record no_type {
  type_name = name;
  dtype = d.types;
  jvm_cls_name = d.x_java_class;
}

unfoldable pub get_def_type_from_def : Table Definition → Text → DefType
unfolding split
get_def_type_from_def defs ref =
    let name = last_piece (split 47 ref) in def_type_of name (lookup name defs)

abbrev pub object_type : Text
object_type = codes "object"

-- The type of a parameter, and the definition that it refers to.
abbrev para_dtype : SchemaContent → Parameter → Text × DefType
para_dtype schema para =
    if is_empty para.para_type
    then (if is_empty para.schema_type
        then (
          object_type,
          if is_empty para.schema_reference
              then no_type
              else get_def_type_from_def schema.definition para.schema_reference,
        )
        else (para.schema_type, no_type))
    else (para.para_type, no_type)

abbrev pub covert_param : SchemaContent → Parameter → ℕ → MethParam
covert_param schema para i = record {
  name = para.name;
  dtype = (para_dtype schema para).0;
  additional_props = none;
  items = none;
  required = para.required;
  place = para.para_in;
  indx = i;
  obj_ref = (para_dtype schema para).1;
}

unfoldable pub covert_params : SchemaContent → List Parameter → ℕ → List MethParam
unfolding get_def_type_from_def
covert_params schema [] i = []
covert_params schema (p ∷ ps) i = covert_param schema p i ∷ covert_params schema ps (i + 1)

abbrev referred : SchemaContent → Option Text → DefType
referred schema none = no_type
referred schema (some ref) = get_def_type_from_def schema.definition ref

abbrev respond_type : SchemaContent → Table Text → Option Text → Text × DefType
respond_type schema rsp none = (object_type, referred schema (lookup (codes "$ref") rsp))
respond_type schema rsp (some dtype) = (dtype, no_type)

abbrev pub covert_respond : SchemaContent → Text → Table Text → MethRespond
covert_respond schema key rsp = record {
  status = key;
  dtype = (respond_type schema rsp (lookup (codes "type") rsp)).0;
  obj_ref = (respond_type schema rsp (lookup (codes "type") rsp)).1;
}

unfoldable pub covert_responds : SchemaContent → Table (Table Text) → Table MethRespond
unfolding get_def_type_from_def
covert_responds schema [] = []
covert_responds schema ((key, rsp) ∷ rsps) =
    insert key (covert_respond schema key rsp) (covert_responds schema rsps)

-- `CovertSwaggerMethordToLocalMethord`: the path and the verb stay.
unfoldable pub covert_swagger_methord_to_local_methord :
    SchemaContent → MethodInfo → DefMethod → DefMethod
unfolding covert_params covert_responds
covert_swagger_methord_to_local_methord schema src dst = record dst {
  opera_id = src.operation_id;
  paras = covert_params schema src.parameters 0;
  responds = covert_responds schema src.response;
}
