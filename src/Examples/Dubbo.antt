-- ===== src/Examples/Dubbo.antt =====
-- The theorems on the dubbo proxy at concrete values.
use mesher.Prelude.{
  ℕ, ◌⊎◌, List, if◌then◌else◌, ◌≡◌, refl, [], ◌∷◌, none, some, inl, inr, true, false, arith,
}
use mesher.Prelude.Text.{Text, codes, lookup, text_eq, is_empty}
use mesher.Prelude.Go.{ret, panic}
use mesher.Prelude.Strings.{to_upper, equal_fold}
use mesher.Wire.Object.{Object, nil, text}
use mesher.Message.{Argument, zero_request, zero_rsp, get_attachment, path_key}
use mesher.TypeUtil.Values.{java_string, rest_byte_to_value}
use mesher.Schema.{
  MethParam, SchemaContent, DefMethod, covert_params, covert_responds,
  covert_swagger_methord_to_local_methord,
}
use mesher.Schema.Cache.{MicroService}
use mesher.Schema.Lookup.{find_verb, find_operation, get_method_by_interface}
use mesher.Proxy.Dubbo.{InvokeContext, Services, proxy_tag, DubboChain, no_result}
use mesher.Proxy.Dubbo.Rest.{convert_dubbo_req_to_http_req, proxy_rest_handler}
use mesher.Proxy.Dubbo.Arguments.{convert_dubbo_req_to_http_req-panics}
use mesher.Proxy.Dubbo.FromRest.{RestCall, get_jvm_type, param_arguments, slashes}
use mesher.Proxy.Dubbo.Numbers.{IsShortInteger, param_arguments-panics}

abbrev service : MicroService
service = record {
  service_id = codes "1";
  service_name = codes "users";
  version = codes "0.0.1";
  app_id = codes "app";
}

abbrev contract : SchemaContent
contract = record {
  info = [];
  base_path = [];
  paths =
      (
        codes "/u",
        (codes "get", record { operation_id = codes "all"; parameters = []; response = [] }) ∷ [],
      )
      ∷ [];
  definition = [];
}

-- A chain that selects an instance and gives a nil result.
abbrev chain : DubboChain
chain inv = (
  record inv { endpoint = codes "10.0.0.2:20880" },
  some (some (record { result = no_result; err = none })),
)

abbrev services : Services
services = record {
  is_sidecar = true;
  self_service_name = codes "me";
  header_source_name = codes "source";
  consumer = codes "Consumer";
  provider = codes "Provider";
  ports_map = [];
  get_svc = λ name. some service;
  get_support_proto = λ svc. codes "dubbo";
  contract = λ name. contract;
  get_svc_name = λ name. codes "users";
  get_chain = λ kind name. inr chain;
  get_rest_chain = λ kind name. inl [];
  resolve = λ source url name. (name, none);
  url_string = λ r. r.uri;
  new_response = record { status_code = 0; header = []; body = none };
  marshal = λ v. [];
  unmarshal = λ b. inr nil;
  query_escape = λ s. s;
}

abbrev call : InvokeContext
call = record {
  req = record zero_request {
    invocation = record {
      method_name = codes "all";
      version = [];
      arguments = record { java_type = []; value = text (codes "x") } ∷ [];
      attachments = some ((codes "path", codes "com.Users") ∷ []);
      url_path = [];
    };
  };
  rsp = some zero_rsp;
  method = none;
}

abbrev tagged_call : InvokeContext
tagged_call = record call {
  req = record zero_request {
    invocation = record {
      method_name = codes "all";
      version = [];
      arguments = [];
      attachments = some ((proxy_tag, codes "true") ∷ []);
      url_path = [];
    };
  };
}

abbrev all_users : DefMethod
all_users = record {
  owner_svc = [];
  path = codes "/u";
  opera_id = codes "all";
  paras = [];
  verb = codes "GET";
  responds = [];
}

all_users_found :
    get_method_by_interface services.contract
      (get_attachment call.req.invocation path_key [])
      call.req.method_name
    ≡ some all_users
unfolding get_method_by_interface find_operation find_verb equal_fold to_upper
    covert_swagger_methord_to_local_methord covert_params covert_responds
all_users_found = refl

convert_dubbo_req_to_http_req-panics_example :
    (convert_dubbo_req_to_http_req services call ≡ panic)
    × (proxy_rest_handler services call ≡ panic)
convert_dubbo_req_to_http_req-panics_example =
    convert_dubbo_req_to_http_req-panics services call all_users all_users_found (omega arith)

call_untagged : get_attachment call.req.invocation proxy_tag [] ≡ []
unfolding get_attachment lookup text_eq
call_untagged = refl

call_tagged : is_empty (get_attachment tagged_call.req.invocation proxy_tag []) ≡ false
unfolding get_attachment lookup text_eq
call_tagged = refl

abbrev unmarshalled : List ℕ → Text ⊎ Object
unmarshalled b = inr nil

abbrev query_param : Text → Text → MethParam
query_param name dtype = record {
  name = name;
  dtype = dtype;
  additional_props = none;
  items = none;
  required = true;
  place = codes "query";
  indx = 0;
  obj_ref = record { type_name = []; jvm_cls_name = []; dtype = []; fileds = [] };
}

abbrev user_name : MethParam
user_name = query_param (codes "name") (codes "string")

abbrev user_age : MethParam
user_age = query_param (codes "age") (codes "integer")

-- The request `?name=bob&age=27`.
abbrev age_request : RestCall
age_request = record {
  query = λ name. if text_eq name (codes "name") then codes "bob" ∷ [] else codes "27" ∷ [];
  body = none;
}

abbrev name_argument : Argument
name_argument = record { java_type = java_string; value = text (codes "bob") }

name_arguments :
    param_arguments unmarshalled age_request (user_name ∷ []) [] ≡ ret (inr (name_argument ∷ []))
unfolding param_arguments get_jvm_type slashes lookup text_eq rest_byte_to_value equal_fold
name_arguments = refl

age-IsShortInteger : IsShortInteger age_request user_age
unfolding IsShortInteger text_eq equal_fold
age-IsShortInteger = (refl, refl, omega arith)

param_arguments-panics_example :
    param_arguments unmarshalled age_request (user_name ∷ user_age ∷ []) [] ≡ panic
param_arguments-panics_example =
    param_arguments-panics unmarshalled (user_name ∷ []) [] user_age age_request []
      (name_argument ∷ []) name_arguments age-IsShortInteger
