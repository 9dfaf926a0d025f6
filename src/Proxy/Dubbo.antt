-- ===== src/Proxy/Dubbo.antt =====
-- protocol/dubbo/proxy/dubbo_proxy_ouput.go: a dubbo request goes on as a dubbo call or as a REST call.
-- The lookups of the contracts, the chains, and net/url, encoding/json and httputil are parameters.
pub mod Rest
pub mod FromRest
pub mod Numbers
pub mod Handle
pub mod Arguments
use mesher.Prelude.{
  ℕ, zero, suc, ◌+◌, ◌&&◌, Bool, true, false, not, List, [], ◌∷◌, ◌++◌, Option, none, some, ◌⊎◌,
  inl, inr, if◌then◌else◌, ◌==◌, leb,
}
use mesher.Prelude.Text.{Text, Table, codes, is_empty, text_eq}
use mesher.Prelude.Go.{Go, ret, panic, ◌>>=◌, from_option}
use mesher.Wire.Object.{Object}
use mesher.Message.{
  Argument, Request, DubboRsp, get_attachment, set_attachment, path_key, status_ok, bad_response,
  service_not_found, service_error, server_error,
}
use mesher.TypeUtil.Values.{
  array_to_query_string, object_to_string, rest_byte_to_value, query_pair, schema_array,
}
use mesher.Cmd.{set_local_dubbo_address}
use mesher.Schema.{
  SchemaContent, DefMethod, MethParam, in_body, get_param_name_and_where, get_param_schema,
  get_rsp_schema,
}
use mesher.Schema.Cache.{MicroService}
use mesher.Schema.Lookup.{get_method_by_interface}
use mesher.Proxy.{
  HttpResponse, ErrorKind, fallback_null_error, lb_error, circuit_error, fault_error, other_error,
  ChainError, chain_consumer_outgoing, chain_provider_incoming, err_unknown,
  err_un_expected_handler_chain_response,
}

abbrev pub proxy_tag : Text
proxy_tag = codes "mesherproxy"

-- `InvokeContext`; the response is a pointer, which may be nil.
pub record InvokeContext : Type 0 where
  pub req : Request
  pub rsp : Option DubboRsp
  pub method : Option DefMethod

-- The request for REST, by what SetBody and SetURI were given and the host that was set.
pub record RestRequest : Type 0 where
  pub verb : Text
  pub uri : Text
  pub host : Text
  pub body : Text

-- The invocation of a dubbo call, with the request that its arguments point to.
pub record DubboInvocation : Type 0 where
  pub args : Request
  pub source_micro_service : Text
  pub micro_service_name : Text
  pub version : Text
  pub app_id : Text
  pub protocol : Text
  pub endpoint : Text

-- The result of a dubbo call: nil, a wrapped response, or a value of another type.
pub data DubboResult : Type 0 where
  no_result other_result : DubboResult
  wrapped : Option DubboRsp → DubboResult

pub record DubboAnswer : Type 0 where
  pub result : DubboResult
  pub err : Option ChainError

-- What a chain makes of the invocation, and the argument of the callback: none if it is not called.
abbrev pub DubboChain : Type 0
DubboChain = DubboInvocation → DubboInvocation × Option (Option DubboAnswer)

pub record RestInvocation : Type 0 where
  pub args : RestRequest
  pub url_path_format : Text
  pub micro_service_name : Text
  pub endpoint : Text
  pub reply : HttpResponse

-- The response of a chain; its status is only written.
pub record RestAnswer : Type 0 where
  pub err : Option ChainError

abbrev pub RestChain : Type 0
RestChain = RestInvocation → RestInvocation × Option (Option RestAnswer)

-- The rest of the program and its libraries, as the proxy uses them.
pub record Services : Type 0 where
  pub is_sidecar : Bool
  pub self_service_name : Text
  pub header_source_name : Text
  pub consumer : Text
  pub provider : Text
  pub ports_map : Table Text
  pub get_svc : Text → Option MicroService
  pub get_support_proto : MicroService → Text
  pub contract : Text → SchemaContent
  pub get_svc_name : Text → Text
  pub get_chain : Text → Text → Text ⊎ DubboChain
  pub get_rest_chain : Text → Text → Text ⊎ RestChain
  pub resolve : Text → Text → Text → Text × Option Text
  pub url_string : RestRequest → Text
  pub new_response : HttpResponse
  pub marshal : Object → Text
  pub unmarshal : List ℕ → Text ⊎ Object
  pub query_escape : Text → Text

abbrev pub with_status : ℕ → DubboRsp → DubboRsp
with_status status rsp = record rsp { status = status }

abbrev pub with_error : Text → DubboRsp → DubboRsp
with_error message rsp = record rsp { error_msg = message }

-- A method call on `ctx.Rsp`
abbrev pub on_rsp : (DubboRsp → DubboRsp) → InvokeContext → Go InvokeContext
on_rsp f ctx = from_option ctx.rsp >>= λ rsp. ret (record ctx { rsp = some (f rsp) })

abbrev pub error_status : ErrorKind → ℕ
error_status fallback_null_error = status_ok
error_status circuit_error = service_error
error_status lb_error = service_not_found
error_status fault_error = server_error
error_status other_error = server_error

-- The context gets the response of the result; a nil result changes nothing.
abbrev pub take_result : DubboResult → InvokeContext → Go InvokeContext
take_result no_result ctx = ret ctx
take_result other_result ctx = panic
take_result (wrapped rsp) ctx = ret (record ctx { rsp = rsp })

abbrev pub dubbo_answer :
    DubboInvocation → DubboResult → Option ChainError → InvokeContext → Go InvokeContext
dubbo_answer inv r (some e) ctx =
    on_rsp (λ rsp. with_error e.message (with_status (error_status e.kind) rsp)) ctx
dubbo_answer inv r none ctx =
    if is_empty inv.endpoint
    then on_rsp (λ rsp. with_error err_unknown (with_status server_error rsp)) ctx
    else take_result r ctx

-- `handleDubboRequest`; the error that it returns to the chain is dropped.
unfoldable pub handle_dubbo_request :
    DubboInvocation → InvokeContext → Option DubboAnswer → Go InvokeContext
handle_dubbo_request inv ctx none =
    on_rsp (λ rsp. with_error err_un_expected_handler_chain_response (with_status server_error rsp))
      ctx
handle_dubbo_request inv ctx (some ir) = dubbo_answer inv ir.result ir.err ctx
