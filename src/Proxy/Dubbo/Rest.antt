-- ===== src/Proxy/Dubbo/Rest.antt =====
-- protocol/dubbo/proxy/dubbo_proxy_ouput.go: a dubbo request as a REST call, and the answer back.
use mesher.Prelude.{
  ℕ, ◌+◌, Bool, true, false, List, [], ◌∷◌, ◌++◌, Option, none, some, ◌⊎◌, inl, inr, if◌then◌else◌,
  ◌==◌, leb,
}
use mesher.Prelude.Text.{Text, codes, is_empty, text_eq}
use mesher.Prelude.Go.{Go, ret, panic, ◌>>=◌, from_option}
use mesher.Wire.Object.{Object}
use mesher.Message.{
  Argument, DubboRsp, get_attachment, path_key, status_ok, bad_response, server_error,
}
use mesher.TypeUtil.Values.{
  array_to_query_string, object_to_string, rest_byte_to_value, query_pair, schema_array,
}
use mesher.Cmd.{set_local_dubbo_address}
use mesher.Schema.{
  DefMethod, MethParam, in_body, get_param_name_and_where, get_param_schema, get_rsp_schema,
}
use mesher.Schema.Lookup.{get_method_by_interface}
use mesher.Proxy.{
  HttpResponse, ErrorKind, fallback_null_error, lb_error, circuit_error, fault_error, other_error,
  ChainError, chain_consumer_outgoing, err_un_expected_handler_chain_response,
}
use mesher.Proxy.Dubbo.{
  InvokeContext, RestRequest, RestInvocation, RestAnswer, RestChain, Services, with_status,
  with_error,
}

-- The arguments of the call so far: the text behind `?`, whether it has a pair, and the body.
pub record Encoded : Type 0 where
  pub params_str : Text
  pub has_query : Bool
  pub body : Text

module _ (s : Services) where
  abbrev pub query_value : Text ⊎ Text → Text
  query_value (inl message) = []
  query_value (inr value) = value

  abbrev pub add_query : MethParam → Object → Encoded → Go Encoded
  add_query para v e =
      if text_eq para.dtype schema_array
      then (do
        value ← array_to_query_string s.query_escape para.name v
        ret (record e { params_str = e.params_str ++ value }))
      else (do
        value ← object_to_string s.marshal para.dtype v
        let pair = query_pair s.query_escape para.name (query_value value)
        ret (record e {
          params_str = e.params_str ++ (if e.has_query then codes "&" ++ pair else pair);
          has_query = true;
        }))

  abbrev pub add_argument : DefMethod → ℕ → Object → Encoded → Go Encoded
  add_argument m i v e =
      if (get_param_name_and_where m i).1 == in_body
      then ret (record e { body = e.body ++ s.marshal v })
      else (from_option (get_param_schema m i) >>= λ para. add_query para v e)

  unfoldable pub add_arguments : DefMethod → ℕ → List Argument → Encoded → Go Encoded
  unfolding get_param_name_and_where get_param_schema array_to_query_string object_to_string
      query_pair
  add_arguments m i [] e = ret e
  add_arguments m i (a ∷ args) e = do
    e' ← add_argument m i a.value e
    add_arguments m (i + 1) args e'

  abbrev rest_request : DefMethod → Encoded → Text → Option RestRequest
  rest_request m e host =
      if is_empty host
      then none
      else some (record {
        verb = m.verb;
        uri = if text_eq e.params_str (codes "?") then m.path else m.path ++ e.params_str;
        host = host;
        body = e.body;
      })

  abbrev pub start : Encoded
  start = record { params_str = codes "?"; has_query = false; body = [] }

  abbrev pub converted :
      Option DefMethod
      → InvokeContext
      → Text
      → List Argument
      → Go (InvokeContext × Option RestRequest)
  converted none ctx name args = ret (ctx, none)
  converted (some m) ctx name args = do
    e ← add_arguments m 0 args start
    ret (record ctx { method = some m }, rest_request m e (s.get_svc_name name))

  -- `ConvertDubboReqToHTTPReq`
  unfoldable pub convert_dubbo_req_to_http_req :
      InvokeContext → Go (InvokeContext × Option RestRequest)
  unfolding add_arguments get_method_by_interface get_attachment
  convert_dubbo_req_to_http_req ctx =
      let name = get_attachment ctx.req.invocation path_key [] in
      converted (get_method_by_interface s.contract name ctx.req.method_name) ctx name
        ctx.req.arguments

  abbrev pub body_message : Text → DubboRsp → DubboRsp
  body_message b rsp = if is_empty rsp.error_msg then with_error b rsp else rsp

  abbrev valued : Text ⊎ Object → DubboRsp → DubboRsp
  valued (inl message) rsp = with_error message (with_status bad_response rsp)
  valued (inr v) rsp = record rsp { value = v }

  abbrev pub rest_value : DefMethod → ℕ → Text → DubboRsp → Go DubboRsp
  rest_value m status b rsp = elim (get_rsp_schema m status) [
    | none ↦ ret (with_status server_error (with_error b rsp))
    | some r ↦ rest_byte_to_value s.unmarshal r.dtype b >>= λ v. ret (valued v rsp)
  ]

  abbrev pub converted_body : Option DefMethod → ℕ → Option Text → DubboRsp → Go DubboRsp
  converted_body m status none rsp =
      if leb 400 status then ret (with_status server_error rsp) else ret (with_status status_ok rsp)
  converted_body m status (some b) rsp =
      if leb 400 status
      then ret (body_message b (with_status server_error rsp))
      else (from_option m >>= λ m. rest_value m status b (with_status status_ok rsp))

  -- `ConvertRestRspToDubboRsp`
  unfoldable pub convert_rest_rsp_to_dubbo_rsp :
      Option DefMethod → HttpResponse → DubboRsp → Go DubboRsp
  unfolding get_rsp_schema rest_byte_to_value
  convert_rest_rsp_to_dubbo_rsp m resp rsp = converted_body m resp.status_code resp.body rsp

  abbrev rest_status : ErrorKind → ℕ
  rest_status fallback_null_error = 200
  rest_status circuit_error = 503
  rest_status lb_error = 502
  rest_status fault_error = 500
  rest_status other_error = 500

  abbrev rest_answer :
      RestInvocation → Option ChainError → HttpResponse → DubboRsp → Go (HttpResponse × DubboRsp)
  rest_answer inv (some e) resp rsp =
      ret (record resp { status_code = rest_status e.kind }, with_error e.message rsp)
  rest_answer inv none resp rsp = if is_empty inv.endpoint then panic else ret (resp, rsp)

  -- `handleRequest`: without an error, the message of the nil error is read if the endpoint is empty.
  unfoldable pub handle_rest_request :
      RestInvocation → HttpResponse → DubboRsp → Option RestAnswer → Go (HttpResponse × DubboRsp)
  handle_rest_request inv resp rsp none =
      ret (resp, with_error err_un_expected_handler_chain_response rsp)
  handle_rest_request inv resp rsp (some ir) = rest_answer inv ir.err resp rsp

  abbrev called_back :
      RestInvocation → Option (Option RestAnswer) → DubboRsp → Go (HttpResponse × DubboRsp)
  called_back inv none rsp = ret (inv.reply, rsp)
  called_back inv (some ir) rsp = handle_rest_request inv inv.reply rsp ir

  abbrev pub rest_call :
      RestInvocation → RestChain → InvokeContext → Go (Option Text × InvokeContext)
  rest_call inv chain ctx = do
    let (inv', ir) = chain inv
    rsp ← from_option ctx.rsp
    (resp, rsp') ← called_back inv' ir rsp
    rsp'' ← convert_rest_rsp_to_dubbo_rsp ctx.method resp rsp'
    ret (none, record ctx { rsp = some rsp'' })

  abbrev pub rest_chain :
      RestInvocation → Text ⊎ RestChain → InvokeContext → Go (Option Text × InvokeContext)
  rest_chain inv (inl message) ctx = ret (some message, ctx)
  rest_chain inv (inr chain) ctx = rest_call inv chain ctx

  -- A nil chain is called outside of the mode of a sidecar.
  abbrev pub rest_resolved :
      RestInvocation → Text × Option Text → InvokeContext → Go (Option Text × InvokeContext)
  rest_resolved inv (name, some message) ctx = ret (some message, ctx)
  rest_resolved inv (name, none) ctx =
      if s.is_sidecar
      then rest_chain (record inv { micro_service_name = name })
          (s.get_rest_chain s.consumer chain_consumer_outgoing) ctx
      else panic

  -- `preHandleToRest`
  unfoldable pub pre_handle_to_rest : RestRequest → RestInvocation
  unfolding set_local_dubbo_address
  pre_handle_to_rest r = record {
    args = r;
    url_path_format = s.url_string r;
    micro_service_name = [];
    endpoint = (set_local_dubbo_address s.ports_map (codes "rest") [] []).0;
    reply = s.new_response;
  }

  abbrev pub proxied : InvokeContext × Option RestRequest → Go (Option Text × InvokeContext)
  proxied (ctx, none) = ret (some (codes "request is invalid "), ctx)
  proxied (ctx, some r) =
      let inv = pre_handle_to_rest r in
      rest_resolved inv (s.resolve (codes "127.0.0.1") inv.url_path_format inv.micro_service_name)
        ctx

  -- `ProxyRestHandler`
  unfoldable pub proxy_rest_handler : InvokeContext → Go (Option Text × InvokeContext)
  unfolding convert_dubbo_req_to_http_req convert_rest_rsp_to_dubbo_rsp handle_rest_request
      pre_handle_to_rest
  proxy_rest_handler ctx = convert_dubbo_req_to_http_req ctx >>= proxied
