-- ===== src/Proxy/Http.antt =====
-- protocol/http/reverse_proxy.go: the handlers of requests from the service and from other meshers.
use mesher.Prelude.{
  ℕ, Bool, true, false, List, [], ◌∷◌, ◌++◌, Option, none, some, ◌⊎◌, inl, inr, if◌then◌else◌, ◌==◌,
}
use mesher.Prelude.Text.{Text, Table, codes, lookup, insert, is_empty}
use mesher.Prelude.Strings.{equal_fold, sprint_d}
use mesher.Prelude.Go.{Go, ret, panic, ◌>>=◌}
use mesher.Resolver.{Resolved, ResolveError}
use mesher.Egress.{EgressConfig, EgressPort}
use mesher.Cmd.{AddressError, set_local_service_address}
pub mod Answers
pub mod Records
pub mod Twice
pub mod Transparent
use mesher.Proxy.{
  header_get, header_set, header_del, ResponseWriter, write_header, write_any_header, takes,
  valid_code, write, record_status, HttpRequest, HttpResponse, Reply, no_reply, other_reply,
  response, ErrorKind, fallback_null_error, lb_error, circuit_error, fault_error, other_error,
  ChainError, ChainResponse, Invocation, Chain, Environment, chain_consumer_outgoing,
  chain_provider_incoming, chain_consumer_egress, consumer_egress, err_unknown,
  err_un_expected_handler_chain_response, err_nil_response, address_error, header_values,
  prepare_request, copy_header,
}

-- `handleErrorResponse` at a valid code: the message is none if the error is nil.
unfoldable pub handle_error_response : ℕ → Option Text → ResponseWriter → ResponseWriter
unfolding write write_header record_status
handle_error_response status none w = record_status status (write_header status w)
handle_error_response status (some message) w =
    record_status status (write message (write_header status w))

-- `handleErrorResponse` at any code; all calls but one give one from 200 to 503.
unfoldable pub handle_any_error_response : ℕ → Option Text → ResponseWriter → Go ResponseWriter
unfolding handle_error_response valid_code
handle_any_error_response status message w =
    if takes w.sent status then ret (handle_error_response status message w) else panic

abbrev pub post_process_response : HttpResponse → HttpResponse
post_process_response rsp = record rsp { header = header_del rsp.header (codes "Connection") }

abbrev pub copy_body : Option Text → ResponseWriter → Go ResponseWriter
copy_body none w = panic
copy_body (some b) w = ret (write b w)

-- `copyChassisResp2HttpResp`: a nil response panics in postProcessResponse, and a nil body in io.Copy.
unfoldable pub copy_chassis_resp2_http_resp :
    Option HttpResponse → ResponseWriter → Go ResponseWriter
unfolding write write_any_header copy_header header_del
copy_chassis_resp2_http_resp none w = panic
copy_chassis_resp2_http_resp (some rsp) w =
    let rsp' = post_process_response rsp in
    let w' = record w { header = copy_header w.header rsp'.header } in
    write_any_header rsp'.status_code w' >>= λ w''. copy_body rsp'.body w''

abbrev pub raw_response : Text → HttpResponse → Option Text → ResponseWriter → Go ResponseWriter
raw_response message rsp none w = ret (handle_error_response 502 (some message) w)
raw_response message rsp (some b) w = do
  w' ← copy_chassis_resp2_http_resp (some rsp) w
  ret (record_status rsp.status_code w')

-- An error that is none of mesher's: the response that came with it is handed on.
abbrev pub raw_error : Text → Reply → ResponseWriter → Go ResponseWriter
raw_error message no_reply w = ret (handle_error_response 500 (some message) w)
raw_error message other_reply w = ret (handle_error_response 500 (some message) w)
raw_error message (response none) w = ret (handle_error_response 502 (some message) w)
raw_error message (response (some rsp)) w = raw_response message rsp rsp.body w

abbrev pub chain_error : ErrorKind → Text → ℕ → Reply → ResponseWriter → Go ResponseWriter
chain_error fallback_null_error message status reply w = ret (handle_error_response 200 none w)
chain_error lb_error message status reply w = ret (handle_error_response 502 (some message) w)
chain_error circuit_error message status reply w = ret (handle_error_response 503 (some message) w)
chain_error fault_error message status reply w = handle_any_error_response status (some message) w
chain_error other_error message status reply w = raw_error message reply w

-- What handleRequest returns: the response or the message of an error, with the writer.
abbrev pub Handled : Type 0
Handled = (Text ⊎ Option HttpResponse) × ResponseWriter

abbrev pub type_error : Text
type_error = codes "invocationResponse result is not type *rest.Response"

abbrev pub handle_result : Reply → ResponseWriter → Go Handled
handle_result no_reply w =
    ret (inl err_unknown, handle_error_response 502 (some err_nil_response) w)
handle_result other_reply w = ret (inl type_error, handle_error_response 502 (some type_error) w)
handle_result (response rsp) w = do w' ← copy_chassis_resp2_http_resp rsp w; ret (inr rsp, w')

abbrev pub handle_response :
    Invocation → ChainResponse → Option ChainError → ResponseWriter → Go Handled
handle_response inv ir (some e) w = do
  w' ← chain_error e.kind e.message ir.status inv.reply w
  ret (inl e.message, w')
handle_response inv ir none w =
    if is_empty inv.endpoint
    then ret (inl err_unknown, handle_error_response 502 (some err_unknown) w)
    else handle_result ir.result w

unfoldable pub handle_request : Invocation → Option ChainResponse → ResponseWriter → Go Handled
unfolding handle_error_response handle_any_error_response copy_chassis_resp2_http_resp
handle_request inv none w = ret (
  inl err_un_expected_handler_chain_response,
  handle_error_response 502 (some err_un_expected_handler_chain_response) w,
)
handle_request inv (some ir) w = handle_response inv ir ir.err w

-- The port of the first entry for HTTP, else 80.
unfoldable pub egress_port : List EgressPort → ℕ
egress_port [] = 80
egress_port (p ∷ ps) = if equal_fold p.protocol (codes "http") then p.port else egress_port ps

module _ (env : Environment) where
  unfoldable pub pre_handler : HttpRequest → Invocation
  pre_handler r = record {
    args = r;
    source_service_id = [];
    source_micro_service = [];
    micro_service_name = [];
    protocol = codes "rest";
    url_path_format = r.url_path;
    endpoint = [];
    version = [];
    app_id = [];
    reply = env.new_response;
    context_headers = [];
  }

  -- `consumerPreHandler`: the name of the service is put into the request's header.
  unfoldable pub consumer_pre_handler : HttpRequest → Invocation
  unfolding pre_handler header_set
  consumer_pre_handler r = record (pre_handler r) {
    source_service_id = env.service_id;
    args = record r { header = header_set r.header env.header_source_name env.service_name };
  }

  unfoldable pub provider_pre_handler : HttpRequest → Invocation
  unfolding pre_handler header_get
  provider_pre_handler r = record (pre_handler r) {
    micro_service_name = env.self_service_name;
    version = env.self_version;
    app_id = env.app_id;
    source_micro_service = header_get r.header env.header_source_name;
  }

  abbrev pub with_port : Text → Table Text → Table Text
  with_port port h = if is_empty port then h else insert (codes "X-Forwarded-Port") port h

  -- The status of a nil response cannot be read.
  abbrev pub record_answer : Handled → Go ResponseWriter
  record_answer (inl message, w) = ret w
  record_answer (inr none, w) = panic
  record_answer (inr (some rsp), w) = ret (record_status rsp.status_code w)

  -- The chain, and what LocalRequestHandler does with its answer.
  abbrev pub local_answer : Invocation → Text ⊎ Chain → ResponseWriter → Go ResponseWriter
  local_answer inv (inl message) w = ret (handle_error_response 502 (some message) w)
  local_answer inv (inr chain) w = do
    let (inv', ir) = chain inv
    handled ← handle_request inv' ir w
    record_answer handled

  abbrev pub to_egress : Invocation → EgressConfig → Invocation
  to_egress inv rule = record inv {
    endpoint = inv.micro_service_name ++ (codes ":" ++ sprint_d (egress_port rule.ports));
  }

  abbrev pub local_chain : Invocation → Option EgressConfig → ResponseWriter → Go ResponseWriter
  local_chain inv none w = local_answer inv (env.get_chain env.consumer chain_consumer_outgoing) w
  local_chain inv (some rule) w =
      local_answer (to_egress inv rule) (env.get_chain consumer_egress chain_consumer_egress) w

  abbrev pub local_resolved :
      Invocation → Table Text → Resolved → Option ResolveError → ResponseWriter → Go ResponseWriter
  local_resolved inv h d (some e) w = ret (handle_error_response 400 (some (env.resolve_error e)) w)
  local_resolved inv h d none w = do
    let inv' = record inv {
      micro_service_name = d.destination_name;
      context_headers = with_port d.port h;
    }
    rule ← env.egress_match inv'.micro_service_name
    local_chain inv' rule w

  -- `LocalRequestHandler`
  unfoldable pub local_request_handler : HttpRequest → ResponseWriter → Go ResponseWriter
  unfolding handle_request consumer_pre_handler header_values prepare_request
  local_request_handler r w =
      let inv = consumer_pre_handler (prepare_request r) in
      let r' = inv.args in
      let h = header_values r'.header r'.header in
      let source = env.split_first_sep r'.remote_addr in
      let d = env.resolve source h (env.url_string r') inv.micro_service_name in
      local_resolved inv h d d.err w

  abbrev pub named : Invocation → Option Text → Invocation
  named inv none = inv
  named inv (some name) = record inv { source_micro_service = name }

  -- The source that the header names, or else that of the address.
  abbrev pub with_source : Invocation → Text → Invocation
  with_source inv remote_addr =
      if is_empty inv.source_micro_service
      then named inv (env.resolve_source (env.split_first_sep remote_addr))
      else inv

  abbrev pub forwarded_host : HttpRequest → HttpRequest
  forwarded_host r =
      if is_empty (header_get r.header (codes "X-Forwarded-Host"))
      then record r { header = header_set r.header (codes "X-Forwarded-Host") r.host }
      else r

  abbrev pub address_answer : Option AddressError → ResponseWriter → ResponseWriter
  address_answer none w = w
  address_answer (some e) w = handle_error_response 502 (some (address_error e)) w

  -- After an error of SetLocalServiceAddress the handler goes on.
  abbrev pub remote_answer : Invocation → Text ⊎ Chain → ResponseWriter → Go ResponseWriter
  remote_answer inv (inl message) w = ret (handle_error_response 502 (some message) w)
  remote_answer inv (inr chain) w = do
    let (endpoint, err) =
        set_local_service_address env.ports_map inv.protocol inv.micro_service_name
          (header_get inv.args.header (codes "X-Forwarded-Port"))
    let w' = address_answer err w
    let (inv', ir) = chain (record inv { endpoint = endpoint; args = forwarded_host inv.args })
    (handled, w'') ← handle_request inv' ir w'
    ret w''

  -- `RemoteRequestHandler`
  unfoldable pub remote_request_handler : HttpRequest → ResponseWriter → Go ResponseWriter
  unfolding handle_request handle_error_response provider_pre_handler header_values prepare_request
      set_local_service_address header_get header_set
  remote_request_handler r w =
      let r' = prepare_request r in
      let inv = with_source (provider_pre_handler r') r'.remote_addr in
      remote_answer (record inv { context_headers = header_values r'.header r'.header })
        (env.get_chain env.provider chain_provider_incoming) w
