-- ===== src/Proxy/Grpc.antt =====
-- protocol/grpc/reverse_proxy.go: the handlers of gRPC requests. `status.FromError` of the library
-- grpc is a parameter for the errors of a chain; the package's own errors carry no status, and get the
-- code Unknown.
use mesher.Prelude.{
  ℕ, Bool, true, false, List, [], ◌∷◌, ◌++◌, Option, none, some, ◌⊎◌, inl, inr, if◌then◌else◌, ◌==◌,
}
use mesher.Prelude.Text.{Text, Table, codes, insert, is_empty}
use mesher.Prelude.Strings.{sprint_d}
use mesher.Prelude.Go.{Go, ret, panic, ◌>>=◌}
use mesher.Resolver.{Resolved, ResolveError}
use mesher.Cmd.{AddressError, set_local_service_address}
use mesher.Proxy.{
  Header, header_get, header_set, ResponseWriter, write_any_header, write, record_status,
  HttpRequest, HttpResponse, Reply, no_reply, other_reply, response, ChainError, ChainResponse,
  Invocation, Chain, Environment, chain_consumer_outgoing, chain_provider_incoming, err_unknown,
  err_un_expected_handler_chain_response, err_nil_response, address_error, header_values,
  prepare_request,
}
use mesher.Proxy
pub mod Status
pub mod NilResponse

-- A status of gRPC: its code and its message.
abbrev pub Stat : Type 0
Stat = ℕ × Text

-- The status of an error that has none: `codes.Unknown`.
abbrev pub unknown : Text → Stat
unknown message = (2, message)

abbrev pub with_message : Text → Header → Header
with_message m h = if is_empty m then h else header_set h (codes "Grpc-Message") m

-- `WriteErrorResponse`: the status goes into the header, and nothing is sent.
unfoldable pub write_error_response : HttpRequest → Stat → ResponseWriter → ResponseWriter
unfolding header_set header_get record_status sprint_d
write_error_response r (code, message) w =
    let h =
      header_set w.header (codes "Content-Type") (header_get r.header (codes "content-type")) in
    let h' = header_set h (codes "User-Agent") (header_get r.header (codes "User-Agent")) in
    let h'' = header_set h' (codes "Grpc-Status") (sprint_d code) in
    record_status code (record w { header = with_message message h'' })

-- `copyHeader`: the trailer's fields are set in any case.
unfoldable pub copy_header : Header → Header → Header
unfolding mesher.Proxy.copy_header header_set
copy_header dst src =
    let h = mesher.Proxy.copy_header dst src in
    let h' = header_set h (codes "Trailer") (codes "Grpc-Status, Grpc-Message") in
    header_set (header_set h' (codes "Grpc-Status") (codes "0")) (codes "Grpc-Message") []

abbrev pub copy_body : Option Text → ResponseWriter → Go ResponseWriter
copy_body none w = panic
copy_body (some b) w = ret (write b w)

-- `copyChassisResp2HttpResp`: nothing is done for a nil response and for one without a status.
unfoldable pub copy_chassis_resp2_http_resp :
    Option HttpResponse → ResponseWriter → Go ResponseWriter
unfolding copy_header write write_any_header
copy_chassis_resp2_http_resp none w = ret w
copy_chassis_resp2_http_resp (some rsp) w =
    if rsp.status_code == 0
    then ret w
    else (write_any_header rsp.status_code (record w { header = copy_header w.header rsp.header })
        >>= λ w'. copy_body rsp.body w')

abbrev pub Handled : Type 0
Handled = (Text ⊎ Option HttpResponse) × ResponseWriter

abbrev pub type_error : Text
type_error = codes "invocationResponse result is not type *http.Response"

-- The package's own errors.
abbrev pub reported : HttpRequest → Text → ResponseWriter → ResponseWriter
reported r message w = write_error_response r (unknown message) w

abbrev pub handle_result : HttpRequest → Reply → ResponseWriter → Go Handled
handle_result r no_reply w = ret (inl err_unknown, reported r err_nil_response w)
handle_result r other_reply w = ret (inl type_error, reported r type_error w)
handle_result r (response rsp) w = do w' ← copy_chassis_resp2_http_resp rsp w; ret (inr rsp, w')

module _ (from_error : ChainError → Option Stat) where
  abbrev stat_or_unknown : Option Stat → Text → Stat
  stat_or_unknown none message = unknown message
  stat_or_unknown (some s) message = s

  abbrev pub chain_stat : ChainError → Stat
  chain_stat e = stat_or_unknown (from_error e) e.message

  abbrev pub handle_response :
      HttpRequest → Invocation → ChainResponse → Option ChainError → ResponseWriter → Go Handled
  handle_response r inv ir (some e) w = ret (inl e.message, write_error_response r (chain_stat e) w)
  handle_response r inv ir none w =
      if is_empty inv.endpoint
      then ret (inl err_unknown, reported r err_unknown w)
      else handle_result r ir.result w

  unfoldable pub handle_request :
      HttpRequest → Invocation → Option ChainResponse → ResponseWriter → Go Handled
  unfolding write_error_response copy_chassis_resp2_http_resp
  handle_request r inv none w = ret (
    inl err_un_expected_handler_chain_response,
    reported r err_un_expected_handler_chain_response w,
  )
  handle_request r inv (some ir) w = handle_response r inv ir ir.err w

  module _ (env : Environment) where
    unfoldable pub pre_handler : HttpRequest → Invocation
    pre_handler r = record {
      args = r;
      source_service_id = [];
      source_micro_service = [];
      micro_service_name = [];
      protocol = codes "grpc";
      url_path_format = r.url_path;
      endpoint = [];
      version = [];
      app_id = [];
      reply = env.new_response;
      context_headers = [];
    }

    unfoldable pub consumer_pre_handler : HttpRequest → Invocation
    unfolding pre_handler header_set
    consumer_pre_handler r = record (pre_handler r) {
      source_service_id = env.service_id;
      args = record r { header = header_set r.header env.header_source_name env.service_name };
    }

    unfoldable pub provider_pre_handler : HttpRequest → Invocation
    unfolding pre_handler header_get
    provider_pre_handler r = record (pre_handler r) {
      micro_service_name = env.self_service_name;
      version = env.self_version;
      app_id = env.app_id;
      source_micro_service = header_get r.header env.header_source_name;
    }

    -- The status of a nil response cannot be read.
    abbrev pub record_answer : Handled → Go ResponseWriter
    record_answer (inl message, w) = ret w
    record_answer (inr none, w) = panic
    record_answer (inr (some rsp), w) = ret (record_status rsp.status_code w)

    abbrev pub local_answer : Invocation → Text ⊎ Chain → ResponseWriter → Go ResponseWriter
    local_answer inv (inl message) w = ret (reported inv.args message w)
    local_answer inv (inr chain) w = do
      let (inv', ir) = chain inv
      handled ← handle_request inv.args inv' ir w
      record_answer handled

    abbrev with_port : Text → Table Text → Table Text
    with_port port h = if is_empty port then h else insert (codes "X-Forwarded-Port") port h

    abbrev pub local_resolved :
        Invocation
        → Table Text
        → Resolved
        → Option ResolveError
        → ResponseWriter
        → Go ResponseWriter
    local_resolved inv h d (some e) w = ret (reported inv.args (env.resolve_error e) w)
    local_resolved inv h d none w =
        local_answer
          (record inv {
            micro_service_name = d.destination_name;
            context_headers = with_port d.port h;
          })
          (env.get_chain env.consumer chain_consumer_outgoing) w

    -- An absolute URL, for the resolver.
    abbrev pub absolute : HttpRequest → HttpRequest
    absolute r = record r {
      scheme = if is_empty r.scheme then codes "http" else r.scheme;
      url_host = if is_empty r.url_host then r.host else r.url_host;
    }

    -- `LocalRequestHandler`
    unfoldable pub local_request_handler : HttpRequest → ResponseWriter → Go ResponseWriter
    unfolding handle_request write_error_response consumer_pre_handler header_values prepare_request
    local_request_handler r w =
        let inv = consumer_pre_handler (prepare_request r) in
        let h = header_values inv.args.header inv.args.header in
        let source = env.split_first_sep inv.args.remote_addr in
        let r' = absolute inv.args in
        let d = env.resolve source h (env.url_string r') inv.micro_service_name in
        local_resolved (record inv { args = r' }) h d d.err w

    abbrev named : Invocation → Option Text → Invocation
    named inv none = inv
    named inv (some name) = record inv { source_micro_service = name }

    abbrev pub with_source : Invocation → Text → Invocation
    with_source inv remote_addr =
        if is_empty inv.source_micro_service
        then named inv (env.resolve_source (env.split_first_sep remote_addr))
        else inv

    abbrev forwarded_host : HttpRequest → HttpRequest
    forwarded_host r =
        if is_empty (header_get r.header (codes "X-Forwarded-Host"))
        then record r { header = header_set r.header (codes "X-Forwarded-Host") r.host }
        else r

    abbrev pub address_answer : HttpRequest → Option AddressError → ResponseWriter → ResponseWriter
    address_answer r none w = w
    address_answer r (some e) w = reported r (address_error e) w

    abbrev pub remote_answer : Invocation → Text ⊎ Chain → ResponseWriter → Go ResponseWriter
    remote_answer inv (inl message) w = ret (reported inv.args message w)
    remote_answer inv (inr chain) w = do
      let (endpoint, err) =
          set_local_service_address env.ports_map inv.protocol inv.micro_service_name
            (header_get inv.args.header (codes "X-Forwarded-Port"))
      let r' = forwarded_host inv.args
      let (inv', ir) = chain (record inv { endpoint = endpoint; args = r' })
      (handled, w') ← handle_request r' inv' ir (address_answer inv.args err w)
      ret w'

    -- `RemoteRequestHandler`
    unfoldable pub remote_request_handler : HttpRequest → ResponseWriter → Go ResponseWriter
    unfolding handle_request write_error_response provider_pre_handler header_values prepare_request
        set_local_service_address header_get header_set
    remote_request_handler r w =
        let r' = prepare_request r in
        let inv = with_source (provider_pre_handler r') r'.remote_addr in
        remote_answer (record inv { context_headers = header_values r'.header r'.header })
          (env.get_chain env.provider chain_provider_incoming) w
