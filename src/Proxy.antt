-- ===== src/Proxy.antt =====
-- What the proxies of protocol/http and protocol/grpc share: headers and writers of net/http, the
-- invocations and the handler chains of go-chassis, and the errors of protocol/errors.go.
use mesher.Prelude.{
  ℕ, Bool, true, false, List, [], ◌∷◌, ◌++◌, Option, none, some, ◌⊎◌, inl, inr, if◌then◌else◌, ◌==◌,
  ◌&&◌, ◌||◌, not, leb,
}
use mesher.Prelude.Text.{Text, Table, codes, lookup, insert, erase, is_empty}
use mesher.Prelude.Strings.{canonical_header_key}
use mesher.Prelude.Go.{Go, ret, panic}
use mesher.Resolver.{Resolved, ResolveError}
use mesher.Egress.{EgressConfig}
use mesher.Cmd.{AddressError, not_supported}
pub mod Headers
pub mod Http
pub mod Grpc
pub mod Dubbo

-- `http.Header`, with canonical keys
abbrev pub Header : Type 0
Header = Table (List Text)

abbrev pub first_value : Option (List Text) → Text
first_value none = []
first_value (some []) = []
first_value (some (v ∷ vs)) = v

abbrev pub all_values : Option (List Text) → List Text
all_values none = []
all_values (some vs) = vs

unfoldable pub header_get : Header → Text → Text
unfolding canonical_header_key
header_get h k = first_value (lookup (canonical_header_key k) h)

unfoldable pub header_set : Header → Text → Text → Header
unfolding canonical_header_key
header_set h k v = insert (canonical_header_key k) (v ∷ []) h

unfoldable pub header_add : Header → Text → Text → Header
unfolding canonical_header_key
header_add h k v =
    let key = canonical_header_key k in insert key (all_values (lookup key h) ++ (v ∷ [])) h

unfoldable pub header_del : Header → Text → Header
unfolding canonical_header_key
header_del h k = erase (canonical_header_key k) h

-- An `http.ResponseWriter`: the header to be sent, the status and the header that were sent, the body,
-- and the statuses that the metrics recorded for the request.
pub record ResponseWriter : Type 0 where
  pub header : Header
  pub sent : Option (ℕ × Header)
  pub body : Text
  pub recorded : List ℕ

abbrev sent_once : Option (ℕ × Header) → ℕ → Header → Option (ℕ × Header)
sent_once none status h = some (status, h)
sent_once (some s) status h = some s

-- The codes from 100 to 999.
unfoldable pub valid_code : ℕ → Bool
valid_code status = leb 100 status && leb status 999

-- `WriteHeader` at a valid code: a second call has no effect.
unfoldable pub write_header : ℕ → ResponseWriter → ResponseWriter
write_header status w = record w { sent = sent_once w.sent status w.header }

-- A first call of `WriteHeader` panics at a code that is not valid.
abbrev pub takes : Option (ℕ × Header) → ℕ → Bool
takes none status = valid_code status
takes (some s) status = true

-- `WriteHeader` at any code
unfoldable pub write_any_header : ℕ → ResponseWriter → Go ResponseWriter
unfolding write_header valid_code
write_any_header status w = if takes w.sent status then ret (write_header status w) else panic

-- Whether a response with the code may have a body.
unfoldable pub body_allowed : ℕ → Bool
body_allowed status = not ((leb 100 status && leb status 199) || (status == 204 || status == 304))

abbrev pub written : Option (ℕ × Header) → Text → Text
written none b = b
written (some (status, h)) b = if body_allowed status then b else []

-- `Write`: the status is 200 if none was sent, and nothing is written if it allows no body. What
-- net/http cuts off behind the length that the header announces is not told apart.
unfoldable pub write : Text → ResponseWriter → ResponseWriter
unfolding write_header body_allowed
write b w = record (write_header 200 w) { body = w.body ++ written w.sent b }

-- `RecordStatus`
unfoldable pub record_status : ℕ → ResponseWriter → ResponseWriter
record_status status w = record w { recorded = w.recorded ++ (status ∷ []) }

pub record HttpRequest : Type 0 where
  pub header : Header
  pub host : Text
  pub scheme : Text
  pub url_host : Text
  pub url_path : Text
  pub remote_addr : Text
  pub content_length : ℕ
  pub body : Option Text
  pub request_uri : Text
  pub close : Bool

pub record HttpResponse : Type 0 where
  pub status_code : ℕ
  pub header : Header
  pub body : Option Text

-- What an `interface{}` of go-chassis holds here: nothing, a pointer to a response, which may be nil, or
-- a value of another type.
pub data Reply : Type 0 where
  no_reply other_reply : Reply
  response : Option HttpResponse → Reply

-- The types of errors that the proxies tell apart.
pub data ErrorKind : Type 0 where
  fallback_null_error lb_error circuit_error fault_error other_error : ErrorKind

pub record ChainError : Type 0 where
  pub kind : ErrorKind
  pub message : Text

-- `invocation.Response`
pub record ChainResponse : Type 0 where
  pub status : ℕ
  pub result : Reply
  pub err : Option ChainError

-- `invocation.Invocation`, with the request that its arguments point to and the headers in its context
pub record Invocation : Type 0 where
  pub args : HttpRequest
  pub source_service_id : Text
  pub source_micro_service : Text
  pub micro_service_name : Text
  pub protocol : Text
  pub url_path_format : Text
  pub endpoint : Text
  pub version : Text
  pub app_id : Text
  pub reply : Reply
  pub context_headers : Table Text

-- A handler chain: what it makes of the invocation, and the last response that it gave to the callback,
-- none if that was nil or if it gave none.
abbrev pub Chain : Type 0
Chain = Invocation → Invocation × Option ChainResponse

-- The rest of the program and its libraries, as the proxies use them.
pub record Environment : Type 0 where
  pub service_id : Text
  pub service_name : Text
  pub self_service_name : Text
  pub self_version : Text
  pub app_id : Text
  pub header_source_name : Text
  pub consumer : Text
  pub provider : Text
  pub ports_map : Table Text
  pub split_first_sep : Text → Text
  pub url_string : HttpRequest → Text
  pub resolve : Text → Table Text → Text → Text → Resolved
  pub resolve_error : ResolveError → Text
  pub resolve_source : Text → Option Text
  pub egress_match : Text → Go (Option EgressConfig)
  pub get_chain : Text → Text → Text ⊎ Chain
  pub new_response : Reply

abbrev pub chain_consumer_outgoing : Text
chain_consumer_outgoing = codes "outgoing"

abbrev pub chain_provider_incoming : Text
chain_provider_incoming = codes "incoming"

abbrev pub chain_consumer_egress : Text
chain_consumer_egress = codes "egress"

abbrev pub consumer_egress : Text
consumer_egress = codes "ConsumerEgress"

abbrev pub err_unknown : Text
err_unknown = codes "Unknown Error,instance is not selected, error is nil"

abbrev pub err_un_expected_handler_chain_response : Text
err_un_expected_handler_chain_response =
    codes
      "Response from Handler chain is nil,better to check if handler chain is empty, or some handler just return a nil response"

abbrev pub err_nil_response : Text
err_nil_response = codes "http response is nil"

-- The message of an error of SetLocalServiceAddress
abbrev pub address_error : AddressError → Text
address_error (not_supported protocol service) =
    codes "["
    ++ (protocol
        ++ (codes "] is not supported, ["
            ++ (service
                ++ codes
                    "] didn't set env [SERVICE_PORTS] or cmd parameter --service-ports before mesher start")))

-- `h[k] = r.Header.Get(k)` for each key
unfoldable pub header_values : Header → Header → Table Text
unfolding header_get
header_values all [] = []
header_values all ((k, vs) ∷ h) = insert k (header_get all k) (header_values all h)

-- `prepareRequest`, the same in both packages
unfoldable pub prepare_request : HttpRequest → HttpRequest
unfolding header_del
prepare_request r = record r {
  body = if r.content_length == 0 then none else r.body;
  request_uri = [];
  close = false;
  header = header_del r.header (codes "Connection");
}

-- `copyHeader` of protocol/http, and the loop of that of protocol/grpc
abbrev pub add_values : Header → Text → List Text → Header
add_values dst k [] = dst
add_values dst k (v ∷ vs) = add_values (header_add dst k v) k vs

unfoldable pub copy_header : Header → Header → Header
unfolding header_add
copy_header dst [] = dst
copy_header dst ((k, vs) ∷ src) = copy_header (add_values dst k vs) src
