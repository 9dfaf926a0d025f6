-- ===== src/Examples/Proxy.antt =====
-- The theorems on the proxies for HTTP and gRPC at concrete values.
use mesher.Prelude.{◌≡◌, refl, [], ◌∷◌, Option, none, some, inr, true, if◌then◌else◌}
use mesher.Prelude.Text.{Text, codes, lookup, lookup-nil, text_eq, erase}
use mesher.Prelude.Strings.{canonical_header_key, canonical}
use mesher.Prelude.Go.{ret}
use mesher.Proxy.{
  Header, header_get, header_del, prepare_request, ResponseWriter, HttpRequest, HttpResponse,
  valid_code, body_allowed, no_reply, response, ChainError, ChainResponse, Invocation, Chain,
  Environment,
}
use mesher.Proxy.Headers.{values}
use mesher.Proxy.Http.{handle_request, local_request_handler, remote_request_handler}
use mesher.Proxy.Http.Answers.{IsFresh}
use mesher.Proxy.Http.Records.{Outcome, local_request_handler-Outcome}
use mesher.Proxy.Http.Transparent.{connection, handle_request-transparent}
use mesher.Proxy.Http.Twice.{SentTwice, no_address, remote_request_handler-SentTwice}
use mesher.Proxy.Grpc.{Stat}
use mesher.Proxy.Grpc
use mesher.Proxy.Grpc.Status

abbrev fresh : ResponseWriter
fresh = record { header = []; sent = none; body = []; recorded = [] }

abbrev request : HttpRequest
request = record {
  header = [];
  host = codes "svc";
  scheme = [];
  url_host = [];
  url_path = codes "/";
  remote_addr = codes "10.0.0.1:80";
  content_length = 0;
  body = none;
  request_uri = codes "/";
  close = true;
}

abbrev reply : HttpResponse
reply = record {
  status_code = 201;
  header = (codes "Connection", codes "close" ∷ []) ∷ (codes "X", codes "1" ∷ codes "2" ∷ []) ∷ [];
  body = some (codes "done");
}

abbrev answer : ChainResponse
answer = record { status = 0; result = response (some reply); err = none }

-- A chain that selects an instance.
abbrev chain : Chain
chain inv = (record inv { endpoint = codes "10.0.0.2:80" }, some answer)

abbrev env : Environment
env = record {
  service_id = codes "1";
  service_name = codes "me";
  self_service_name = codes "me";
  self_version = codes "0.0.1";
  app_id = codes "app";
  header_source_name = codes "X-Source";
  consumer = codes "Consumer";
  provider = codes "Provider";
  ports_map = [];
  split_first_sep = λ s. s;
  url_string = λ r. r.url_path;
  resolve = λ source h url name. record { port = []; err = none; destination_name = codes "svc" };
  resolve_error = λ e. [];
  resolve_source = λ source. none;
  egress_match = λ name. ret none;
  get_chain = λ kind name. inr chain;
  new_response = response none;
}

fresh-IsFresh : IsFresh fresh
fresh-IsFresh = record { not_sent = refl; not_recorded = refl }

local_request_handler-Outcome_example : Outcome env (local_request_handler env request fresh)
local_request_handler-Outcome_example =
    local_request_handler-Outcome env request fresh fresh-IsFresh

abbrev selected : Invocation
selected = record {
  args = request;
  source_service_id = [];
  source_micro_service = [];
  micro_service_name = codes "svc";
  protocol = codes "rest";
  url_path_format = codes "/";
  endpoint = codes "10.0.0.2:80";
  version = [];
  app_id = [];
  reply = response none;
  context_headers = [];
}

valid : valid_code 201 ≡ true
unfolding valid_code
valid = refl

handle_request-transparent_example :
    (w : ResponseWriter) × (h : Header) × (handle_request selected (some answer) fresh
      ≡ ret (inr (some reply), w))
    × (w.sent ≡ some (201, h))
    × (w.body ≡ (if body_allowed 201 then codes "done" else []))
    × ((k : Text) → values k h ≡ (if text_eq connection k then [] else values k reply.header))
unfolding lookup text_eq canonical_header_key canonical
handle_request-transparent_example =
    handle_request-transparent selected answer reply (codes "done") fresh refl refl refl refl valid
      (refl, (refl, tt)) (refl, (refl, tt)) refl refl refl

no_port : header_get (prepare_request request).header (codes "X-Forwarded-Port") ≡ []
unfolding header_get prepare_request header_del lookup erase
no_port = refl

remote_request_handler-SentTwice_example :
    SentTwice (no_address env) (codes "done") fresh (remote_request_handler env request fresh)
remote_request_handler-SentTwice_example =
    remote_request_handler-SentTwice env request chain answer reply (codes "done") fresh refl
      (λ inv e. (refl, refl)) refl refl refl (lookup-nil (codes "rest")) no_port refl

abbrev no_stat : ChainError → Option Stat
no_stat e = none

handle_request-Outcome_example :
    mesher.Proxy.Grpc.Status.Outcome no_stat selected fresh
      (some answer)
      (mesher.Proxy.Grpc.handle_request no_stat request selected (some answer) fresh)
handle_request-Outcome_example =
    mesher.Proxy.Grpc.Status.handle_request-Outcome no_stat request selected (some answer) fresh
      refl
