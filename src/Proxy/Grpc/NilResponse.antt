-- ===== src/Proxy/Grpc/NilResponse.antt =====
-- A nil response of the chain, in the gRPC proxy and in the HTTP proxy.
use mesher.Prelude.{◌≡◌, none, some, Option, false, inr}
use mesher.Prelude.Text.{is_empty}
use mesher.Prelude.Go.{ret, panic}
use mesher.Proxy.{
  ResponseWriter, HttpRequest, Reply, response, ChainError, ChainResponse, Invocation, Chain,
  Environment,
}
use mesher.Proxy.Grpc.{Stat, copy_chassis_resp2_http_resp, handle_request, local_answer}
use mesher.Proxy.Http

module _ (from_error : ChainError → Option Stat) (env : Environment) where
  -- If the chain reports no error and gives a nil response, after an instance was selected, then the
  -- gRPC proxy leaves the writer as it is and reports no error, after which LocalRequestHandler panics
  -- at the status of the response; the HTTP proxy panics at once.
  nil_response :
      (r : HttpRequest) (inv inv' : Invocation) (ir : ChainResponse) (chain : Chain)
      (w : ResponseWriter)
      → chain inv ≡ (inv', some ir)
      → ir.err ≡ none
      → is_empty inv'.endpoint ≡ false
      → ir.result ≡ response none
      → (handle_request from_error r inv' (some ir) w ≡ ret (inr none, w))
        × (local_answer from_error env inv (inr chain) w ≡ panic)
        × (mesher.Proxy.Http.handle_request inv' (some ir) w ≡ panic)
        × (mesher.Proxy.Http.local_answer env inv (inr chain) w ≡ panic)
  unfolding handle_request mesher.Proxy.Http.handle_request copy_chassis_resp2_http_resp
      mesher.Proxy.Http.copy_chassis_resp2_http_resp
  nil_response r inv inv' ir chain w c no_error selected result = (
    rw (no_error, selected, result),
    rw (c, no_error, selected, result),
    rw (no_error, selected, result),
    rw (c, no_error, selected, result),
  )
