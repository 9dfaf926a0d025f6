-- ===== src/Proxy/Http/Records.antt =====
-- What LocalRequestHandler sends and what the metrics record.
use mesher.Prelude.{◌≡◌, refl, Option, none, some, ◌⊎◌, inl, inr}
use mesher.Prelude.Text.{Text, Table}
use mesher.Prelude.Go.{Go, ret, panic, ◌>>=◌}
use mesher.Resolver.{Resolved, ResolveError}
use mesher.Egress.{EgressConfig}
use mesher.Proxy.{
  ResponseWriter, HttpRequest, Invocation, Chain, Environment, chain_consumer_outgoing,
  consumer_egress, chain_consumer_egress, record_status, prepare_request, header_values,
}
use mesher.Proxy.Http.{
  Handled, handle_request, record_answer, local_answer, to_egress, local_chain, local_resolved,
  local_request_handler, consumer_pre_handler, with_port,
}
use mesher.Proxy.Http.Answers.{
  IsFresh, IsAnswered, IsHandled, PanicsIf, AnswerPanics, handle_error_response-IsAnswered,
  handle_request-PanicsIf,
}

module _ (env : Environment) where
  -- The two ways to a panic: the search for an egress rule, and an answer of a chain that cannot be
  -- written.
  pub data MayPanic : Type 0 where
    on_match : (name : Text) → env.egress_match name ≡ panic → MayPanic
    on_answer :
        (kind name : Text) (chain : Chain) (inv : Invocation)
        → env.get_chain kind name ≡ inr chain
        → AnswerPanics (chain inv).0 (chain inv).1
        → MayPanic

  -- One answer that is recorded once, or a panic for a reason.
  abbrev pub Outcome : Go ResponseWriter → Type 0
  Outcome (ret w) = IsAnswered w
  Outcome panic = MayPanic

  record_answer-Outcome : (h : Handled) → IsHandled h → Outcome (record_answer env h)
  unfolding record_status
  record_answer-Outcome (inl message, w) a = a
  record_answer-Outcome (inr none, w) a = absurd a
  record_answer-Outcome (inr (some rsp), w) s = record {
    status = rsp.status_code;
    sent_header = s.sent_header;
    is_sent = s.is_sent;
    is_recorded = rw s.not_recorded;
  }

  handled-Outcome :
      (P : Type 0) (g : Go Handled)
      → (P → MayPanic)
      → PanicsIf P g
      → Outcome (g >>= record_answer env)
  handled-Outcome P (ret h) m (n, i) = record_answer-Outcome h i
  handled-Outcome P panic m p = m p

  local_answer-Outcome :
      (inv : Invocation) (kind name : Text) (c : Text ⊎ Chain) (w : ResponseWriter)
      → env.get_chain kind name ≡ c
      → IsFresh w
      → Outcome (local_answer env inv c w)
  local_answer-Outcome inv kind name (inl message) w e f =
      handle_error_response-IsAnswered 502 (some message) w f
  local_answer-Outcome inv kind name (inr chain) w e f =
      let (inv', ir) = chain inv in
      handled-Outcome (AnswerPanics inv' ir) (handle_request inv' ir w)
        (on_answer kind name chain inv e) (handle_request-PanicsIf inv' ir w f)

  local_chain-Outcome :
      (inv : Invocation) (name : Text) (g : Go (Option EgressConfig)) (w : ResponseWriter)
      → env.egress_match name ≡ g
      → IsFresh w
      → Outcome (g >>= λ rule. local_chain env inv rule w)
  local_chain-Outcome inv name (ret none) w e f =
      local_answer-Outcome inv env.consumer chain_consumer_outgoing
        (env.get_chain env.consumer chain_consumer_outgoing) w refl f
  local_chain-Outcome inv name (ret (some rule)) w e f =
      local_answer-Outcome (to_egress env inv rule) consumer_egress chain_consumer_egress
        (env.get_chain consumer_egress chain_consumer_egress) w refl f
  local_chain-Outcome inv name panic w e f = on_match name e

  local_resolved-Outcome :
      (inv : Invocation) (h : Table Text) (d : Resolved) (o : Option ResolveError)
      (w : ResponseWriter)
      → IsFresh w
      → Outcome (local_resolved env inv h d o w)
  local_resolved-Outcome inv h d (some e) w f =
      handle_error_response-IsAnswered 400 (some (env.resolve_error e)) w f
  local_resolved-Outcome inv h d none w f =
      local_chain-Outcome
        (record inv {
          micro_service_name = d.destination_name;
          context_headers = with_port env d.port h;
        })
        d.destination_name (env.egress_match d.destination_name) w refl f

  -- On a fresh writer, LocalRequestHandler sends one status and the metrics record this status, once,
  -- whatever the resolver, the rules and the chain do. It panics only if the search for an egress rule
  -- does, or if the chain gives an answer that cannot be written: without an error, a nil response, one
  -- without a body or one with a code outside 100 to 999; an injected fault with such a code; or an
  -- error that is none of mesher's with a response in the invocation that has a body and such a code.
  pub local_request_handler-Outcome :
      (r : HttpRequest) (w : ResponseWriter) → IsFresh w → Outcome (local_request_handler env r w)
  unfolding local_request_handler
  local_request_handler-Outcome r w f =
      let inv = consumer_pre_handler env (prepare_request r) in
      let r' = inv.args in
      let h = header_values r'.header r'.header in
      let d =
        env.resolve (env.split_first_sep r'.remote_addr) h (env.url_string r')
          inv.micro_service_name in
      local_resolved-Outcome inv h d d.err w f
