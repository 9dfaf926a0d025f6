-- ===== src/Proxy/Http/Twice.antt =====
-- RemoteRequestHandler after an error of SetLocalServiceAddress: it answers, and goes on.
use mesher.Prelude.{
  ◌≡◌, refl, subst, sym, ap, ◌∙◌, [], ◌∷◌, ◌++◌, Option, none, some, inr, false, if-cases,
}
use mesher.Prelude.Text.{Text, codes, is_empty, lookup}
use mesher.Prelude.Go.{Go, ret, panic, ◌>>=◌}
use mesher.Cmd.{AddressError, not_supported, set_local_service_address, read_port}
use mesher.Proxy.{
  Header, ResponseWriter, HttpRequest, HttpResponse, response, ChainResponse, Invocation, Chain,
  Environment, chain_provider_incoming, address_error, write, write_header, write_any_header,
  record_status, prepare_request, header_get, header_values, header_del, copy_header,
}
use mesher.Proxy.Http.{
  handle_request, handle_error_response, remote_request_handler, remote_answer, address_answer,
  provider_pre_handler, with_source, named, forwarded_host, pre_handler,
  copy_chassis_resp2_http_resp,
}

-- A call that returns after the status 502 was sent and recorded, once, with a header that nothing was
-- added to, and with the message and then the second text in the body.
abbrev pub SentTwice : Text → Text → ResponseWriter → Go ResponseWriter → Type 0
SentTwice message b v (ret w) =
    (w.sent ≡ some (502, v.header))
    × (w.body ≡ (v.body ++ message) ++ b)
    × (w.recorded ≡ v.recorded ++ (502 ∷ []))
SentTwice message b v panic = ⊥

-- A response that is copied onto a writer whose status 502 was sent before.
copied_behind :
    (inv : Invocation) (ir : ChainResponse) (rsp : HttpResponse) (b : Text) (h : Header)
    (v : ResponseWriter)
    → ir.err ≡ none
    → is_empty inv.endpoint ≡ false
    → ir.result ≡ response (some rsp)
    → rsp.body ≡ some b
    → v.sent ≡ some (502, h)
    → (w : ResponseWriter) × (handle_request inv (some ir) v ≡ ret (inr (some rsp), w))
      × (w.sent ≡ some (502, h))
      × (w.body ≡ v.body ++ b)
      × (w.recorded ≡ v.recorded)
unfolding handle_request copy_chassis_resp2_http_resp write_any_header write write_header
copied_behind inv ir rsp b h v no_error selected result body sent = (
  write b (
      write_header rsp.status_code
        (record v { header = copy_header v.header (header_del rsp.header (codes "Connection")) })),
  rw (no_error, selected, result, body, sent) refl,
  rw sent refl,
  rw sent refl,
  refl,
)

copied-SentTwice :
    (inv : Invocation) (ir : ChainResponse) (rsp : HttpResponse) (b message : Text)
    (v : ResponseWriter)
    → ir.err ≡ none
    → is_empty inv.endpoint ≡ false
    → ir.result ≡ response (some rsp)
    → rsp.body ≡ some b
    → v.sent ≡ none
    → SentTwice message b v
        (handle_request inv (some ir) (handle_error_response 502 (some message) v) >>= λ h. ret h.1)
unfolding handle_error_response write write_header record_status
copied-SentTwice inv ir rsp b message v no_error selected result body f =
    let v' = handle_error_response 502 (some message) v in
    let (w, e, s, t, n) =
      copied_behind inv ir rsp b v.header v' no_error selected result body (rw f refl) in
    subst (λ g. SentTwice message b v (g >>= λ h. ret h.1)) (sym e) (s, t ∙ (rw f refl), n)

module _ (env : Environment) where
  abbrev pub rest_protocol : Text
  rest_protocol = codes "rest"

  -- The message of the error.
  abbrev pub no_address : Text
  no_address = address_error (not_supported rest_protocol env.self_service_name)

  -- Only the source changes.
  named-only :
      (inv : Invocation) (o : Option Text)
      → (s : Text) × (named env inv o ≡ record inv { source_micro_service = s })
  named-only inv none = (inv.source_micro_service, refl)
  named-only inv (some name) = (name, refl)

  with_source-only :
      (inv : Invocation) (remote_addr : Text)
      → (s : Text) × (with_source env inv remote_addr ≡ record inv { source_micro_service = s })
  with_source-only inv remote_addr =
      if-cases (λ (i : Invocation). (s : Text) × (i ≡ record inv { source_micro_service = s }))
        (is_empty inv.source_micro_service)
        (named env inv (env.resolve_source (env.split_first_sep remote_addr))) inv
        (λ _. named-only inv (env.resolve_source (env.split_first_sep remote_addr)))
        (λ _. (inv.source_micro_service, refl))

  no_local_address :
      (protocol service port : Text)
      → protocol ≡ rest_protocol
      → service ≡ env.self_service_name
      → lookup rest_protocol env.ports_map ≡ none
      → port ≡ []
      → set_local_service_address env.ports_map protocol service port
        ≡ ([], some (not_supported rest_protocol env.self_service_name))
  unfolding set_local_service_address
  no_local_address protocol service port p n m h =
      let empty : read_port env.ports_map rest_protocol ≡ [] =
        ap (λ (o : Option Text). elim o [ none ↦ [] | some v ↦ v ]) m in
      rw (p, n, h, empty)

  -- The handler behind the address.
  abbrev behind :
      Invocation → Chain → ResponseWriter → Text × Option AddressError → Go ResponseWriter
  behind inv chain w a =
      let ans = chain (record inv { endpoint = a.0; args = forwarded_host env inv.args }) in
      handle_request ans.0 ans.1 (address_answer env a.1 w) >>= λ h. ret h.1

  -- The chain selects an instance if it gets an empty endpoint, and gives this answer then.
  abbrev pub AnswersEmpty : Chain → ChainResponse → Type 0
  AnswersEmpty chain ir =
      (inv : Invocation)
      → inv.endpoint ≡ []
      → ((chain inv).1 ≡ some ir) × (is_empty (chain inv).0.endpoint ≡ false)

  module _ (chain : Chain) (ir : ChainResponse) (rsp : HttpResponse) (b : Text)
      (answers : AnswersEmpty chain ir) (no_error : ir.err ≡ none)
      (result : ir.result ≡ response (some rsp)) (body : rsp.body ≡ some b) where
    remote_answer-SentTwice :
        (inv : Invocation) (w : ResponseWriter)
        → inv.protocol ≡ rest_protocol
        → inv.micro_service_name ≡ env.self_service_name
        → lookup rest_protocol env.ports_map ≡ none
        → header_get inv.args.header (codes "X-Forwarded-Port") ≡ []
        → w.sent ≡ none
        → SentTwice no_address b w (remote_answer env inv (inr chain) w)
    remote_answer-SentTwice inv w p n m h f =
        let a =
          no_local_address inv.protocol inv.micro_service_name
            (header_get inv.args.header (codes "X-Forwarded-Port")) p n m h in
        let inv' = record inv { endpoint = []; args = forwarded_host env inv.args } in
        let w' = handle_error_response 502 (some no_address) w in
        let (given, selected) = answers inv' refl in
        subst (λ x. SentTwice no_address b w (behind inv chain w x)) (sym a)
          (subst
            (λ o. SentTwice no_address b w (handle_request (chain inv').0 o w' >>= λ h. ret h.1))
            (sym given)
            (copied-SentTwice (chain inv').0 ir rsp b no_address w no_error selected result body f))

  -- If the ports of the mesher have none for rest and the request names none, RemoteRequestHandler
  -- sends the status 502 with the message of the error, and calls the chain all the same, with an empty
  -- endpoint. If the chain then selects an instance and gives a response with a body, on a writer to
  -- which no status was sent, this body is written behind the message, and the metrics record the 502
  -- alone; the status and the header of the response are not sent.
  pub remote_request_handler-SentTwice :
      (r : HttpRequest) (chain : Chain) (ir : ChainResponse) (rsp : HttpResponse) (b : Text)
      (w : ResponseWriter)
      → env.get_chain env.provider chain_provider_incoming ≡ inr chain
      → AnswersEmpty chain ir
      → ir.err ≡ none
      → ir.result ≡ response (some rsp)
      → rsp.body ≡ some b
      → lookup rest_protocol env.ports_map ≡ none
      → header_get (prepare_request r).header (codes "X-Forwarded-Port") ≡ []
      → w.sent ≡ none
      → SentTwice no_address b w (remote_request_handler env r w)
  unfolding remote_request_handler provider_pre_handler pre_handler
  remote_request_handler-SentTwice r chain ir rsp b w c answers no_error result body m h f =
      let r' = prepare_request r in
      let hs = header_values r'.header r'.header in
      let inv = provider_pre_handler env r' in
      let (s, e) = with_source-only inv r'.remote_addr in
      let answer =
        remote_answer-SentTwice chain ir rsp b answers no_error result body
          (record inv { source_micro_service = s; context_headers = hs }) w refl refl m h f in
      subst
        (λ x. SentTwice no_address b w (
          remote_answer env (record (with_source env inv r'.remote_addr) { context_headers = hs }) x
            w))
        (sym c)
        (subst
          (λ (i : Invocation).
            SentTwice no_address b w
              (remote_answer env (record i { context_headers = hs }) (inr chain) w))
          (sym e) answer)
