-- ===== src/Proxy/Grpc/Status.antt =====
-- What the gRPC proxy sends and records.
use mesher.Prelude.{
  ℕ, ◌≡◌, refl, sym, ap, ◌∙◌, List, [], ◌∷◌, ◌++◌, Option, none, some, true, false, inl, inr, ◌==◌,
  if-cases, ◌⊎◌, arith, if◌then◌else◌, Bool,
}
use mesher.Prelude.Text.{Text, codes, lookup, text_eq, lookup-insert, is_empty}
use mesher.Prelude.Go.{Go, ret, panic, ◌>>=◌}
use mesher.Prelude.Strings.{canonical_header_key, canonical, sprint_d}
use mesher.Proxy.{
  Header, header_set, ResponseWriter, write, write_header, write_any_header, valid_code,
  body_allowed, takes, record_status, HttpRequest, HttpResponse, Reply, no_reply, other_reply,
  response, ChainError, ChainResponse, Invocation, err_unknown, err_nil_response,
  err_un_expected_handler_chain_response,
}
use mesher.Proxy.Grpc.{
  Stat, unknown, with_message, write_error_response, copy_header, copy_body,
  copy_chassis_resp2_http_resp, Handled, type_error, handle_result, chain_stat, handle_response,
  handle_request,
}
use mesher.Proxy

abbrev pub grpc_status : Text
grpc_status = codes "Grpc-Status"

abbrev pub grpc_message : Text
grpc_message = codes "Grpc-Message"

-- The code was put into the header, with the message if there is one, and recorded; nothing was sent.
pub record IsReported (s : Stat) (w w' : ResponseWriter) : Type 0 where
  pub code_in_header : lookup grpc_status w'.header ≡ some (sprint_d s.0 ∷ [])
  pub message_in_header :
      lookup grpc_message w'.header
      ≡ (if is_empty s.1 then lookup grpc_message w.header else some (s.1 ∷ []))
  pub same_sent : w'.sent ≡ w.sent
  pub same_body : w'.body ≡ w.body
  pub is_recorded : w'.recorded ≡ w.recorded ++ (s.0 ∷ [])

with_message-status :
    (m : Text) (h : Header) (v : Option (List Text))
    → lookup grpc_status h ≡ v
    → lookup grpc_status (with_message m h) ≡ v
unfolding header_set canonical_header_key canonical text_eq
with_message-status m h v e =
    if-cases (λ (x : Header). lookup grpc_status x ≡ v) (is_empty m) h (header_set h grpc_message m)
      (λ _. e) (λ _. lookup-insert grpc_message grpc_status (m ∷ []) h ∙ e)

with_message-message :
    (b : Bool) (m : Text) (h : Header) (v : Option (List Text))
    → lookup grpc_message h ≡ v
    → lookup grpc_message (if b then h else header_set h grpc_message m)
      ≡ (if b then v else some (m ∷ []))
unfolding header_set canonical_header_key canonical text_eq
with_message-message true m h v e = e
with_message-message false m h v e = lookup-insert grpc_message grpc_message (m ∷ []) h

pub write_error_response-IsReported :
    (r : HttpRequest) (s : Stat) (w : ResponseWriter) → IsReported s w (write_error_response r s w)
unfolding write_error_response header_set canonical_header_key canonical record_status text_eq
write_error_response-IsReported r (code, message) w = record {
  code_in_header =
      with_message-status message _ (some (sprint_d code ∷ []))
        (lookup-insert grpc_status grpc_status (sprint_d code ∷ []) _);
  message_in_header =
      with_message-message (is_empty message) message _ (lookup grpc_message w.header) (
        lookup-insert grpc_status grpc_message (sprint_d code ∷ []) _
        ∙ lookup-insert (codes "User-Agent") grpc_message _ _
        ∙ lookup-insert (codes "Content-Type") grpc_message _ w.header);
  same_sent = refl;
  same_body = refl;
  is_recorded = refl;
}

-- What a key of the header has after the copy: the three fields of gRPC say that the call succeeded.
abbrev pub copied_value : Header → Header → Text → Option (List Text)
copied_value dst src k =
    if text_eq grpc_message k
    then some ([] ∷ [])
    else (if text_eq grpc_status k
        then some (codes "0" ∷ [])
        else (if text_eq (codes "Trailer") k
            then some (codes "Grpc-Status, Grpc-Message" ∷ [])
            else lookup k (mesher.Proxy.copy_header dst src)))

-- The status, the header and the body of the response were sent, and nothing was recorded.
pub record IsCopied (rsp : HttpResponse) (b : Text) (w w' : ResponseWriter) : Type 0 where
  pub sent_header : Header
  pub is_sent : w'.sent ≡ some (rsp.status_code, sent_header)
  pub header_is : (k : Text) → lookup k sent_header ≡ copied_value w.header rsp.header k
  pub body_is : w'.body ≡ w.body ++ (if body_allowed rsp.status_code then b else [])
  pub same_recorded : w'.recorded ≡ w.recorded

copy_header-lookup :
    (dst src : Header) (k : Text) → lookup k (copy_header dst src) ≡ copied_value dst src k
unfolding copy_header header_set canonical_header_key canonical
copy_header-lookup dst src k =
    lookup-insert grpc_message k ([] ∷ []) _
    ∙ ap (λ x. if text_eq grpc_message k then some ([] ∷ []) else x)
        (lookup-insert grpc_status k (codes "0" ∷ []) _
          ∙ ap (λ x. if text_eq grpc_status k then some (codes "0" ∷ []) else x)
              (lookup-insert (codes "Trailer") k (codes "Grpc-Status, Grpc-Message" ∷ []) _))

-- The response has a code that WriteHeader does not take, or no body.
abbrev pub Uncopyable : HttpResponse → Type 0
Uncopyable rsp = (valid_code rsp.status_code ≡ false) ⊎ (rsp.body ≡ none)

-- Nothing happens for a response without a status; another is copied or panics.
abbrev pub Copies : HttpResponse → ResponseWriter → Go ResponseWriter → Type 0
Copies rsp w (ret w') =
    ((rsp.status_code ≡ 0) × (w' ≡ w))
    ⊎ ((b : Text) × (rsp.body ≡ some b) × (valid_code rsp.status_code ≡ true) × IsCopied rsp b w w')
Copies rsp w panic = ((rsp.status_code == 0) ≡ false) × Uncopyable rsp

==_zero : (n : ℕ) → (n == 0) ≡ true → n ≡ 0
==_zero n e = ground arith

copied-Copies :
    (rsp : HttpResponse) (w : ResponseWriter) (o : Option Text)
    → w.sent ≡ none
    → valid_code rsp.status_code ≡ true
    → rsp.body ≡ o
    → (rsp.status_code == 0) ≡ false
    → Copies rsp w (
        copy_body o
          (write_header rsp.status_code (record w { header = copy_header w.header rsp.header })))
unfolding write write_header
copied-Copies rsp w none f v e n = (n, inr e)
copied-Copies rsp w (some b) f v e n = inr (
  b,
  e,
  v,
  record {
    sent_header = copy_header w.header rsp.header;
    is_sent = rw f refl;
    header_is = copy_header-lookup w.header rsp.header;
    body_is = rw f refl;
    same_recorded = refl;
  },
)

copy-Copies :
    (rsp : HttpResponse) (w : ResponseWriter)
    → w.sent ≡ none
    → Copies rsp w (copy_chassis_resp2_http_resp (some rsp) w)
unfolding copy_chassis_resp2_http_resp write_any_header
copy-Copies rsp w f =
    let w' = record w { header = copy_header w.header rsp.header } in
    let valid : takes w.sent rsp.status_code ≡ valid_code rsp.status_code =
      ap (λ s. takes s rsp.status_code) f in
    if-cases (Copies rsp w) (rsp.status_code == 0) (ret w)
      (write_any_header rsp.status_code w' >>= λ w''. copy_body rsp.body w'')
      (λ z. inl (==_zero rsp.status_code z, refl))
      λ n.
        if-cases (λ g. Copies rsp w (g >>= λ w''. copy_body rsp.body w''))
          (takes w.sent rsp.status_code) (ret (write_header rsp.status_code w')) panic
          (λ e. copied-Copies rsp w rsp.body f (sym valid ∙ e) refl n)
          (λ e. (n, inl (sym valid ∙ e)))

module _ (from_error : ChainError → Option Stat) where
  -- What handleRequest does by what the chain answers: the error that it returns with the status of
  -- gRPC that is reported for it, or the response.
  pub data Outcome (inv : Invocation) (w : ResponseWriter)
      : Option ChainResponse → Go Handled → Type 0 where
    no_answer :
        (w' : ResponseWriter)
        → IsReported (2, err_un_expected_handler_chain_response) w w'
        → Outcome inv w none (ret (inl err_un_expected_handler_chain_response, w'))
    chain_failed :
        (ir : ChainResponse) (e : ChainError) (w' : ResponseWriter)
        → ir.err ≡ some e
        → IsReported (chain_stat from_error e) w w'
        → Outcome inv w (some ir) (ret (inl e.message, w'))
    not_selected :
        (ir : ChainResponse) (w' : ResponseWriter)
        → ir.err ≡ none
        → is_empty inv.endpoint ≡ true
        → IsReported (2, err_unknown) w w'
        → Outcome inv w (some ir) (ret (inl err_unknown, w'))
    no_result :
        (ir : ChainResponse) (w' : ResponseWriter)
        → ir.err ≡ none
        → is_empty inv.endpoint ≡ false
        → ir.result ≡ no_reply
        → IsReported (2, err_nil_response) w w'
        → Outcome inv w (some ir) (ret (inl err_unknown, w'))
    other_result :
        (ir : ChainResponse) (w' : ResponseWriter)
        → ir.err ≡ none
        → is_empty inv.endpoint ≡ false
        → ir.result ≡ other_reply
        → IsReported (2, type_error) w w'
        → Outcome inv w (some ir) (ret (inl type_error, w'))
    nil_response :
        (ir : ChainResponse)
        → ir.err ≡ none
        → is_empty inv.endpoint ≡ false
        → ir.result ≡ response none
        → Outcome inv w (some ir) (ret (inr none, w))
    given :
        (ir : ChainResponse) (rsp : HttpResponse) (w' : ResponseWriter)
        → ir.err ≡ none
        → is_empty inv.endpoint ≡ false
        → ir.result ≡ response (some rsp)
        → Copies rsp w (ret w')
        → Outcome inv w (some ir) (ret (inr (some rsp), w'))
    panics :
        (ir : ChainResponse) (rsp : HttpResponse)
        → ir.err ≡ none
        → is_empty inv.endpoint ≡ false
        → ir.result ≡ response (some rsp)
        → Copies rsp w panic
        → Outcome inv w (some ir) panic

  given-Outcome :
      (inv : Invocation) (ir : ChainResponse) (rsp : HttpResponse) (w : ResponseWriter)
      (g : Go ResponseWriter)
      → ir.err ≡ none
      → is_empty inv.endpoint ≡ false
      → ir.result ≡ response (some rsp)
      → Copies rsp w g
      → Outcome inv w (some ir) (g >>= λ w'. ret (inr (some rsp), w'))
  given-Outcome inv ir rsp w (ret w') e n f c = given ir rsp w' e n f c
  given-Outcome inv ir rsp w panic e n f c = panics ir rsp e n f c

  handle_result-Outcome :
      (r : HttpRequest) (inv : Invocation) (ir : ChainResponse) (result : Reply)
      (w : ResponseWriter)
      → w.sent ≡ none
      → ir.err ≡ none
      → is_empty inv.endpoint ≡ false
      → ir.result ≡ result
      → Outcome inv w (some ir) (handle_result r result w)
  handle_result-Outcome r inv ir no_reply w s e n f =
      no_result ir _ e n f (write_error_response-IsReported r (unknown err_nil_response) w)
  handle_result-Outcome r inv ir other_reply w s e n f =
      other_result ir _ e n f (write_error_response-IsReported r (unknown type_error) w)
  handle_result-Outcome r inv ir (response none) w s e n f =
      unfold copy_chassis_resp2_http_resp in nil_response ir e n f
  handle_result-Outcome r inv ir (response (some rsp)) w s e n f =
      given-Outcome inv ir rsp w (copy_chassis_resp2_http_resp (some rsp) w) e n f
        (copy-Copies rsp w s)

  handle_response-Outcome :
      (r : HttpRequest) (inv : Invocation) (ir : ChainResponse) (o : Option ChainError)
      (w : ResponseWriter)
      → w.sent ≡ none
      → ir.err ≡ o
      → Outcome inv w (some ir) (handle_response from_error r inv ir o w)
  handle_response-Outcome r inv ir (some e) w s f =
      chain_failed ir e _ f (write_error_response-IsReported r (chain_stat from_error e) w)
  handle_response-Outcome r inv ir none w s f =
      if-cases (Outcome inv w (some ir)) (is_empty inv.endpoint)
        (ret (inl err_unknown, write_error_response r (unknown err_unknown) w))
        (handle_result r ir.result w)
        (λ n. not_selected ir _ f n (write_error_response-IsReported r (unknown err_unknown) w))
        (λ n. handle_result-Outcome r inv ir ir.result w s f n refl)

  -- On a writer to which nothing was sent, handleRequest of the gRPC proxy reports each error as a
  -- status of gRPC in the header, recorded once, with nothing sent: the code Unknown with its message for
  -- an error of its own, and for an error of the chain the status that it has, or Unknown with its
  -- message. It copies a response with a code from 100 to 999 and a body: the code is sent with the
  -- header of the response, in which the fields of gRPC say that the call succeeded whatever they said,
  -- and the body if the code allows one. It does nothing for a nil response and for one with the code 0.
  -- It panics only if the chain reports no error and the response has another code or no body. The chain's
  -- result counts only if an instance was selected, and else the error is Unknown.
  pub handle_request-Outcome :
      (r : HttpRequest) (inv : Invocation) (ir : Option ChainResponse) (w : ResponseWriter)
      → w.sent ≡ none
      → Outcome inv w ir (handle_request from_error r inv ir w)
  unfolding handle_request
  handle_request-Outcome r inv none w s =
      no_answer _
        (write_error_response-IsReported r (unknown err_un_expected_handler_chain_response) w)
  handle_request-Outcome r inv (some ir) w s = handle_response-Outcome r inv ir ir.err w s refl
