-- ===== src/Proxy/Http/Answers.antt =====
-- When the answer to a chain's response panics.
use mesher.Prelude.{
  ℕ, [], ◌∷◌, ◌≡◌, refl, sym, ap, ◌∙◌, Bool, true, false, Option, none, some, ◌⊎◌, inl, inr,
  if-cases,
}
use mesher.Prelude.Text.{Text, is_empty}
use mesher.Prelude.Go.{Go, ret, panic, ◌>>=◌}
use mesher.Proxy.{
  Header, write, write_header, write_any_header, takes, valid_code, record_status, copy_header,
  err_unknown, err_nil_response, err_un_expected_handler_chain_response, ResponseWriter,
  HttpResponse, Reply, no_reply, other_reply, response, ErrorKind, ChainError, ChainResponse,
  Invocation, fallback_null_error, lb_error, circuit_error, fault_error, other_error,
}
use mesher.Proxy.Http.{
  copy_chassis_resp2_http_resp, raw_error, chain_error, handle_result, handle_response,
  handle_request, Handled, handle_error_response, post_process_response, raw_response, type_error,
  copy_body, handle_any_error_response,
}

-- A response without a body, or with a code that WriteHeader does not take.
abbrev pub Uncopyable : HttpResponse → Type 0
Uncopyable rsp = (valid_code rsp.status_code ≡ false) ⊎ (rsp.body ≡ none)

-- A result that is a nil response, or a response that cannot be copied.
abbrev pub ResultPanics : Reply → Type 0
ResultPanics no_reply = ⊥
ResultPanics other_reply = ⊥
ResultPanics (response none) = Unit {0}
ResultPanics (response (some rsp)) = Uncopyable rsp

-- A response with a body and with a code that WriteHeader does not take.
abbrev pub RawPanics : Reply → Type 0
RawPanics no_reply = ⊥
RawPanics other_reply = ⊥
RawPanics (response none) = ⊥
RawPanics (response (some rsp)) =
    (valid_code rsp.status_code ≡ false) × ((b : Text) × (rsp.body ≡ some b))

-- An injected fault with such a code, or an error that is none of mesher's with such a response.
abbrev pub ErrorPanics : ErrorKind → ℕ → Reply → Type 0
ErrorPanics fallback_null_error status reply = ⊥
ErrorPanics lb_error status reply = ⊥
ErrorPanics circuit_error status reply = ⊥
ErrorPanics fault_error status reply = valid_code status ≡ false
ErrorPanics other_error status reply = RawPanics reply

abbrev pub ResponsePanics : Option ChainError → Invocation → ChainResponse → Type 0
ResponsePanics (some e) inv ir = ErrorPanics e.kind ir.status inv.reply
ResponsePanics none inv ir = (is_empty inv.endpoint ≡ false) × ResultPanics ir.result

abbrev pub AnswerPanics : Invocation → Option ChainResponse → Type 0
AnswerPanics inv none = ⊥
AnswerPanics inv (some ir) = ResponsePanics ir.err inv ir

-- Nothing was sent and nothing was recorded.
pub record IsFresh (w : ResponseWriter) : Type 0 where
  pub not_sent : w.sent ≡ none
  pub not_recorded : w.recorded ≡ []

-- The status was sent, and nothing was recorded.
pub record IsSent (status : ℕ) (w : ResponseWriter) : Type 0 where
  pub sent_header : Header
  pub is_sent : w.sent ≡ some (status, sent_header)
  pub not_recorded : w.recorded ≡ []

-- One status was sent, and the same one was recorded, once.
pub record IsAnswered (w : ResponseWriter) : Type 0 where
  pub status : ℕ
  pub sent_header : Header
  pub is_sent : w.sent ≡ some (status, sent_header)
  pub is_recorded : w.recorded ≡ status ∷ []

pub handle_error_response-IsAnswered :
    (status : ℕ) (message : Option Text) (w : ResponseWriter)
    → IsFresh w
    → IsAnswered (handle_error_response status message w)
unfolding handle_error_response write write_header record_status
handle_error_response-IsAnswered status none w f = record {
  status = status;
  sent_header = w.header;
  is_sent = rw f.not_sent;
  is_recorded = rw f.not_recorded;
}
handle_error_response-IsAnswered status (some m) w f = record {
  status = status;
  sent_header = w.header;
  is_sent = rw f.not_sent;
  is_recorded = rw f.not_recorded;
}

not_both : {b : Bool} → b ≡ true → b ≡ false → ⊥
not_both e n = cc

not_none : {b : Text} → none ≡ some b → ⊥
not_none e = cc

-- A call that panics in the given case, and only then, and answers else.
abbrev pub AnsweredUnless : Type 0 → Go ResponseWriter → Type 0
AnsweredUnless P (ret w) = (P → ⊥) × IsAnswered w
AnsweredUnless P panic = P

takes-valid :
    (status : ℕ) (w : ResponseWriter) → w.sent ≡ none → takes w.sent status ≡ valid_code status
takes-valid status w e = ap (λ s. takes s status) e

handle_any_error_response-AnsweredUnless :
    (status : ℕ) (message : Option Text) (w : ResponseWriter)
    → IsFresh w
    → AnsweredUnless (valid_code status ≡ false) (handle_any_error_response status message w)
unfolding handle_any_error_response
handle_any_error_response-AnsweredUnless status message w f =
    let valid = takes-valid status w f.not_sent in
    if-cases (AnsweredUnless (valid_code status ≡ false)) (takes w.sent status)
      (ret (handle_error_response status message w)) panic
      (λ e. (not_both (sym valid ∙ e), handle_error_response-IsAnswered status message w f))
      (λ n. sym valid ∙ n)

-- A response with a valid code and a body is copied.
abbrev pub IsCopied : HttpResponse → Go ResponseWriter → Type 0
IsCopied rsp (ret w) = (Uncopyable rsp → ⊥) × IsSent rsp.status_code w
IsCopied rsp panic = Uncopyable rsp

copyable :
    (rsp : HttpResponse) (b : Text)
    → valid_code rsp.status_code ≡ true
    → rsp.body ≡ some b
    → Uncopyable rsp
    → ⊥
copyable rsp b v e (inl n) = not_both v n
copyable rsp b v e (inr n) = not_none (sym n ∙ e)

copy_body-IsCopied :
    (rsp : HttpResponse) (w : ResponseWriter) (o : Option Text)
    → valid_code rsp.status_code ≡ true
    → rsp.body ≡ o
    → IsSent rsp.status_code w
    → IsCopied rsp (copy_body o w)
unfolding write write_header
copy_body-IsCopied rsp w none v e s = inr e
copy_body-IsCopied rsp w (some b) v e s = (
  copyable rsp b v e,
  record { sent_header = s.sent_header; is_sent = rw s.is_sent; not_recorded = s.not_recorded },
)

copy-IsCopied :
    (rsp : HttpResponse) (w : ResponseWriter)
    → IsFresh w
    → IsCopied rsp (copy_chassis_resp2_http_resp (some rsp) w)
unfolding copy_chassis_resp2_http_resp write_any_header write_header
copy-IsCopied rsp w f =
    let rsp' = post_process_response rsp in
    let h = copy_header w.header rsp'.header in
    let w' = record w { header = h } in
    let valid = takes-valid rsp.status_code w f.not_sent in
    if-cases (λ g. IsCopied rsp (g >>= λ w''. copy_body rsp.body w''))
      (takes w.sent rsp.status_code) (ret (write_header rsp.status_code w')) panic
      (λ e.
        copy_body-IsCopied rsp (write_header rsp.status_code w') rsp.body (sym valid ∙ e) refl
          (record { sent_header = h; is_sent = rw f.not_sent; not_recorded = f.not_recorded }))
      (λ n. inl (sym valid ∙ n))

recorded-AnsweredUnless :
    (rsp : HttpResponse) (b : Text) (g : Go ResponseWriter)
    → rsp.body ≡ some b
    → IsCopied rsp g
    → AnsweredUnless
        ((valid_code rsp.status_code ≡ false) × ((b : Text) × (rsp.body ≡ some b)))
        (g >>= λ w. ret (record_status rsp.status_code w))
unfolding record_status
recorded-AnsweredUnless rsp b (ret w) e (n, s) = (
  λ (v, x). n (inl v),
  record {
    status = rsp.status_code;
    sent_header = s.sent_header;
    is_sent = s.is_sent;
    is_recorded = rw s.not_recorded;
  },
)
recorded-AnsweredUnless rsp b panic e (inl v) = (v, (b, e))
recorded-AnsweredUnless rsp b panic e (inr n) = absurd (not_none (sym n ∙ e))

raw_response-AnsweredUnless :
    (message : Text) (rsp : HttpResponse) (o : Option Text) (w : ResponseWriter)
    → rsp.body ≡ o
    → IsFresh w
    → AnsweredUnless (RawPanics (response (some rsp))) (raw_response message rsp o w)
raw_response-AnsweredUnless message rsp none w e f =
    (λ (v, (b, n)). not_none (sym e ∙ n), handle_error_response-IsAnswered 502 (some message) w f)
raw_response-AnsweredUnless message rsp (some b) w e f =
    recorded-AnsweredUnless rsp b (copy_chassis_resp2_http_resp (some rsp) w) e
      (copy-IsCopied rsp w f)

-- An answer without a case in which it panics.
always :
    (status : ℕ) (message : Option Text) (w : ResponseWriter)
    → IsFresh w
    → AnsweredUnless ⊥ (ret (handle_error_response status message w))
always status message w f = (λ x. x, handle_error_response-IsAnswered status message w f)

raw_error-AnsweredUnless :
    (message : Text) (reply : Reply) (w : ResponseWriter)
    → IsFresh w
    → AnsweredUnless (RawPanics reply) (raw_error message reply w)
raw_error-AnsweredUnless message no_reply w f = always 500 (some message) w f
raw_error-AnsweredUnless message other_reply w f = always 500 (some message) w f
raw_error-AnsweredUnless message (response none) w f = always 502 (some message) w f
raw_error-AnsweredUnless message (response (some rsp)) w f =
    raw_response-AnsweredUnless message rsp rsp.body w refl f

chain_error-AnsweredUnless :
    (kind : ErrorKind) (message : Text) (status : ℕ) (reply : Reply) (w : ResponseWriter)
    → IsFresh w
    → AnsweredUnless (ErrorPanics kind status reply) (chain_error kind message status reply w)
chain_error-AnsweredUnless fallback_null_error message status reply w f = always 200 none w f
chain_error-AnsweredUnless lb_error message status reply w f = always 502 (some message) w f
chain_error-AnsweredUnless circuit_error message status reply w f = always 503 (some message) w f
chain_error-AnsweredUnless fault_error message status reply w f =
    handle_any_error_response-AnsweredUnless status (some message) w f
chain_error-AnsweredUnless other_error message status reply w f =
    raw_error-AnsweredUnless message reply w f

-- What handleRequest leaves: after an error, one answer; else the status of the response is sent, and
-- the caller is to record it.
abbrev pub IsHandled : Handled → Type 0
IsHandled (inl message, w) = IsAnswered w
IsHandled (inr none, w) = ⊥
IsHandled (inr (some rsp), w) = IsSent rsp.status_code w

-- A panic happens in the given case, and only then.
abbrev pub PanicsIf : Type 0 → Go Handled → Type 0
PanicsIf P (ret h) = (P → ⊥) × IsHandled h
PanicsIf P panic = P

failed-PanicsIf :
    (P : Type 0) (message : Text) (g : Go ResponseWriter)
    → AnsweredUnless P g
    → PanicsIf P (g >>= λ w. ret (inl message, w))
failed-PanicsIf P message (ret w) a = a
failed-PanicsIf P message panic a = a

copied-PanicsIf :
    (rsp : HttpResponse) (g : Go ResponseWriter)
    → IsCopied rsp g
    → PanicsIf (Uncopyable rsp) (g >>= λ w. ret (inr (some rsp), w))
copied-PanicsIf rsp (ret w) c = c
copied-PanicsIf rsp panic c = c

handle_result-PanicsIf :
    (result : Reply) (w : ResponseWriter)
    → IsFresh w
    → PanicsIf (ResultPanics result) (handle_result result w)
unfolding copy_chassis_resp2_http_resp
handle_result-PanicsIf no_reply w f =
    (λ x. x, handle_error_response-IsAnswered 502 (some err_nil_response) w f)
handle_result-PanicsIf other_reply w f =
    (λ x. x, handle_error_response-IsAnswered 502 (some type_error) w f)
handle_result-PanicsIf (response none) w f = tt
handle_result-PanicsIf (response (some rsp)) w f =
    copied-PanicsIf rsp (copy_chassis_resp2_http_resp (some rsp) w) (copy-IsCopied rsp w f)

-- With a case that another condition rules out.
PanicsIf-and : (P Q : Type 0) (g : Go Handled) → Q → PanicsIf P g → PanicsIf (Q × P) g
PanicsIf-and P Q (ret h) q (n, i) = (λ (q', p). n p, i)
PanicsIf-and P Q panic q p = (q, p)

handle_response-PanicsIf :
    (inv : Invocation) (ir : ChainResponse) (o : Option ChainError) (w : ResponseWriter)
    → IsFresh w
    → PanicsIf (ResponsePanics o inv ir) (handle_response inv ir o w)
handle_response-PanicsIf inv ir (some e) w f =
    failed-PanicsIf (ErrorPanics e.kind ir.status inv.reply) e.message
      (chain_error e.kind e.message ir.status inv.reply w)
      (chain_error-AnsweredUnless e.kind e.message ir.status inv.reply w f)
handle_response-PanicsIf inv ir none w f =
    if-cases (PanicsIf (ResponsePanics none inv ir)) (is_empty inv.endpoint)
      (ret (inl err_unknown, handle_error_response 502 (some err_unknown) w))
      (handle_result ir.result w)
      (λ e. (λ (n, p). not_both e n, handle_error_response-IsAnswered 502 (some err_unknown) w f))
      (λ e.
        PanicsIf-and (ResultPanics ir.result) (is_empty inv.endpoint ≡ false)
          (handle_result ir.result w) e (handle_result-PanicsIf ir.result w f))

-- On a fresh writer handleRequest panics exactly in these cases: the chain reports no error and, after
-- an instance was selected, gives a nil response, one without a body, or one with a code outside 100 to
-- 999; it reports an injected fault with such a code; or it reports an error that is none of mesher's and
-- the invocation has a response with a body and such a code. Else it answers once: after an error one
-- status is sent and recorded, and without one the status of the response is sent.
pub handle_request-PanicsIf :
    (inv : Invocation) (ir : Option ChainResponse) (w : ResponseWriter)
    → IsFresh w
    → PanicsIf (AnswerPanics inv ir) (handle_request inv ir w)
unfolding handle_request
handle_request-PanicsIf inv none w f =
    (λ x. x, handle_error_response-IsAnswered 502 (some err_un_expected_handler_chain_response) w f)
handle_request-PanicsIf inv (some ir) w f = handle_response-PanicsIf inv ir ir.err w f
