-- ===== src/Proxy/Http/Transparent.antt =====
-- The HTTP proxy hands on what the service answered.
use mesher.Prelude.{
  ◌≡◌, refl, ap, ◌∙◌, [], none, some, true, false, inr, Bool-cases, inl, if◌then◌else◌,
}
use mesher.Prelude.Text.{Text, codes, lookup, erase, text_eq, lookup-erase, is_empty}
use mesher.Prelude.Maps.{IsMap}
use mesher.Prelude.Go.{ret}
use mesher.Prelude.Strings.{canonical_header_key, canonical}
use mesher.Proxy.{
  Header, all_values, header_del, copy_header, ResponseWriter, write, write_header,
  write_any_header, valid_code, body_allowed, HttpResponse, response, ChainResponse, Invocation,
}
use mesher.Proxy.Headers.{values, IsCanonical, values-copy_header, erase-IsMap, erase-IsCanonical}
use mesher.Proxy.Http.{handle_request, copy_chassis_resp2_http_resp}

abbrev pub connection : Text
connection = codes "Connection"

header_del-connection : (h : Header) → header_del h connection ≡ erase connection h
unfolding header_del canonical_header_key canonical
header_del-connection h = refl

values-without :
    (h : Header) (k : Text)
    → values k (erase connection h) ≡ (if text_eq connection k then [] else values k h)
values-without h k = elim (Bool-cases (text_eq connection k)) [
  | inl same ↦ ap all_values (lookup-erase connection k h) ∙ (rw same)
  | inr other ↦ ap all_values (lookup-erase connection k h) ∙ (rw other)
]

values-copied :
    (h : Header) (k : Text)
    → IsMap h
    → IsCanonical h
    → values k (copy_header [] (header_del h connection))
      ≡ (if text_eq connection k then [] else values k h)
unfolding lookup
values-copied h k m c =
    ap (λ x. values k (copy_header [] x)) (header_del-connection h)
    ∙ values-copy_header [] (erase connection h) k (erase-IsMap connection h m)
        (erase-IsCanonical connection h c)
    ∙ values-without h k

-- If the chain reports no error and gives a response with a body, after an instance was selected, then
-- on a writer with an empty header to which nothing was written, at a code from 100 to 999, the client
-- gets the status of the response, its body if the status allows one and else none, and for each key of
-- the header the same values, but none for Connection.
pub handle_request-transparent :
    (inv : Invocation) (ir : ChainResponse) (rsp : HttpResponse) (b : Text) (w : ResponseWriter)
    → ir.err ≡ none
    → is_empty inv.endpoint ≡ false
    → ir.result ≡ response (some rsp)
    → rsp.body ≡ some b
    → valid_code rsp.status_code ≡ true
    → IsMap rsp.header
    → IsCanonical rsp.header
    → w.sent ≡ none
    → w.header ≡ []
    → w.body ≡ []
    → (w' : ResponseWriter) × (h : Header) × (handle_request inv (some ir) w
        ≡ ret (inr (some rsp), w'))
      × (w'.sent ≡ some (rsp.status_code, h))
      × (w'.body ≡ (if body_allowed rsp.status_code then b else []))
      × ((k : Text) → values k h ≡ (if text_eq connection k then [] else values k rsp.header))
unfolding handle_request copy_chassis_resp2_http_resp write_any_header
handle_request-transparent inv ir rsp b w no_error selected result body valid m c fresh empty
      nothing =
    let h = copy_header [] (header_del rsp.header connection) in
    let w' = write b (write_header rsp.status_code (record w { header = h })) in
    (
      w',
      h,
      rw (no_error, selected, result, body, empty, fresh, valid) refl,
      unfold write write_header in rw fresh,
      unfold write write_header in rw (nothing, fresh) refl,
      λ k. values-copied rsp.header k m c,
    )
