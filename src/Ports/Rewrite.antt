-- ===== src/Ports/Rewrite.antt =====
-- When the handler goes on, and with which endpoint.
use mesher.Prelude.{◌≡◌, ◌↔◌, refl, sym, ap, ◌∙◌, List, [], ◌∷◌, ◌++◌, false, arith}
use mesher.Prelude.Text.{Text, Table}
use mesher.Prelude.Split.{split, join, has_byte, split_pair}
use mesher.Ports.{colon, get_fixed_port, replaced, replace_port, next, outcome, handle}

next-outcome :
    (port : Text) (eps : List Text) (e : Text)
    → outcome (replaced port eps) ≡ next e
    → (host : Text) × (old : Text) × (eps ≡ host ∷ old ∷ []) × (e ≡ host ++ (colon ∷ port))
unfolding replaced join outcome
next-outcome port [] e h = cc
next-outcome port (host ∷ []) e h = cc
next-outcome port ([] ∷ old ∷ []) e h = ([], old, refl, ground arith)
next-outcome port ((c ∷ host) ∷ old ∷ []) e h = (c ∷ host, old, refl, ground arith)
next-outcome port (host ∷ old ∷ x ∷ l) e h = cc

outcome-next :
    (port host old : Text)
    → outcome (replaced port (host ∷ old ∷ [])) ≡ next (host ++ (colon ∷ port))
unfolding replaced join outcome
outcome-next port [] old = refl
outcome-next port (c ∷ host) old = refl

-- The handler goes on exactly if the endpoint is a host and a port with one colon between them, and
-- then with the host and the fixed port of the protocol.
handle-next_iff :
    (ports : Table Text) (protocol endpoint e : Text)
    → (handle ports protocol endpoint ≡ next e) ↔ (
        (host : Text) × (old : Text) × (endpoint ≡ host ++ (colon ∷ old))
        × (has_byte colon host ≡ false)
        × (has_byte colon old ≡ false)
        × (e ≡ host ++ (colon ∷ get_fixed_port ports protocol)))
unfolding handle replace_port
handle-next_iff ports protocol endpoint e =
    let port = get_fixed_port ports protocol in
    (
      λ h.
          let (host, old, pieces, done) = next-outcome port (split colon endpoint) e h in
          let (whole, ha, hb) = (split_pair colon endpoint host old).0 pieces in
          (host, old, whole, ha, hb, done),
      λ (host, old, whole, ha, hb, done).
          ap (λ (eps : List Text). outcome (replaced port eps))
            ((split_pair colon endpoint host old).1 (whole, ha, hb))
          ∙ outcome-next port host old
          ∙ ap next (sym done),
    )
