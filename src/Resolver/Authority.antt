-- ===== src/Resolver/Authority.antt =====
-- Which authorities the gRPC resolver accepts.
use mesher.Prelude.{◌≡◌, ◌↔◌, refl, ap, ◌∙◌, List, [], ◌∷◌, ◌++◌, none, false}
use mesher.Prelude.Text.{Text}
use mesher.Prelude.Split.{split, has_byte, split_pair}
use mesher.Resolver.{Resolved, authority_parts, resolve_authority}

parts-ok :
    (uri : Text) (ps : List Text) (old : Text)
    → (authority_parts uri ps old).err ≡ none
    → ps ≡ (authority_parts uri ps old).destination_name ∷ (authority_parts uri ps old).port ∷ []
unfolding authority_parts
parts-ok uri [] old h = cc
parts-ok uri (a ∷ []) old h = cc
parts-ok uri (a ∷ b ∷ []) old h = refl
parts-ok uri (a ∷ b ∷ c ∷ l) old h = cc

-- An authority resolves with no error exactly if it is a name and a port with one colon in it, and
-- then to that name and that port.
resolve_authority_iff :
    (uri old name port : Text)
    → (resolve_authority uri old ≡ record { port = port; err = none; destination_name = name }) ↔ (
        (uri ≡ name ++ (b':' ∷ port)) × (has_byte b':' name ≡ false) × (has_byte b':' port ≡ false))
unfolding resolve_authority
resolve_authority_iff uri old name port = (
  λ h. (split_pair b':' uri name port).0 (
      parts-ok uri (split b':' uri) old (ap (λ (r : Resolved). r.err) h)
      ∙ ap (λ (r : Resolved). r.destination_name ∷ r.port ∷ []) h),
  λ e. ap (λ (ps : List Text). authority_parts uri ps old) ((split_pair b':' uri name port).1 e),
)
