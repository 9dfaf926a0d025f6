-- ===== src/Proxy/Dubbo/Numbers.antt =====
-- A number in the query of a REST request for a dubbo service.
use mesher.Prelude.{
  ℕ, suc, ◌*◌, ◌+◌, ◌<◌, ◌≡◌, refl, ap, ◌∙◌, List, [], ◌∷◌, ◌++◌, some, ◌⊎◌, inl, inr, zero, true,
  false, arith, length,
}
use mesher.Prelude.Text.{Text, codes, lookup, text_eq}
use mesher.Prelude.Strings.{equal_fold}
use mesher.Prelude.Go.{Go, ret, panic, ◌>>=◌, >>=-eq-ret}
use mesher.Wire.Object.{Object}
use mesher.Message.{Argument}
use mesher.TypeUtil.Values.{java_integer, big_endian, rest_byte_to_value}
use mesher.Schema.{MethParam}
use mesher.Proxy.Dubbo.FromRest.{
  RestCall, after_first, get_jvm_type, first_of, param_bytes, param_argument, then_more,
  param_arguments, slashes,
}

big_endian-short : (n acc : ℕ) (b : List ℕ) → length b < n → big_endian n acc b ≡ panic
unfolding big_endian
big_endian-short zero acc b h = absurd (omega arith)
big_endian-short (suc n) acc [] h = refl
big_endian-short (suc n) acc (x ∷ b) h = big_endian-short n (acc * 256 + x) b (omega arith)

bind-panic : {A B : Type 0} (m : Go A) (f : A → Go B) → m ≡ panic → (m >>= f) ≡ panic
bind-panic m f e = ap (λ g. g >>= f) e

-- A parameter that the contract calls an integer, with a text of less than four bytes in the query.
unfoldable pub IsShortInteger : RestCall → MethParam → Type 0
IsShortInteger r v =
    (v.dtype ≡ codes "integer")
    × (equal_fold v.place (codes "query") ≡ true)
    × (length (first_of (r.query v.name)) < 4)

integer_jvm_type :
    (v : MethParam) (old : Text)
    → v.dtype ≡ codes "integer"
    → get_jvm_type v old ≡ (java_integer, [], false)
unfolding get_jvm_type slashes lookup text_eq
integer_jvm_type v old e = rw e refl

after_first-inv :
    (a : Argument) (o : Text ⊎ List Argument) (as_ : List Argument)
    → ret (after_first a o) ≡ ret (inr as_)
    → (bs : List Argument) × (o ≡ inr bs)
after_first-inv a (inl message) as_ h = cc
after_first-inv a (inr bs) as_ h = (bs, refl)

-- A loop that gives arguments panics if what follows each argument does.
module _ (k l : Text → Go (Text ⊎ List Argument))
    (panics : (t : Text) (bs : List Argument) → k t ≡ ret (inr bs) → l t ≡ panic) where
  then_more-panics :
      (o : Text ⊎ Argument) (as_ : List Argument)
      → then_more o k ≡ ret (inr as_)
      → then_more o l ≡ panic
  then_more-panics (inl message) as_ h = cc
  then_more-panics (inr a) as_ h =
      let (o, found, after) = >>=-eq-ret (k a.java_type) (λ r. ret (after_first a r)) h in
      let (bs, same) = after_first-inv a o as_ after in
      bind-panic _ _ (panics a.java_type bs (found ∙ ap ret same))

  step-panics :
      (m : Go (Text ⊎ Argument)) (as_ : List Argument)
      → (m >>= λ o. then_more o k) ≡ ret (inr as_)
      → (m >>= λ o. then_more o l) ≡ panic
  step-panics (ret o) as_ h = then_more-panics o as_ h
  step-panics panic as_ h = refl

module _ (unmarshal : List ℕ → Text ⊎ Object) where
  integer_value : (b : List ℕ) → length b < 4 → rest_byte_to_value unmarshal java_integer b ≡ panic
  unfolding rest_byte_to_value text_eq
  integer_value b h = rw (big_endian-short 4 0 b h) refl

  integer_argument :
      (r : RestCall) (v : MethParam) (b old : Text)
      → v.dtype ≡ codes "integer"
      → length b < 4
      → param_argument unmarshal r v (some b) old ≡ panic
  integer_argument r v b old e h =
      rw (integer_jvm_type v old e) (bind-panic _ _ (integer_value b h))

  param_arguments-short :
      (r : RestCall) (v : MethParam) (ws : List MethParam) (old : Text)
      → IsShortInteger r v
      → param_arguments unmarshal r (v ∷ ws) old ≡ panic
  unfolding param_arguments IsShortInteger
  param_arguments-short r v ws old (e, q, h) =
      rw q (bind-panic _ _ (integer_argument r v (first_of (r.query v.name)) old e h))

  -- If the parameters before give arguments, and the next one is an integer in the query whose text is
  -- shorter than four bytes, then the loop over the parameters panics, whatever comes after.
  pub param_arguments-panics :
      (vs ws : List MethParam) (v : MethParam) (r : RestCall) (old : Text) (as_ : List Argument)
      → param_arguments unmarshal r vs old ≡ ret (inr as_)
      → IsShortInteger r v
      → param_arguments unmarshal r (vs ++ v ∷ ws) old ≡ panic
  unfolding param_arguments IsShortInteger
  param_arguments-panics [] ws v r old as_ h short = param_arguments-short r v ws old short
  param_arguments-panics (u ∷ vs) ws v r old as_ h short =
      let (bytes, left) = param_bytes r u in
      let next = record r { body = left } in
      step-panics _ _ (λ t bs found. param_arguments-panics vs ws v next t bs found short)
        (param_argument unmarshal r u bytes old) as_ h
