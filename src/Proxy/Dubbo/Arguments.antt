-- ===== src/Proxy/Dubbo/Arguments.antt =====
-- A dubbo call with more arguments than its contract has parameters.
use mesher.Prelude.{
  ℕ, suc, ◌+◌, ◌≤◌, ◌<◌, ◌≡◌, refl, ap, ◌∙◌, subst, List, [], ◌∷◌, Option, none, some, false, arith,
  length, ◌==◌, Bool-cases, inl, inr,
}
use mesher.Prelude.Text.{Text}
use mesher.Prelude.Go.{Go, panic, ◌>>=◌, >>=-cases}
use mesher.Wire.Object.{Object}
use mesher.Message.{Argument, get_attachment, path_key}
use mesher.Schema.{
  SchemaContent, Parameter, MethodInfo, MethParam, DefMethod, find_param, get_param_schema,
  get_param_name_and_where, covert_params, covert_swagger_methord_to_local_methord,
}
use mesher.Schema.Lookup.{get_method_by_interface, operation_method, find_operation}
use mesher.Proxy.Dubbo.{InvokeContext, RestRequest, Services}
use mesher.Proxy.Dubbo.Rest.{
  Encoded, add_argument, add_arguments, converted, convert_dubbo_req_to_http_req, start, proxied,
  proxy_rest_handler,
}

-- No parameter has an index from the number on.
NoneFrom : ℕ → List MethParam → Type 0
NoneFrom n ps = (i : ℕ) → n ≤ i → find_param i ps ≡ none

find_param-none :
    (schema : SchemaContent) (ps : List Parameter) (n i : ℕ)
    → n + length ps ≤ i
    → find_param i (covert_params schema ps n) ≡ none
unfolding find_param covert_params
find_param-none schema [] n i h = refl
find_param-none schema (p ∷ ps) n i h =
    let other : (n == i) ≡ false = ground arith in
    rw other (find_param-none schema ps (n + 1) i (omega arith))

length-covert_params :
    (schema : SchemaContent) (ps : List Parameter) (n : ℕ)
    → length (covert_params schema ps n) ≡ length ps
unfolding covert_params
length-covert_params schema [] n = refl
length-covert_params schema (p ∷ ps) n = ap suc (length-covert_params schema ps (n + 1))

-- The parameters of a method have the indices below their number.
Indexed : DefMethod → Type 0
Indexed d = NoneFrom (length d.paras) d.paras

covert-Indexed :
    (schema : SchemaContent) (src : MethodInfo) (dst : DefMethod)
    → Indexed (covert_swagger_methord_to_local_methord schema src dst)
unfolding covert_swagger_methord_to_local_methord Indexed NoneFrom
covert-Indexed schema src dst i h =
    find_param-none schema src.parameters 0 i
      (omega (arith, h, length-covert_params schema src.parameters 0))

method-inj : {c d : DefMethod} → some c ≡ some d → c ≡ d
method-inj e = cc

operation_method-Indexed :
    (schema : SchemaContent) (id : Text) (o : Option (Text × Text × MethodInfo)) (d : DefMethod)
    → operation_method schema id o ≡ some d
    → Indexed d
operation_method-Indexed schema id none d e = cc
operation_method-Indexed schema id (some (path, verb, m)) d e =
    subst Indexed (method-inj e) (covert-Indexed schema m _)

module _ (s : Services) where
  add_argument-panics :
      (m : DefMethod) (i : ℕ) (v : Object) (e : Encoded)
      → find_param i m.paras ≡ none
      → add_argument s m i v e ≡ panic
  unfolding get_param_name_and_where get_param_schema
  add_argument-panics m i v e h = rw h

  add_arguments-panics :
      (m : DefMethod) (n i : ℕ) (args : List Argument) (e : Encoded)
      → NoneFrom n m.paras
      → i ≤ n
      → n < i + length args
      → add_arguments s m i args e ≡ panic
  unfolding add_arguments NoneFrom
  add_arguments-panics m n i [] e f le lt = absurd (omega arith)
  add_arguments-panics m n i (a ∷ args) e f le lt = elim (Bool-cases (i == n)) [
    | inl same ↦
        let at : n ≤ i = ground arith in
        ap (λ (g : Go Encoded). g >>= add_arguments s m (i + 1) args)
          (add_argument-panics m i a.value e (f i at))
    | inr differ ↦
        let below : i + 1 ≤ n = ground arith in
        >>=-cases (λ g. g ≡ panic) (add_argument s m i a.value e) (add_arguments s m (i + 1) args)
          refl (λ e' _. add_arguments-panics m n (i + 1) args e' f below (omega arith))
  ]

  converted-panics :
      (m : DefMethod) (ctx : InvokeContext) (name : Text) (args : List Argument)
      → Indexed m
      → length m.paras < length args
      → converted s (some m) ctx name args ≡ panic
  unfolding Indexed
  converted-panics m ctx name args f lt =
      let p =
        add_arguments-panics m (length m.paras) 0 args (start s) f (omega arith) (omega arith) in
      rw p

  -- If the contract of an interface has the operation of a call, and the call has more arguments than
  -- the operation has parameters, then ConvertDubboReqToHTTPReq panics, whatever the arguments are.
  pub convert_dubbo_req_to_http_req-panics :
      (ctx : InvokeContext) (d : DefMethod)
      → let name = get_attachment ctx.req.invocation path_key [] in
        get_method_by_interface s.contract name ctx.req.method_name ≡ some d
        → length d.paras < length ctx.req.arguments
        → (convert_dubbo_req_to_http_req s ctx ≡ panic) × (proxy_rest_handler s ctx ≡ panic)
  unfolding convert_dubbo_req_to_http_req get_method_by_interface proxy_rest_handler
  convert_dubbo_req_to_http_req-panics ctx d e lt =
      let name = get_attachment ctx.req.invocation path_key [] in
      let o = find_operation ctx.req.method_name (s.contract name).paths in
      let p : convert_dubbo_req_to_http_req s ctx ≡ panic =
        ap (λ m. converted s m ctx name ctx.req.arguments) e
        ∙ converted-panics d ctx name ctx.req.arguments
            (operation_method-Indexed (s.contract name) ctx.req.method_name o d e) lt in
      (p, ap (λ (g : Go (InvokeContext × Option RestRequest)). g >>= proxied s) p)
