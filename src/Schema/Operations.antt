-- ===== src/Schema/Operations.antt =====
-- The parameters of a converted method, the method of an operation, and the choice between contracts.
use mesher.Prelude.{
  ℕ, zero, suc, ◌+◌, ◌≤◌, ◌≡◌, ◌⊎◌, inl, inr, ◌↔◌, refl, ◌∙◌, subst, List, [], ◌∷◌, ◌++◌, Option,
  none, some, false, arith, length, get_elem?, ltb, ltb→lt, if-cases, All, ◌==◌, ==_iff,
}
use mesher.Prelude.Text.{Text, lookup}
use mesher.Istio.{MicroServiceInstance}
use mesher.Schema.{
  Parameter, MethodInfo, MethParam, SchemaContent, DefMethod, covert_param, covert_params,
  find_param, get_param_schema, covert_swagger_methord_to_local_methord,
}
use mesher.Schema.Cache.{dubbo, rest_proto, proto_after, proto_for_service}
use mesher.Schema.Lookup.{
  better, best_of_schemas, get_schema_method_by_svc_url, get_method_info_schema_by_url,
}

abbrev pub covert_at : SchemaContent → Option Parameter → ℕ → Option MethParam
covert_at schema none i = none
covert_at schema (some p) i = some (covert_param schema p i)

find_param-covert_params :
    (schema : SchemaContent) (ps : List Parameter) (n k : ℕ)
    → find_param (n + k) (covert_params schema ps n) ≡ covert_at schema (get_elem? ps k) (n + k)
unfolding find_param covert_params
find_param-covert_params schema [] n k = refl
find_param-covert_params schema (p ∷ ps) n zero =
    subst (λ i. find_param i (covert_params schema (p ∷ ps) n) ≡ some (covert_param schema p i))
      {x = n} (omega arith) (ground (arith, ==_iff n n))
find_param-covert_params schema (p ∷ ps) n (suc k) =
    let ih = find_param-covert_params schema ps (n + 1) k in
    let other : (n == (n + suc k)) ≡ false = ground arith in
    rw other (
      subst
        (λ i. find_param i (covert_params schema ps (n + 1)) ≡ covert_at schema (get_elem? ps k) i)
        {x = n + 1 + k} (omega arith) ih)

-- After the conversion of a method, the parameter of an index is the parameter of the contract at that
-- place, and there is none if the contract has no parameter there.
pub get_param_schema-covert :
    (schema : SchemaContent) (src : MethodInfo) (dst : DefMethod) (i : ℕ)
    → get_param_schema (covert_swagger_methord_to_local_methord schema src dst) i
      ≡ covert_at schema (get_elem? src.parameters i) i
unfolding get_param_schema covert_swagger_methord_to_local_methord
get_param_schema-covert schema src dst i =
    subst
      (λ j.
        find_param j (covert_params schema src.parameters 0)
        ≡ covert_at schema (get_elem? src.parameters i) j)
      {x = 0 + i} (omega arith) (find_param-covert_params schema src.parameters 0 i)

-- Each instance has an address for dubbo.
abbrev pub AllDubbo : List MicroServiceInstance → Type 0
AllDubbo [] = Unit {0}
AllDubbo (i ∷ is) = ((address : Text) × (lookup dubbo i.endpoints_map ≡ some address)) × AllDubbo is

rest-ne-dubbo : rest_proto ≡ dubbo → ⊥
rest-ne-dubbo e = cc

proto_after_iff :
    (o : Option Text) (later : Text) (is : List MicroServiceInstance)
    → ((later ≡ dubbo) ↔ AllDubbo is) × ((later ≡ dubbo) ⊎ (later ≡ rest_proto))
    → ((proto_after o later ≡ dubbo) ↔ (((address : Text) × (o ≡ some address)) × AllDubbo is))
      × ((proto_after o later ≡ dubbo) ⊎ (proto_after o later ≡ rest_proto))
proto_after_iff none later is h = ((λ e. absurd (rest-ne-dubbo e), λ (a, ds). cc), inr refl)
proto_after_iff (some address) later is (h, c) =
    ((λ e. ((address, refl), h.0 e), λ (a, ds). h.1 ds), c)

-- The protocol is dubbo if each instance has an address for dubbo, and only then; else it is rest.
pub proto_for_service_iff :
    (is : List MicroServiceInstance)
    → ((proto_for_service is ≡ dubbo) ↔ AllDubbo is)
      × ((proto_for_service is ≡ dubbo) ⊎ (proto_for_service is ≡ rest_proto))
unfolding proto_for_service
proto_for_service_iff [] = ((λ e. tt, λ u. refl), inl refl)
proto_for_service_iff (i ∷ is) =
    proto_after_iff (lookup dubbo i.endpoints_map) (proto_for_service is) is
      (proto_for_service_iff is)

-- The second method, if there is one, has a path at least as long.
abbrev pub NotLonger : Option DefMethod → Option DefMethod → Type 0
NotLonger none d = Unit {0}
NotLonger (some m) none = ⊥
NotLonger (some m) (some d) = length m.path ≤ length d.path

NotLonger-refl : (d : Option DefMethod) → NotLonger d d
NotLonger-refl none = tt
NotLonger-refl (some d) = omega arith

NotLonger-trans : (a b c : Option DefMethod) → NotLonger a b → NotLonger b c → NotLonger a c
NotLonger-trans none b c h k = tt
NotLonger-trans (some a) none c h k = absurd h
NotLonger-trans (some a) (some b) none h k = absurd k
NotLonger-trans (some a) (some b) (some c) h k = omega arith

better-NotLonger :
    (cur m : Option DefMethod) → NotLonger cur (better cur m) × NotLonger m (better cur m)
better-NotLonger cur none = (NotLonger-refl cur, tt)
better-NotLonger none (some m) = (tt, omega arith)
better-NotLonger (some c) (some m) =
    if-cases (λ d. NotLonger (some c) d × NotLonger (some m) d)
      (ltb (length c.path) (length m.path)) (some m) (some c)
      (λ t. (omega (arith, ltb→lt (length c.path) (length m.path) t), omega arith))
      (λ f. (omega arith, ground arith))

better-either : (cur m : Option DefMethod) → (better cur m ≡ cur) ⊎ (better cur m ≡ m)
better-either cur none = inl refl
better-either none (some m) = inr refl
better-either (some c) (some m) =
    if-cases (λ d. (d ≡ some c) ⊎ (d ≡ some m)) (ltb (length c.path) (length m.path)) (some m)
      (some c) (λ t. inr refl) (λ f. inl refl)

module _ (verb url : Text) where
  -- One of the contracts has the method for the URL.
  abbrev pub OneHas : List SchemaContent → Option DefMethod → Type 0
  OneHas [] d = ⊥
  OneHas (v ∷ vs) d = (d ≡ get_method_info_schema_by_url v verb url) ⊎ OneHas vs d

  abbrev pub NoneLonger : List SchemaContent → Option DefMethod → Type 0
  NoneLonger vs d = All (λ v. NotLonger (get_method_info_schema_by_url v verb url) d) vs

  best_of_schemas-longest :
      (vs : List SchemaContent) (s : Option SchemaContent) (cur : Option DefMethod)
      → let d = (best_of_schemas verb url vs (s, cur)).1 in
        NotLonger cur d × NoneLonger vs d × ((d ≡ cur) ⊎ OneHas vs d)
  unfolding best_of_schemas
  best_of_schemas-longest [] s cur = (NotLonger-refl cur, tt, inl refl)
  best_of_schemas-longest (v ∷ vs) s cur =
      let m = get_method_info_schema_by_url v verb url in
      let d = (best_of_schemas verb url vs (some v, better cur m)).1 in
      let (le, all_le, from) = best_of_schemas-longest vs (some v) (better cur m) in
      let (a, b) = better-NotLonger cur m in
      (
        NotLonger-trans cur (better cur m) d a le,
        (NotLonger-trans m (better cur m) d b le, all_le),
        elim from [
          | inl e ↦ elim (better-either cur m) [
            | inl e' ↦ inl (e ∙ e')
            | inr e' ↦ inr (inl (e ∙ e'))
          ]
          | inr later ↦ inr (inr later)
        ],
      )

  best_of_schemas-last :
      (vs : List SchemaContent) (v : SchemaContent) (cur : Option SchemaContent × Option DefMethod)
      → (best_of_schemas verb url (vs ++ (v ∷ [])) cur).0 ≡ some v
  unfolding best_of_schemas
  best_of_schemas-last [] v cur = refl
  best_of_schemas-last (w ∷ vs) v cur =
      best_of_schemas-last vs v (some w, better cur.1 (get_method_info_schema_by_url w verb url))

  -- Among the contracts of a service, the method with the longest path is chosen, of whichever contract
  -- it is, or none if no contract has one; but the contract that comes with it is always the last one.
  get_schema_method_by_svc_url_lem :
      (contracts : Text → Text → Text → Text → List SchemaContent) (svc env ver app : Text)
      (vs : List SchemaContent) (v : SchemaContent)
      → contracts svc ver app env ≡ vs ++ (v ∷ [])
      → let r = get_schema_method_by_svc_url contracts svc env ver app verb url in
        (r.0 ≡ some v)
        × NoneLonger (vs ++ (v ∷ [])) r.1
        × ((r.1 ≡ none) ⊎ OneHas (vs ++ (v ∷ [])) r.1)
  unfolding get_schema_method_by_svc_url
  get_schema_method_by_svc_url_lem contracts svc env ver app vs v e =
      let longest = best_of_schemas-longest (vs ++ (v ∷ [])) none none in
      rw e (best_of_schemas-last vs v (none, none), longest.1, longest.2)
