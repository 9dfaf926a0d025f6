-- ===== src/Schema/AnyOrder.antt =====
-- The method for a URL does not depend on the order in which Go walks the paths of a contract.
use mesher.Prelude.{
  ℕ, ◌+◌, List, ◌≡◌, refl, sym, ap, ◌∙◌, ◌++◌, [], ◌∷◌, Option, none, some, length, drop, arith,
  length-append, drop-append,
}
use mesher.Prelude.Text.{Text, Table, lookup, insert}
use mesher.Prelude.Maps.{IsMap}
use mesher.Schema.{
  Parameter, MethodInfo, SchemaContent, DefMethod, covert_param, covert_params, covert_respond,
  covert_responds, covert_swagger_methord_to_local_methord,
}
use mesher.Schema.Lookup.{get_method_info_schema_by_url}
use mesher.Schema.LongestPrefix.{
  same_prefix, Serves, method_at, IsLongest, get_method_info_schema_by_url_lem,
}

-- The contract with its paths in another order.
abbrev pub in_order : SchemaContent → Table (Table MethodInfo) → SchemaContent
in_order schema paths = record schema { paths = paths }

module _ (schema : SchemaContent) (paths : Table (Table MethodInfo)) where
  covert_params-in_order :
      (ps : List Parameter) (i : ℕ)
      → covert_params (in_order schema paths) ps i ≡ covert_params schema ps i
  unfolding covert_params
  covert_params-in_order [] i = refl
  covert_params-in_order (p ∷ ps) i =
      ap (◌∷◌ (covert_param schema p i)) (covert_params-in_order ps (i + 1))

  covert_responds-in_order :
      (rs : Table (Table Text))
      → covert_responds (in_order schema paths) rs ≡ covert_responds schema rs
  unfolding covert_responds
  covert_responds-in_order [] = refl
  covert_responds-in_order ((key, rsp) ∷ rs) =
      ap (insert key (covert_respond schema key rsp)) (covert_responds-in_order rs)

  method_at-in_order :
      (verb key : Text) (m : MethodInfo)
      → method_at (in_order schema paths) verb key m ≡ method_at schema verb key m
  unfolding covert_swagger_methord_to_local_methord
  method_at-in_order verb key m =
      rw (covert_params-in_order m.parameters 0, covert_responds-in_order m.response)

-- Two tables are the same map.
abbrev pub SameMap : Table (Table MethodInfo) → Table (Table MethodInfo) → Type 0
SameMap s t = (k : Text) → lookup k s ≡ lookup k t

some-inj : {x y : Table MethodInfo} → some x ≡ some y → x ≡ y
some-inj e = cc

info-inj : {x y : MethodInfo} → some x ≡ some y → x ≡ y
info-inj e = cc

module _ (base verb url : Text) where
  Serves-SameMap :
      {s t : Table (Table MethodInfo)} {key : Text} {m : MethodInfo}
      → SameMap s t
      → Serves base verb url s key m
      → Serves base verb url t key m
  Serves-SameMap {s} {t} {key} h r = record {
    methods = r.methods;
    in_paths = sym (h key) ∙ r.in_paths;
    is_prefix = r.is_prefix;
    has_verb = r.has_verb;
  }

  -- Paths of the same length that serve are the same.
  Serves-key :
      {s : Table (Table MethodInfo)} {j k : Text} {m n : MethodInfo}
      → Serves base verb url s j m
      → Serves base verb url s k n
      → length j ≡ length k
      → j ≡ k
  Serves-key {j = j} {k = k} r q e =
      let whole : base ++ j ≡ base ++ k =
        same_prefix url (base ++ j) (base ++ k) r.is_prefix q.is_prefix
          (omega (arith, e, length-append base j, length-append base k)) in
      sym (drop-append base j) ∙ ap (drop (length base)) whole ∙ drop-append base k

  Serves-method :
      {s : Table (Table MethodInfo)} {j k : Text} {m n : MethodInfo}
      → Serves base verb url s j m
      → Serves base verb url s k n
      → j ≡ k
      → m ≡ n
  Serves-method {s} r q e =
      let same : r.methods ≡ q.methods =
        some-inj (sym r.in_paths ∙ ap (λ x. lookup x s) e ∙ q.in_paths) in
      info-inj (sym r.has_verb ∙ ap (lookup verb) same ∙ q.has_verb)

module _ (schema : SchemaContent) (paths : Table (Table MethodInfo)) (verb url : Text)
    (same : SameMap schema.paths paths) where
  IsLongest-unique :
      (o p : Option DefMethod)
      → IsLongest schema verb url o
      → IsLongest (in_order schema paths) verb url p
      → o ≡ p
  IsLongest-unique none none f g = refl
  IsLongest-unique none (some d) f (key, m, s, ne, e, top) =
      absurd (ne (f key m (Serves-SameMap schema.base_path verb url (λ k. sym (same k)) s)))
  IsLongest-unique (some d) none (key, m, s, ne, e, top) g =
      absurd (ne (g key m (Serves-SameMap schema.base_path verb url same s)))
  IsLongest-unique (some c) (some d) (j, m, s, ne, e, top) (k, n, r, ne', e', top') =
      let r' = Serves-SameMap schema.base_path verb url (λ x. sym (same x)) r in
      let s' = Serves-SameMap schema.base_path verb url same s in
      let j=k : j ≡ k =
        Serves-key schema.base_path verb url s r' (omega (arith, top k n r', top' j m s')) in
      let m=n : m ≡ n = Serves-method schema.base_path verb url s r' j=k in
      let c=d : c ≡ d =
        e
        ∙ ap (λ x. method_at schema verb x m) j=k
        ∙ ap (method_at schema verb k) m=n
        ∙ sym (method_at-in_order schema paths verb k n)
        ∙ sym e' in
      ap some c=d

  -- The method for a URL is the same in whatever order the paths of the contract are walked.
  pub get_method_info_schema_by_url-in_order :
      IsMap schema.paths
      → IsMap paths
      → get_method_info_schema_by_url (in_order schema paths) verb url
        ≡ get_method_info_schema_by_url schema verb url
  get_method_info_schema_by_url-in_order u v = sym (
      IsLongest-unique (get_method_info_schema_by_url schema verb url)
        (get_method_info_schema_by_url (in_order schema paths) verb url)
        (get_method_info_schema_by_url_lem schema verb url u)
        (get_method_info_schema_by_url_lem (in_order schema paths) verb url v))
