-- ===== src/Schema/LongestPrefix.antt =====
-- The method for a URL: the longest path that is a prefix, in whatever order the paths are walked.
use mesher.Prelude.{
  ℕ, ◌≤◌, ◌<◌, ◌≡◌, refl, sym, ap, ◌≢◌, ◌∙◌, subst, ◌⊎◌, inl, inr, true, [], ◌∷◌, ◌++◌, Option,
  none, some, length, take, arith, ltb, if-cases, ltb→lt,
}
use mesher.Prelude.Text.{Text, Table, lookup, has_prefix, text_eq_iff}
use mesher.Prelude.Maps.{IsMap, Entries, Entries-lookup}
use mesher.Schema.{MethodInfo, SchemaContent, DefMethod, covert_swagger_methord_to_local_methord}
use mesher.Schema.Lookup.{
  new_method, Best, longer, offered, longest, url_method, get_method_info_schema_by_url,
}

has_prefix-take : (s p : Text) → has_prefix s p ≡ true → take (length p) s ≡ p
unfolding has_prefix
has_prefix-take s [] h = refl
has_prefix-take [] (d ∷ p) h = cc
has_prefix-take (c ∷ s) (d ∷ p) h = ground (arith, has_prefix-take s p)

-- Two prefixes of the same length are the same.
pub same_prefix :
    (s p q : Text) → has_prefix s p ≡ true → has_prefix s q ≡ true → length p ≡ length q → p ≡ q
same_prefix s p q hp hq e =
    sym (has_prefix-take s p hp) ∙ ap (λ n. take n s) e ∙ has_prefix-take s q hq

-- A bound grows only to the length of a key that serves.
longer-le : (key : Text) (o : Option MethodInfo) (b : Best) → b.0 ≤ (longer key o b).0
longer-le key none b = omega arith
longer-le key (some m) b = ground arith

longer-reaches : (key : Text) (m : MethodInfo) (b : Best) → length key ≤ (longer key (some m) b).0
longer-reaches key m b = ground arith

module _ (base verb url : Text) where
  -- A path of the contract that is a prefix of the URL and has a method for the verb.
  pub record Serves (paths : Table (Table MethodInfo)) (key : Text) (m : MethodInfo) : Type 0 where
    pub methods : Table MethodInfo
    pub in_paths : lookup key paths ≡ some methods
    pub is_prefix : has_prefix url (base ++ key) ≡ true
    pub has_verb : lookup verb methods ≡ some m

  -- The entry is no longer than the bound, if it serves.
  Within : ℕ → Text → Table MethodInfo → Type 0
  Within n key v =
      (m : MethodInfo)
      → has_prefix url (base ++ key) ≡ true
      → lookup verb v ≡ some m
      → length key ≤ n

  offered-le :
      (key : Text) (v : Table MethodInfo) (b : Best) → b.0 ≤ (offered base verb url key v b).0
  offered-le key v b = ground (arith, longer-le key (lookup verb v) b)

  offered-Within :
      (key : Text) (v : Table MethodInfo) (b : Best)
      → Within (offered base verb url key v b).0 key v
  unfolding Within
  offered-Within key v b m p e = rw (p, e) (longer-reaches key m b)

  longest-le :
      (paths : Table (Table MethodInfo)) (b : Best) → b.0 ≤ (longest base verb url paths b).0
  unfolding longest
  longest-le [] b = omega arith
  longest-le ((key, v) ∷ paths) b =
      omega (arith, offered-le key v b, longest-le paths (offered base verb url key v b))

  Within-le :
      {m n : ℕ} (key : Text) (v : Table MethodInfo) → m ≤ n → Within m key v → Within n key v
  unfolding Within
  Within-le key v h w i p e = omega (arith, w i p e)

  longest-Within :
      (paths : Table (Table MethodInfo)) (b : Best)
      → Entries (Within (longest base verb url paths b).0) paths
  unfolding longest
  longest-Within [] b = tt
  longest-Within ((key, v) ∷ paths) b = (
    Within-le key v (longest-le paths (offered base verb url key v b)) (offered-Within key v b),
    longest-Within paths (offered base verb url key v b),
  )

  -- The result is the start, or a longer key that serves.
  Found : Table (Table MethodInfo) → Best → Best → Type 0
  Found paths b c =
      (c ≡ b)
      ⊎ ((key : Text) × (m : MethodInfo) × (c ≡ (length key, some (m, key)))
          × Serves paths key m
          × (b.0 < length key))

  Serves-first :
      (key : Text) (v : Table MethodInfo) (paths : Table (Table MethodInfo)) (m : MethodInfo)
      → has_prefix url (base ++ key) ≡ true
      → lookup verb v ≡ some m
      → Serves ((key, v) ∷ paths) key m
  unfolding lookup
  Serves-first key v paths m p e = record {
    methods = v;
    in_paths = ground (arith, text_eq_iff key key);
    is_prefix = p;
    has_verb = e;
  }

  Serves-later :
      (key j : Text) (v : Table MethodInfo) (paths : Table (Table MethodInfo)) (m : MethodInfo)
      → lookup j paths ≡ none
      → Serves paths key m
      → Serves ((j, v) ∷ paths) key m
  unfolding lookup
  Serves-later key j v paths m h s = record {
    methods = s.methods;
    in_paths = ground (arith, text_eq_iff j key, s.in_paths);
    is_prefix = s.is_prefix;
    has_verb = s.has_verb;
  }

  longer-Found :
      (key : Text) (v : Table MethodInfo) (paths : Table (Table MethodInfo)) (b : Best)
      (o : Option MethodInfo)
      → has_prefix url (base ++ key) ≡ true
      → lookup verb v ≡ o
      → Found ((key, v) ∷ paths) b (longer key o b)
  unfolding Found
  longer-Found key v paths b none p e = inl refl
  longer-Found key v paths b (some m) p e =
      if-cases (Found ((key, v) ∷ paths) b) (ltb b.0 (length key)) (length key, some (m, key)) b
        (λ t. inr (key, m, refl, Serves-first key v paths m p e, ltb→lt b.0 (length key) t))
        (λ _. inl refl)

  offered-Found :
      (key : Text) (v : Table MethodInfo) (paths : Table (Table MethodInfo)) (b : Best)
      → Found ((key, v) ∷ paths) b (offered base verb url key v b)
  unfolding Found
  offered-Found key v paths b =
      if-cases (Found ((key, v) ∷ paths) b) (has_prefix url (base ++ key))
        (longer key (lookup verb v) b) b (λ p. longer-Found key v paths b (lookup verb v) p refl)
        (λ _. inl refl)

  Found-trans :
      (key : Text) (v : Table MethodInfo) (paths : Table (Table MethodInfo)) (b c d : Best)
      → lookup key paths ≡ none
      → b.0 ≤ c.0
      → Found ((key, v) ∷ paths) b c
      → Found paths c d
      → Found ((key, v) ∷ paths) b d
  unfolding Found
  Found-trans key v paths b c d h le f (inl e) = subst (Found ((key, v) ∷ paths) b) (sym e) f
  Found-trans key v paths b c d h le f (inr (k, m, e, s, lt)) =
      inr (k, m, e, Serves-later k key v paths m h s, omega arith)

  longest-Found :
      (paths : Table (Table MethodInfo)) (b : Best)
      → IsMap paths
      → Found paths b (longest base verb url paths b)
  unfolding longest Found
  longest-Found [] b u = inl refl
  longest-Found ((key, v) ∷ paths) b u =
      Found-trans key v paths b (offered base verb url key v b)
        (longest base verb url paths (offered base verb url key v b)) u.0 (offered-le key v b)
        (offered-Found key v paths b) (longest-Found paths (offered base verb url key v b) u.1)

  longest-bound :
      (paths : Table (Table MethodInfo)) (b : Best) (key : Text) (m : MethodInfo)
      → Serves paths key m
      → length key ≤ (longest base verb url paths b).0
  unfolding Within
  longest-bound paths b key m s =
      Entries-lookup (Within (longest base verb url paths b).0) paths key s.methods
        (longest-Within paths b) s.in_paths m s.is_prefix s.has_verb

-- The method of a path that serves, as it is handed over.
abbrev pub method_at : SchemaContent → Text → Text → MethodInfo → DefMethod
method_at schema verb key m =
    covert_swagger_methord_to_local_methord schema m
      (record new_method { path = schema.base_path ++ key; verb = verb })

module _ (schema : SchemaContent) (verb url : Text) where
  abbrev ServesUrl : Text → MethodInfo → Type 0
  ServesUrl key m = Serves schema.base_path verb url schema.paths key m

  -- What an answer means: none if no path but an empty one serves, else the longest path that serves.
  abbrev pub IsLongest : Option DefMethod → Type 0
  IsLongest none = (key : Text) (m : MethodInfo) → ServesUrl key m → key ≡ []
  IsLongest (some d) =
      (key : Text) × (m : MethodInfo) × ServesUrl key m
      × (key ≢ [])
      × (d ≡ method_at schema verb key m)
      × ((k : Text) (i : MethodInfo) → ServesUrl k i → length k ≤ length key)

  no_length : (key : Text) → length key ≤ 0 → key ≡ []
  no_length [] h = refl
  no_length (c ∷ key) h = absurd (omega arith)

  abbrev start : Best
  start = (0, none)

  Bounds : Best → Type 0
  Bounds b = (k : Text) (i : MethodInfo) → ServesUrl k i → length k ≤ b.0

  Found-IsLongest :
      (b : Best)
      → Bounds b
      → Found schema.base_path verb url schema.paths start b
      → IsLongest (url_method schema verb b.1)
  unfolding Found Bounds
  Found-IsLongest b bound (inl e) =
      subst (λ (c : Best). IsLongest (url_method schema verb c.1)) (sym e)
        (λ key m s. no_length key (subst (λ (c : Best). length key ≤ c.0) e (bound key m s)))
  Found-IsLongest b bound (inr (key, m, e, s, lt)) =
      subst (λ (c : Best). IsLongest (url_method schema verb c.1)) (sym e)
        (
          key,
          m,
          s,
          λ z. absurd (omega (arith, lt, ap (λ (x : Text). length x) z)),
          refl,
          λ k i r. subst (λ (c : Best). length k ≤ c.0) e (bound k i r),
        )

  -- The method for a URL is none if no path but an empty one is a prefix of the URL, behind the base
  -- path, and has the verb. Else it is the method of the longest such path.
  pub get_method_info_schema_by_url_lem :
      IsMap schema.paths → IsLongest (get_method_info_schema_by_url schema verb url)
  unfolding get_method_info_schema_by_url Bounds
  get_method_info_schema_by_url_lem u =
      Found-IsLongest (longest schema.base_path verb url schema.paths start)
        (longest-bound schema.base_path verb url schema.paths start)
        (longest-Found schema.base_path verb url schema.paths start u)
