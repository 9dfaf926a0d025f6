-- ===== src/Schema/ByName.antt =====
-- The method of an interface that a call names by its operation.
use mesher.Prelude.{
  ◌≡◌, refl, ap, ◌∙◌, subst, [], ◌∷◌, Option, none, some, true, false, arith, Bool-cases, if-cases,
  inl, inr,
}
use mesher.Prelude.Text.{Text, Table, lookup, text_eq, text_eq_iff}
use mesher.Prelude.Maps.{IsMap, Entries}
use mesher.Prelude.Strings.{equal_fold}
use mesher.Schema.{MethodInfo, SchemaContent, DefMethod}
use mesher.Schema.Lookup.{
  find_verb, or_later, find_operation, operation_method, get_method_by_interface,
}

module _ (operate_id : Text) where
  -- What the search in the methods of a path found.
  abbrev VerbFound : Table MethodInfo → Option (Text × MethodInfo) → Type 0
  VerbFound ms none =
      (verb : Text) (m : MethodInfo)
      → lookup verb ms ≡ some m
      → equal_fold m.operation_id operate_id ≡ false
  VerbFound ms (some (verb, m)) =
      (lookup verb ms ≡ some m) × (equal_fold m.operation_id operate_id ≡ true)

  VerbFound-skip :
      (j : Text) (i : MethodInfo) (ms : Table MethodInfo) (o : Option (Text × MethodInfo))
      → lookup j ms ≡ none
      → equal_fold i.operation_id operate_id ≡ false
      → VerbFound ms o
      → VerbFound ((j, i) ∷ ms) o
  unfolding lookup
  VerbFound-skip j i ms none free other f = λ verb m e. elim (Bool-cases (text_eq j verb)) [
    | inl same ↦
        let i=m : i ≡ m = ground arith in
        subst (λ x. equal_fold x.operation_id operate_id ≡ false) i=m other
    | inr differ ↦ f verb m (ground arith)
  ]
  VerbFound-skip j i ms (some (verb, m)) free other (e, t) = (ground (arith, text_eq_iff j verb), t)

  find_verb-VerbFound : (ms : Table MethodInfo) → IsMap ms → VerbFound ms (find_verb operate_id ms)
  unfolding find_verb lookup
  find_verb-VerbFound [] u = λ verb m e. cc
  find_verb-VerbFound ((j, i) ∷ ms) (free, u) =
      if-cases (VerbFound ((j, i) ∷ ms)) (equal_fold i.operation_id operate_id) (some (j, i))
        (find_verb operate_id ms) (λ t. (ground (arith, text_eq_iff j j), t))
        (λ f. VerbFound-skip j i ms (find_verb operate_id ms) free f (find_verb-VerbFound ms u))

  -- An operation of the contract with the id, up to case.
  pub record IsOperation (paths : Table (Table MethodInfo)) (path verb : Text) (m : MethodInfo)
      : Type 0 where
    pub methods : Table MethodInfo
    pub in_paths : lookup path paths ≡ some methods
    pub in_methods : lookup verb methods ≡ some m
    pub has_id : equal_fold m.operation_id operate_id ≡ true

  abbrev OperationFound : Table (Table MethodInfo) → Option (Text × Text × MethodInfo) → Type 0
  OperationFound paths none =
      (path verb : Text) (m : MethodInfo) → IsOperation paths path verb m → ⊥
  OperationFound paths (some (path, verb, m)) = IsOperation paths path verb m

  IsOperation-later :
      (j path verb : Text) (ms : Table MethodInfo) (paths : Table (Table MethodInfo))
      (m : MethodInfo)
      → lookup j paths ≡ none
      → IsOperation paths path verb m
      → IsOperation ((j, ms) ∷ paths) path verb m
  unfolding lookup
  IsOperation-later j path verb ms paths m free r = record {
    methods = r.methods;
    in_paths = ground (arith, text_eq_iff j path, r.in_paths);
    in_methods = r.in_methods;
    has_id = r.has_id;
  }

  not_first :
      (j path verb : Text) (ms : Table MethodInfo) (paths : Table (Table MethodInfo))
      (m : MethodInfo)
      → VerbFound ms none
      → OperationFound paths none
      → IsOperation ((j, ms) ∷ paths) path verb m
      → ⊥
  unfolding lookup
  not_first j path verb ms paths m f g r = elim (Bool-cases (text_eq j path)) [
    | inl same ↦
        let shape : ms ≡ r.methods = ground (arith, r.in_paths) in
        let here : lookup verb ms ≡ some m = ap (lookup verb) shape ∙ r.in_methods in
        let no : equal_fold m.operation_id operate_id ≡ false = f verb m here in
        ground (arith, r.has_id, no)
    | inr differ ↦ g path verb m (record {
      methods = r.methods;
      in_paths = ground (arith, r.in_paths);
      in_methods = r.in_methods;
      has_id = r.has_id;
    })
  ]

  or_later-OperationFound :
      (j : Text) (ms : Table MethodInfo) (paths : Table (Table MethodInfo))
      (first : Option (Text × MethodInfo)) (later : Option (Text × Text × MethodInfo))
      → lookup j paths ≡ none
      → VerbFound ms first
      → OperationFound paths later
      → OperationFound ((j, ms) ∷ paths) (or_later j first later)
  unfolding lookup
  or_later-OperationFound j ms paths none none free f g =
      λ path verb m r. not_first j path verb ms paths m f g r
  or_later-OperationFound j ms paths none (some (path, verb, m)) free f g =
      IsOperation-later j path verb ms paths m free g
  or_later-OperationFound j ms paths (some (verb, m)) later free (e, t) g = record {
    methods = ms;
    in_paths = ground (arith, text_eq_iff j j);
    in_methods = e;
    has_id = t;
  }

  find_operation-OperationFound :
      (paths : Table (Table MethodInfo))
      → IsMap paths
      → Entries (λ path ms. IsMap ms) paths
      → OperationFound paths (find_operation operate_id paths)
  unfolding find_operation lookup
  find_operation-OperationFound [] u v = λ path verb m r. ground (arith, r.in_paths)
  find_operation-OperationFound ((j, ms) ∷ paths) (free, u) (w, v) =
      or_later-OperationFound j ms paths (find_verb operate_id ms) (find_operation operate_id paths)
        free (find_verb-VerbFound ms w) (find_operation-OperationFound paths u v)

-- What an answer means: none if the contract has no operation with the id, else the method of one.
abbrev pub IsMethodOf : SchemaContent → Text → Option DefMethod → Type 0
IsMethodOf schema operate_id none =
    (path verb : Text) (m : MethodInfo) → IsOperation operate_id schema.paths path verb m → ⊥
IsMethodOf schema operate_id (some d) =
    (path : Text) × (verb : Text) × (m : MethodInfo) × IsOperation operate_id schema.paths path verb
      m
    × (operation_method schema operate_id (some (path, verb, m)) ≡ some d)

operation_method-IsMethodOf :
    (schema : SchemaContent) (operate_id : Text) (o : Option (Text × Text × MethodInfo))
    → OperationFound operate_id schema.paths o
    → IsMethodOf schema operate_id (operation_method schema operate_id o)
operation_method-IsMethodOf schema operate_id none f = f
operation_method-IsMethodOf schema operate_id (some (path, verb, m)) r = (path, verb, m, r, refl)

-- On a contract that holds each path and each verb of a path once, the method for an operation is none
-- if no operation has the id up to case, and else the method of an operation that has it.
pub get_method_by_interface_lem :
    (contract : Text → SchemaContent) (interface_name operate_id : Text)
    → IsMap (contract interface_name).paths
    → Entries (λ path ms. IsMap ms) (contract interface_name).paths
    → IsMethodOf
        (contract interface_name)
        operate_id
        (get_method_by_interface contract interface_name operate_id)
unfolding get_method_by_interface
get_method_by_interface_lem contract interface_name operate_id u v =
    operation_method-IsMethodOf (contract interface_name) operate_id
      (find_operation operate_id (contract interface_name).paths)
      (find_operation-OperationFound operate_id (contract interface_name).paths u v)
