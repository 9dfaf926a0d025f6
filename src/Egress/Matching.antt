-- ===== src/Egress/Matching.antt =====
-- What `Match` finds.
use mesher.Prelude.{
  ==_iff, subst, ℕ, zero, suc, ◌≡◌, ◌≢◌, ◌⊎◌, inl, inr, refl, sym, ◌∙◌, ap, List, [], ◌∷◌, ◌++◌,
  Option, none, some, Bool, true, false, arith, all, get_elem?, ◌==◌, Bool-cases,
}
use mesher.Prelude.Text.{Text, text_eq, text_eq_iff}
use mesher.Prelude.Go.{Go, ret, panic, ◌>>=◌}
use mesher.Egress.{
  EgressPort, EgressRule, EgressConfig, Rules, copy_ports, to_configs, star, valid_host,
  validate_host_name, valid_rule, validate_egress_rule, flatten, host_matches, match_hosts,
  match_rules, match_host,
}

-- A decision and the proposition that it decides.
abbrev Decides : Type 0 → Bool → Type 0
Decides P true = P
Decides P false = P → ⊥

decides : {P : Type 0} (b : Bool) → (b ≡ true → P) → (b ≡ false → P → ⊥) → Decides P b
decides true t f = t refl
decides false t f = f refl

valid_host-NonEmpty : (h : Text) → valid_host h ≡ true → h ≢ []
unfolding validate_host_name
valid_host-NonEmpty h v e = ground (arith, e)

abbrev valid_config : EgressConfig → Bool
valid_config c = all valid_host c.hosts

module _ (match_string : Text → Text → Bool) (hostname : Text) where
  -- A host that starts with a star stands for the pattern of the text after the star with `$`, any
  -- other host for itself.
  abbrev pub HostMatches : Text → Type 0
  HostMatches h =
      ((s : Text) × (h ≡ star ∷ s) × (match_string (s ++ (36 ∷ [])) hostname ≡ true))
      ⊎ (((s : Text) → h ≢ star ∷ s) × (h ≡ hostname))

  abbrev pub RuleMatches : List Text → Type 0
  RuleMatches hosts = (i : ℕ) × (h : Text) × (get_elem? hosts i ≡ some h) × HostMatches h

  -- The first rule with a host that matches.
  pub data FirstMatch : List EgressConfig → Option EgressConfig → Type 0 where
    no_rule : FirstMatch [] none
    this_rule :
        (r : EgressConfig) (rs : List EgressConfig)
        → RuleMatches r.hosts
        → FirstMatch (r ∷ rs) (some r)
    next_rule :
        (r : EgressConfig) (rs : List EgressConfig) (o : Option EgressConfig)
        → (RuleMatches r.hosts → ⊥)
        → FirstMatch rs o
        → FirstMatch (r ∷ rs) o

  star_matches :
      (c : ℕ) (s : Text)
      → c ≡ star
      → match_string (s ++ (36 ∷ [])) hostname ≡ false
      → HostMatches (c ∷ s)
      → ⊥
  star_matches c s e m (inl (t, same, found)) = cc
  star_matches c s e m (inr (plain, same)) = plain s (ap (λ x. x ∷ s) e)

  plain_matches : (c : ℕ) (s : Text) → c ≢ star → c ∷ s ≢ hostname → HostMatches (c ∷ s) → ⊥
  plain_matches c s n m (inl (t, same, found)) = ground (arith, same)
  plain_matches c s n m (inr (plain, same)) = m same

  host_matches-Decides :
      (h : Text)
      → h ≢ []
      → (b : Bool) × (host_matches match_string h hostname ≡ ret b) × Decides (HostMatches h) b
  unfolding host_matches
  host_matches-Decides [] n = absurd (n refl)
  host_matches-Decides (c ∷ s) n = elim (Bool-cases (c == star)) [
    | inl starred ↦
        let c=star : c ≡ star = (==_iff c star).0 starred in
        let b = match_string (s ++ (36 ∷ [])) hostname in
        (
          b,
          ground arith,
          decides b (λ e. inl (s, ap (λ x. x ∷ s) c=star, e)) (star_matches c s c=star),
        )
    | inr other ↦
        let b = text_eq (c ∷ s) hostname in
        (
          b,
          ground arith,
          decides b
              (λ e. inr ((λ t same. ground (arith, same)), (text_eq_iff (c ∷ s) hostname).0 e))
              (λ e.
                plain_matches c s (ground arith)
                  (λ same. ground (arith, (text_eq_iff (c ∷ s) hostname).1 same))),
        )
  ]

  neither :
      (h : Text) (hs : List Text)
      → (HostMatches h → ⊥)
      → (RuleMatches hs → ⊥)
      → RuleMatches (h ∷ hs)
      → ⊥
  neither h hs d n (zero, k, at, m) = d (subst HostMatches (ground (arith, at)) m)
  neither h hs d n (suc i, k, at, m) = n (i, k, at, m)

  match_more :
      (h : Text) (hs : List Text)
      → (b : Bool) × (host_matches match_string h hostname ≡ ret b) × Decides (HostMatches h) b
      → (b : Bool) × (match_hosts match_string hs hostname ≡ ret b) × Decides (RuleMatches hs) b
      → (b : Bool) × (match_hosts match_string (h ∷ hs) hostname ≡ ret b)
        × Decides (RuleMatches (h ∷ hs)) b
  unfolding match_hosts
  match_more h hs (true, e, d) rest = (true, ground (arith, e), (0, h, refl, d))
  match_more h hs (false, e, d) (true, f, (i, k, at, m)) =
      (true, ground (arith, e, f), (suc i, k, at, m))
  match_more h hs (false, e, d) (false, f, none_of) =
      (false, ground (arith, e, f), λ m. neither h hs d none_of m)

  match_hosts-Decides :
      (hs : List Text)
      → (all valid_host hs ≡ true)
      → (b : Bool) × (match_hosts match_string hs hostname ≡ ret b) × Decides (RuleMatches hs) b
  match_hosts-Decides [] v = (false, unfold match_hosts in refl, λ (i, h, at, m). cc)
  match_hosts-Decides (h ∷ hs) v =
      match_more h hs (host_matches-Decides h (valid_host-NonEmpty h (ground arith)))
        (match_hosts-Decides hs (ground arith))

  -- What `Match` returns on a list of rules is the first rule with a host that matches.
  abbrev pub Finds : List EgressConfig → Type 0
  Finds rs =
      (o : Option EgressConfig) × (match_rules match_string rs hostname ≡ ret o) × FirstMatch rs o

  find_more :
      (r : EgressConfig) (rs : List EgressConfig)
      → (b : Bool) × (match_hosts match_string r.hosts hostname ≡ ret b)
        × Decides (RuleMatches r.hosts) b
      → Finds rs
      → Finds (r ∷ rs)
  unfolding match_rules
  find_more r rs (true, e, d) rest = (some r, ground (arith, e), this_rule r rs d)
  find_more r rs (false, e, d) (o, f, first) = (o, ground (arith, e, f), next_rule r rs o d first)

  match_rules-Finds : (rs : List EgressConfig) → all valid_config rs ≡ true → Finds rs
  match_rules-Finds [] v = (none, unfold match_rules in refl, no_rule)
  match_rules-Finds (r ∷ rs) v =
      find_more r rs (match_hosts-Decides r.hosts (ground arith))
        (match_rules-Finds rs (ground arith))

-- A port that is not nil is copied.
pub data Ports : List (Option EgressPort) → List EgressPort → Type 0 where
  no_ports : Ports [] []
  one_port :
      (p : EgressPort) (ps : List (Option EgressPort)) (qs : List EgressPort)
      → Ports ps qs
      → Ports (some p ∷ ps) (p ∷ qs)

-- The rules with the same hosts and the same ports, none of them nil.
pub data Configs : List EgressRule → List EgressConfig → Type 0 where
  no_configs : Configs [] []
  one_config :
      (r : EgressRule) (c : EgressConfig) (rs : List EgressRule) (cs : List EgressConfig)
      → c.hosts ≡ r.hosts
      → Ports r.ports c.ports
      → Configs rs cs
      → Configs (r ∷ rs) (c ∷ cs)

abbrev pub NilPort : List (Option EgressPort) → Type 0
NilPort [] = ⊥
NilPort (none ∷ ps) = Unit {0}
NilPort (some p ∷ ps) = NilPort ps

-- One of the rules has a nil port.
abbrev pub HasNilPort : List EgressRule → Type 0
HasNilPort [] = ⊥
HasNilPort (r ∷ rs) = NilPort r.ports ⊎ HasNilPort rs

abbrev Copied : List (Option EgressPort) → Go (List EgressPort) → Type 0
Copied ps (ret qs) = Ports ps qs
Copied ps panic = NilPort ps

Copied-some :
    (p : EgressPort) (ps : List (Option EgressPort)) (g : Go (List EgressPort))
    → Copied ps g
    → Copied (some p ∷ ps) (g >>= λ qs. ret (p ∷ qs))
Copied-some p ps (ret qs) c = one_port p ps qs c
Copied-some p ps panic c = c

copy_ports-Copied : (ps : List (Option EgressPort)) → Copied ps (copy_ports ps)
unfolding copy_ports
copy_ports-Copied [] = no_ports
copy_ports-Copied (none ∷ ps) = tt
copy_ports-Copied (some p ∷ ps) = Copied-some p ps (copy_ports ps) (copy_ports-Copied ps)

abbrev Converted : List EgressRule → Go (List EgressConfig) → Type 0
Converted rs (ret cs) = Configs rs cs
Converted rs panic = HasNilPort rs

Converted-cons :
    (r : EgressRule) (rs : List EgressRule) (g : Go (List EgressPort)) (f : Go (List EgressConfig))
    → Copied r.ports g
    → Converted rs f
    → Converted
        (r ∷ rs)
        (g >>= λ ports. f >>= λ cs. ret (record { hosts = r.hosts; ports = ports } ∷ cs))
Converted-cons r rs (ret ps) (ret cs) p c = one_config r _ rs cs refl p c
Converted-cons r rs (ret ps) panic p c = inr c
Converted-cons r rs panic f p c = inl p

to_configs-Converted : (rs : List EgressRule) → Converted rs (to_configs rs)
unfolding to_configs
to_configs-Converted [] = no_configs
to_configs-Converted (r ∷ rs) =
    Converted-cons r rs (copy_ports r.ports) (to_configs rs) (copy_ports-Copied r.ports)
      (to_configs-Converted rs)

Configs-valid :
    {rs : List EgressRule} {cs : List EgressConfig}
    → Configs rs cs
    → all valid_rule rs ≡ true
    → all valid_config cs ≡ true
unfolding valid_rule
Configs-valid no_configs v = refl
Configs-valid (one_config r c rs cs h p d) v =
    let ih = Configs-valid d (ground arith) in
    let valid : all valid_host c.hosts ≡ true = ap (all valid_host) h ∙ (ground arith) in
    ground (arith, ih, valid)

pub all-append :
    {A : Type 0} (p : A → Bool) (xs ys : List A)
    → all p xs ≡ true
    → all p ys ≡ true
    → all p (xs ++ ys) ≡ true
all-append p [] ys a b = b
all-append p (x ∷ xs) ys a b = ground (arith, all-append p xs ys)

pub validate-flatten :
    (m : Rules) → validate_egress_rule m ≡ true → all valid_rule (flatten m) ≡ true
unfolding validate_egress_rule flatten
validate-flatten [] v = refl
validate-flatten ((k, rs) ∷ m) v =
    all-append valid_rule rs (flatten m) (ground arith) (validate-flatten m (ground arith))

-- `Match` on these rules: the first rule with a host that matches, of the rules with their ports copied;
-- or a panic at a nil port.
abbrev pub Matched :
    (Text → Text → Bool) → Text → List EgressRule → Go (Option EgressConfig) → Type 0
Matched match_string hostname rs (ret o) =
    (cs : List EgressConfig) × Configs rs cs × FirstMatch match_string hostname cs o
Matched match_string hostname rs panic = HasNilPort rs

match_rules-Matched :
    (match_string : Text → Text → Bool) (hostname : Text) (rs : List EgressRule)
    (g : Go (List EgressConfig))
    → all valid_rule rs ≡ true
    → Converted rs g
    → Matched match_string hostname rs (g >>= λ cs. match_rules match_string cs hostname)
match_rules-Matched match_string hostname rs (ret cs) v c =
    let (o, e, first) = match_rules-Finds match_string hostname cs (Configs-valid c v) in
    subst (Matched match_string hostname rs) (sym e) (cs, c, first)
match_rules-Matched match_string hostname rs panic v c = c

-- On rules that were validated, without a control panel, `Match` panics only if a rule has a nil port,
-- and else it returns the first rule in the order of the map that has a host that matches, or no rule
-- where none has.
pub match_host_lem :
    (match_string : Text → Text → Bool) (m : Rules) (hostname : Text)
    → validate_egress_rule m ≡ true
    → Matched match_string hostname (flatten m) (match_host match_string none m hostname)
match_host_lem match_string m hostname v =
    match_rules-Matched match_string hostname (flatten m) (to_configs (flatten m))
      (validate-flatten m v) (to_configs-Converted (flatten m))
