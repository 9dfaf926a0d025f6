-- ===== src/Egress.antt =====
-- pkg/egress/egress.go and egress_config.go, config/egress.go: the rules that say which hosts outside
-- the mesh may be called, their validation, and the match of a host name against them. A rule map is
-- an association list in the order a `range` visits it; the pointers to rules are not nil (the
-- validation panics on a nil rule), those to ports may be.
-- `regexp.MatchString` at a pattern of the configuration is a parameter.
pub mod Labels
pub mod Matching
pub mod Archaius
pub mod Store
pub mod Pilot
use mesher.Prelude.{
  ℕ, List, [], ◌∷◌, ◌++◌, Option, none, some, Bool, true, false, ◌&&◌, ◌||◌, length, any, all, ltb,
  leb, ◌==◌, if◌then◌else◌,
}
use mesher.Prelude.Text.{Text, Table, codes, text_eq, is_empty}
use mesher.Prelude.Split.{split}
use mesher.Prelude.Go.{Go, ret, panic, ◌>>=◌}

pub record EgressPort : Type 0 where
  pub port : ℕ
  pub protocol : Text

pub record EgressRule : Type 0 where
  pub hosts : List Text
  pub ports : List (Option EgressPort)

-- `control.EgressConfig`, whose ports are pointers to copies
pub record EgressConfig : Type 0 where
  pub hosts : List Text
  pub ports : List EgressPort

abbrev pub Rules : Type 0
Rules = Table (List EgressRule)

abbrev pub star : ℕ
star = 42

abbrev pub dot : ℕ
dot = 46

abbrev pub dns1123_label_max_length : ℕ
dns1123_label_max_length = 63

abbrev pub default_egress_type : Text
default_egress_type = codes "cse"

abbrev pub get_egress_type : Text → Text
get_egress_type infra = if is_empty infra then default_egress_type else infra

-- [a-zA-Z0-9]
unfoldable pub is_alnum : ℕ → Bool
is_alnum c = (leb 97 c && leb c 122) || ((leb 65 c && leb c 90) || (leb 48 c && leb c 57))

-- [-a-z-A-Z0-9]
unfoldable pub is_label_char : ℕ → Bool
unfolding is_alnum
is_label_char c = c == 45 || is_alnum c

-- ([-a-z-A-Z0-9]*[a-zA-Z0-9])?$
unfoldable pub label_rest : Text → Bool
label_rest [] = true
label_rest (c ∷ []) = is_alnum c
label_rest (c ∷ d ∷ s) = is_label_char c && label_rest (d ∷ s)

-- `dns1123LabelRegexp`: ^[a-zA-Z0-9]([-a-z-A-Z0-9]*[a-zA-Z0-9])?$
unfoldable pub dns1123_label_regexp : Text → Bool
dns1123_label_regexp [] = false
dns1123_label_regexp (c ∷ s) = is_alnum c && label_rest s

-- (\*)? and a label, as a whole text
unfoldable pub starred_label : Text → Bool
unfolding dns1123_label_regexp
starred_label [] = false
starred_label (c ∷ s) = dns1123_label_regexp (c ∷ s) || (c == star && dns1123_label_regexp s)

-- Whether a suffix of the text satisfies the test: a pattern with `$` and without `^`.
unfoldable pub some_suffix : (Text → Bool) → Text → Bool
some_suffix p [] = p []
some_suffix p (c ∷ s) = p (c ∷ s) || some_suffix p s

unfoldable pub starts_with_star : Text → Bool
starts_with_star [] = false
starts_with_star (c ∷ s) = c == star

-- `wildcardPrefixRegexp`: ^\*|(\*)?label$, where `^` belongs to the first alternative and `$` to the
-- second
unfoldable pub wildcard_prefix_regexp : Text → Bool
unfolding starred_label
wildcard_prefix_regexp s = starts_with_star s || some_suffix starred_label s

unfoldable pub is_wildcard_dns1123_label : Text → Bool
is_wildcard_dns1123_label s = leb (length s) dns1123_label_max_length && wildcard_prefix_regexp s

unfoldable pub is_dns1123_label : Text → Bool
is_dns1123_label s = leb (length s) dns1123_label_max_length && dns1123_label_regexp s

-- `validateDNS1123Labels(host) == nil`
unfoldable pub validate_dns1123_labels : Text → Bool
validate_dns1123_labels host = all is_dns1123_label (split dot host)

-- `strings.SplitN(host, ".", 2)`: the text before the first dot, and what follows it
unfoldable pub split_first_dot : Text → Text × Option Text
split_first_dot [] = ([], none)
split_first_dot (c ∷ s) =
    let rest = split_first_dot s in if c == dot then ([], some s) else (c ∷ rest.0, rest.1)

pub data HostError : Type 0 where
  too_long : HostError
  empty_host : HostError
  invalid_label : HostError

abbrev pub rest_error : Option Text → Option HostError
rest_error none = none
rest_error (some labels) = if validate_dns1123_labels labels then none else some invalid_label

-- `none` is the nil error.
unfoldable pub validate_host_name : Text → Option HostError
unfolding is_wildcard_dns1123_label split_first_dot
validate_host_name host =
    let parts = split_first_dot host in
    if ltb 255 (length host)
    then some too_long
    else (if is_empty host
        then some empty_host
        else (if is_wildcard_dns1123_label parts.0 then rest_error parts.1 else some invalid_label))

abbrev pub is_nil_error : Option HostError → Bool
is_nil_error none = true
is_nil_error (some e) = false

abbrev pub valid_host : Text → Bool
valid_host host = is_nil_error (validate_host_name host)

abbrev pub has_hosts : List Text → Bool
has_hosts [] = false
has_hosts (h ∷ hs) = true

-- The body of the loop over the rules: at least one host, and every host is valid.
unfoldable pub valid_rule : EgressRule → Bool
unfolding validate_host_name
valid_rule r = has_hosts r.hosts && all valid_host r.hosts

unfoldable pub validate_egress_rule : Rules → Bool
unfolding valid_rule
validate_egress_rule [] = true
validate_egress_rule ((k, rs) ∷ m) = all valid_rule rs && validate_egress_rule m

-- The rules that `Match` walks through: those of the control panel if there is one, else those of
-- the configuration in the order of the map.
unfoldable pub flatten : Rules → List EgressRule
flatten [] = []
flatten ((k, rs) ∷ m) = rs ++ flatten m

-- The loop over the ports: a nil port panics.
unfoldable pub copy_ports : List (Option EgressPort) → Go (List EgressPort)
copy_ports [] = ret []
copy_ports (none ∷ ps) = panic
copy_ports (some p ∷ ps) = copy_ports ps >>= λ qs. ret (p ∷ qs)

unfoldable pub to_configs : List EgressRule → Go (List EgressConfig)
unfolding copy_ports
to_configs [] = ret []
to_configs (r ∷ rs) = do
  ports ← copy_ports r.ports
  cs ← to_configs rs
  ret (record { hosts = r.hosts; ports = ports } ∷ cs)

abbrev pub egress_rules : Option (List EgressConfig) → Rules → Go (List EgressConfig)
egress_rules (some panel) m = ret panel
egress_rules none m = to_configs (flatten m)

module _ (match_string : Text → Text → Bool) where
  -- The test of one host; the empty host indexes out of range in the second condition.
  unfoldable pub host_matches : Text → Text → Go Bool
  host_matches [] hostname = panic
  host_matches (c ∷ s) hostname =
      if c == star
      then ret (match_string (s ++ (36 ∷ [])) hostname)
      else ret (text_eq (c ∷ s) hostname)

  unfoldable pub match_hosts : List Text → Text → Go Bool
  match_hosts [] hostname = ret false
  match_hosts (h ∷ hs) hostname =
      host_matches h hostname >>= λ found. if found then ret true else match_hosts hs hostname

  unfoldable pub match_rules : List EgressConfig → Text → Go (Option EgressConfig)
  match_rules [] hostname = ret none
  match_rules (r ∷ rs) hostname = match_hosts r.hosts hostname >>= λ found.
      if found then ret (some r) else match_rules rs hostname

  -- `some r` stands for the result `true, &r`.
  abbrev pub match_host : Option (List EgressConfig) → Rules → Text → Go (Option EgressConfig)
  match_host panel m hostname = egress_rules panel m >>= λ cs. match_rules cs hostname
