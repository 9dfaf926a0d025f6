-- ===== src/Examples/Egress.antt =====
-- The theorems on egress rules at concrete values.
use mesher.Prelude.{subst, ℕ, ◌≡◌, refl, [], ◌∷◌, Option, none, some, Bool, true, arith}
use mesher.Prelude.Text.{Text, codes, text_eq}
use mesher.Prelude.Split.{split}
use mesher.Egress.{
  EgressRule, Rules, is_alnum, is_label_char, label_rest, dns1123_label_regexp, starred_label,
  some_suffix, starts_with_star, wildcard_prefix_regexp, is_wildcard_dns1123_label,
  is_dns1123_label, validate_dns1123_labels, split_first_dot, validate_host_name, valid_rule,
  validate_egress_rule, flatten, match_host,
}
use mesher.Egress.Matching.{Matched}
use mesher.Egress.Archaius.{refresh}
use mesher.Egress.Store.{Reachable, initial, refreshed, match_host-Reachable}

-- A stand-in for regexp that knows one pattern.
abbrev one_pattern : Text → Text → Bool
one_pattern pattern s = text_eq pattern (codes ".org$")

abbrev rule : EgressRule
rule = record {
  hosts = codes "a.com" ∷ codes "*.org" ∷ [];
  ports = some (record { port = 80; protocol = codes "http" }) ∷ [];
}

abbrev rules : Rules
rules = (codes "svc", rule ∷ []) ∷ []

rules-valid : validate_egress_rule rules ≡ true
unfolding validate_egress_rule valid_rule validate_host_name is_wildcard_dns1123_label
    wildcard_prefix_regexp starred_label dns1123_label_regexp label_rest some_suffix
    starts_with_star is_label_char is_alnum split_first_dot validate_dns1123_labels is_dns1123_label
    split
rules-valid = refl

abbrev get : Text → Option ℕ
get key = some 0

abbrev unmarshal : ℕ → Option Rules
unmarshal v = some rules

rules-refreshed : (refresh rules []).0 ≡ rules
unfolding refresh
rules-refreshed = ground (arith, rules-valid)

rules-Reachable : Reachable get unmarshal rules
rules-Reachable = subst (Reachable get unmarshal) rules-refreshed (refreshed rules [] initial)

match_host-Reachable_example :
    Matched one_pattern
      (codes "a.com")
      (flatten rules)
      (match_host one_pattern none rules (codes "a.com"))
match_host-Reachable_example =
    match_host-Reachable get unmarshal one_pattern (codes "a.com") rules-Reachable
