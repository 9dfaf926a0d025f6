-- ===== src/Policy.antt =====
-- util/compare.go: whether an invocation falls under a policy. The route tags' methods `AppID` and
-- `Version` are go-chassis's, so their results are fields here.
pub mod Meaning
use mesher.Prelude.{List, [], ◌∷◌, Option, none, some, Bool, true, false, ◌&&◌, if◌then◌else◌}
use mesher.Prelude.Text.{Text, Table, codes, text_eq, is_empty, lookup}
use mesher.Prelude.Maps.{all_entries}
use mesher.Wire.Object.{Object, text}

abbrev pub default_app : Text
default_app = codes "default"

abbrev pub default_version : Text
default_version = codes "0.0.1"

abbrev pub built_in_tag_app : Text
built_in_tag_app = codes "app"

abbrev pub built_in_tag_version : Text
built_in_tag_version = codes "version"

pub record Invocation : Type 0 where
  pub micro_service_name : Text
  pub app_id : Text
  pub version : Text
  pub metadata : Table Object

pub record Policy : Type 0 where
  pub destination : Text
  pub tags : Table Text
  pub load_balancing : Table Text

abbrev pub or_default : Text → Text → Text
or_default default v = if is_empty v then default else v

-- `v == s` for an interface and a string, and `_, ok := t.(string)`
unfoldable pub equals_text : Object → Text → Bool
equals_text (text s) t = text_eq s t
equals_text v t = false

unfoldable pub is_text : Object → Bool
is_text (text s) = true
is_text v = false

-- `t, ok := inv.Metadata[k]` and then the test that t is a string
unfoldable pub found : Option Object → Bool
unfolding is_text
found none = false
found (some t) = is_text t

-- The body of the loop over the tags: false where the function returns false.
unfoldable pub tag_holds : Invocation → Text → Text → Bool
unfolding found
tag_holds inv k v =
    if text_eq k built_in_tag_app
    then text_eq (or_default default_app v) inv.app_id
    else (if text_eq k built_in_tag_version
        then text_eq (or_default default_version v) inv.version
        else found (lookup k inv.metadata))

-- The body of the loop over the metadata. A missing tag reads as the empty string.
abbrev pub tag_of : Policy → Text → Text
tag_of p k = elim (lookup k p.tags) [ none ↦ [] | some v ↦ v ]

unfoldable pub metadata_holds : Policy → Text → Object → Bool
unfolding equals_text
metadata_holds p k v = equals_text v (tag_of p k)

unfoldable pub equal_policy : Invocation → Policy → Bool
unfolding tag_holds metadata_holds
equal_policy inv p =
    if text_eq inv.micro_service_name p.destination
    then all_entries (tag_holds inv) p.tags && all_entries (metadata_holds p) inv.metadata
    else false
