-- ===== src/TypeUtil.antt =====
-- protocol/dubbo/utils/typeutil.go: type descriptors of a dubbo call. The regular expression of the
-- descriptors is a parameter, the function that lists its matches from left to right.
pub mod Descriptor
pub mod Values
use mesher.Prelude.{ℕ, ◌+◌, ◌<◌, List, [], ◌∷◌, ◌++◌, take, replicate, ◌==◌, if◌then◌else◌}
use mesher.Prelude.Text.{Text, is_empty}
use mesher.Prelude.Go.{Go, ret, panic, ◌>>=◌, store}
use mesher.Wire.Object.{Object, nil}
use mesher.Message.{Argument}

unfoldable pub get_java_desc : List Argument → Text
get_java_desc [] = []
get_java_desc (tmp ∷ args) = tmp.java_type ++ get_java_desc args

abbrev pub zero_argument : Argument
zero_argument = record { java_type = []; value = nil }

-- `Argument{string(match), nil}`
abbrev pub typed : Text → Argument
typed m = record { java_type = m; value = nil }

-- The loop over the matches: `i` counts them, and an index past the 64 entries panics.
unfoldable pub fill_matches : List Text → ℕ → List Argument → Go (List Argument × ℕ)
fill_matches [] i args = ret (args, i)
fill_matches (m ∷ matches) i args = do
  args ← store args i (typed m)
  fill_matches matches (i + 1) args

unfoldable pub type_des_to_args : (Text → List Text) → Text → Go (List Argument)
type_des_to_args find_all desc = if is_empty desc then ret (zero_argument ∷ []) else (do
  (args, i) ← fill_matches (find_all desc) 0 (replicate 64 zero_argument)
  if i == 64 then ret args else ret (take i args))
