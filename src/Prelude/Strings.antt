-- ===== src/Prelude/Strings.antt =====
-- The functions of strings, fmt and net/textproto that the code uses, on ASCII texts.
use Prim.Native.Nat.{ℕ, zero, suc, ◌+◌, ◌-◌, ◌/◌, ◌%◌}
use mathlib.Core.Bool.{Bool, true, false, ◌&&◌}
use mathlib.Core.List.{[], ◌∷◌}
use mesher.Prelude.Tests.{leb, ltb, ◌==◌, if◌then◌else◌}
use mesher.Prelude.Text.{Text}

-- The decimal digits of a number below 10 ^ 20, in front of a text.
digits : ℕ → ℕ → Text → Text
digits zero n acc = acc
digits (suc fuel) n acc =
    let acc' = (48 + n % 10) ∷ acc in
    let rest = digits fuel (n / 10) acc' in if ltb n 10 then acc' else rest

-- `fmt.Sprintf("%d", n)`
unfoldable pub sprint_d : ℕ → Text
unfolding digits
sprint_d n = digits 20 n []

-- `strings.ToUpper` of a byte, and of a text
abbrev pub upper : ℕ → ℕ
upper c = if leb 97 c && leb c 122 then c - 32 else c

unfoldable pub to_upper : Text → Text
to_upper [] = []
to_upper (c ∷ s) = upper c ∷ to_upper s

abbrev pub lower : ℕ → ℕ
lower c = if leb 65 c && leb c 90 then c + 32 else c

-- `http.CanonicalHeaderKey` of a valid key: an upper case letter in front and after each dash.
unfoldable pub canonical : Bool → Text → Text
canonical up [] = []
canonical up (c ∷ s) = (if up then upper c else lower c) ∷ canonical (c == b'-') s

unfoldable pub canonical_header_key : Text → Text
unfolding canonical
canonical_header_key k = canonical true k

-- `strings.EqualFold`
unfoldable pub equal_fold : Text → Text → Bool
equal_fold [] [] = true
equal_fold [] (d ∷ t) = false
equal_fold (c ∷ s) [] = false
equal_fold (c ∷ s) (d ∷ t) = upper c == upper d && equal_fold s t
