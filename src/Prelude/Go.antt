-- ===== src/Prelude/Go.antt =====
-- Go code that may panic: an index or a slice out of range, a failed type assertion, a nil pointer.
use Prim.Native.Nat.{ℕ, ◌-◌}
use mathlib.Core.Path.{◌≡◌, refl}
use mathlib.Core.List.{List}
use mathlib.Core.Option.{Option, none, some}
use mesher.Prelude.Tests.{leb, ltb, if◌then◌else◌}
use mesher.Prelude.Lists.{length, get_elem?, set, take, drop}

pub data Go {ℓ} (A : Type ℓ) : Type ℓ where
  ret : A → Go A
  panic : Go A

infixl 5 ◌>>=◌ ◌>>◌
abbrev pub ◌>>=◌ {ℓ κ} : {A : Type ℓ} {B : Type κ} → Go A → (A → Go B) → Go B
ret a >>= f = f a
panic >>= f = panic

abbrev pub ◌>>◌ {ℓ} : {B : Type ℓ} → Go (Unit {0}) → Go B → Go B
m >> k = m >>= λ _. k

abbrev pub from_option {ℓ} : {A : Type ℓ} → Option A → Go A
from_option none = panic
from_option (some a) = ret a

module _ {ℓ} {A : Type ℓ} where
  -- `b[i]`
  abbrev pub load : List A → ℕ → Go A
  load b i = from_option (get_elem? b i)

  -- `b[i] = v`
  abbrev pub store : List A → ℕ → A → Go (List A)
  store b i v = if ltb i (length b) then ret (set b i v) else panic

  -- `b[low:high]` of a slice whose capacity is its length
  abbrev pub slice : List A → ℕ → ℕ → Go (List A)
  slice b low high =
      if leb low high
      then (if leb high (length b) then ret (take (high - low) (drop low b)) else panic)
      else panic

  pub >>=-eq-ret {κ} :
      {B : Type κ} (m : Go A) (f : A → Go B) {b : B}
      → (m >>= f) ≡ ret b
      → (a : A) × (m ≡ ret a) × (f a ≡ ret b)
  >>=-eq-ret (ret a) f h = (a, refl, h)
  >>=-eq-ret panic f h = cc

  -- A property of runs holds of a bind if it holds of a panic and of every continuation.
  pub >>=-cases {κ μ} :
      {B : Type κ} (P : Go B → Type μ) (m : Go A) (f : A → Go B)
      → P panic
      → ((a : A) → m ≡ ret a → P (f a))
      → P (m >>= f)
  >>=-cases P (ret a) f p k = k a refl
  >>=-cases P panic f p k = p
