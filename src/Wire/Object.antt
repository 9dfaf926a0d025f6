-- ===== src/Wire/Object.antt =====
-- The values that a Go `interface{}` holds in protocol/dubbo, by their dynamic type.
use mesher.Prelude.{ℕ, List, Bool, true, false}
use mesher.Prelude.Text.{Text}

-- An integer is its bit pattern, and so is a float; `other` stands for a value of any further type: only its identity is used.
mutual
  pub data Object : Type 0 where
    nil : Object
    text : Text → Object
    int16 int32 int64 : ℕ → Object
    float32 float64 : ℕ → Object
    blob : List ℕ → Object
    array : Objects → Object
    dict : Entries → Object
    other : ℕ → Object

  pub data Objects : Type 0 where
    end : Objects
    item : Object → Objects → Objects

  pub data Entries : Type 0 where
    stop : Entries
    entry : Text → Object → Entries → Entries

unfoldable pub is_nil : Object → Bool
is_nil nil = true
is_nil other_value = false
