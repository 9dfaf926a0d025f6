-- ===== src/Wire/Bytes.antt =====
-- protocol/dubbo/utils/bytes.go. Integers are two's complement patterns: an int64 is a number below
-- 2 ^ 64, an int32 one below 2 ^ 32. An index out of range panics.
pub mod Stores
pub mod RoundTrip
use Prim.Native.Nat.{bit_and}
use mesher.Prelude.{ℕ, ◌+◌, ◌*◌, ◌/◌, ◌%◌, ◌^◌, ◌<◌, List}
use mesher.Prelude.Text.{Text}
use mesher.Prelude.Go.{Go, ret, panic, ◌>>=◌, load, store}

abbrev pub IsByte : ℕ → Type 0
IsByte b = b < 256

-- `byte(v >> k)`
abbrev pub byte_at : ℕ → ℕ → ℕ
byte_at v k = v / 2 ^ k % 256

-- The sum as it is written: the third and the fourth byte are added with no shift.
unfoldable pub bytes2long : List ℕ → ℕ → Go ℕ
bytes2long b off = do
  b0 ← load b (off + 0)
  b1 ← load b (off + 1)
  b2 ← load b (off + 2)
  b3 ← load b (off + 3)
  b4 ← load b (off + 4)
  b5 ← load b (off + 5)
  b6 ← load b (off + 6)
  b7 ← load b (off + 7)
  ret ((b0 * 2 ^ 56 + b1 * 2 ^ 48 + b2 + b3 + b4 * 2 ^ 24 + b5 * 2 ^ 16 + b6 * 2 ^ 8 + b7) % 2 ^ 64)

unfoldable pub long2bytes : ℕ → List ℕ → ℕ → Go (List ℕ)
long2bytes i b off = do
  b ← store b (off + 7) (byte_at i 0)
  b ← store b (off + 6) (byte_at i 8)
  b ← store b (off + 5) (byte_at i 16)
  b ← store b (off + 4) (byte_at i 24)
  b ← store b (off + 3) (byte_at i 32)
  b ← store b (off + 2) (byte_at i 40)
  b ← store b (off + 1) (byte_at i 48)
  store b (off + 0) (byte_at i 56)

unfoldable pub short2bytes : ℕ → List ℕ → ℕ → Go (List ℕ)
short2bytes value b off = do
  b ← store b (off + 1) (byte_at value 0)
  store b (off + 0) (byte_at value 8)

-- Both operands of the sum are bytes, so the shift by 8 leaves nothing of the high one.
unfoldable pub bytes2short : List ℕ → ℕ → Go ℕ
bytes2short b off = do
  lo ← load b (off + 1)
  hi ← load b (off + 0)
  ret ((bit_and lo 0xff * 2 ^ 0 % 256 + hi * 2 ^ 8 % 256) % 256 % 2 ^ 16)

-- `uint32(value)` of an int given by its pattern
unfoldable pub int2bytes : ℕ → List ℕ → ℕ → Go (List ℕ)
int2bytes value b off =
    let v = value % 2 ^ 32 in
    do
      b ← store b (off + 3) (byte_at v 0)
      b ← store b (off + 2) (byte_at v 8)
      b ← store b (off + 1) (byte_at v 16)
      store b (off + 0) (byte_at v 24)

unfoldable pub bytes2int : List ℕ → ℕ → Go ℕ
bytes2int b off = do
  b0 ← load b (0 + off)
  b1 ← load b (1 + off)
  b2 ← load b (2 + off)
  b3 ← load b (3 + off)
  ret ((b0 * 2 ^ 24 + b1 * 2 ^ 16 + b2 * 2 ^ 8 + b3) % 2 ^ 32)
