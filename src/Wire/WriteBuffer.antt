-- ===== src/Wire/WriteBuffer.antt =====
-- protocol/dubbo/utils/buffer.go, the type WriteBuffer. Indices are the non-negative ints that the
-- callers pass.
pub mod Stream
use mesher.Prelude.{
  ℕ, zero, suc, ◌+◌, ◌-◌, ◌≤◌, ◌≡◌, List, [], ◌∷◌, ◌++◌, Option, none, some, Bool, true, false,
  length, take, drop, replicate, ltb, leb, ◌==◌, if◌then◌else◌,
}
use mesher.Prelude.Go.{Go, ret, panic, ◌>>=◌, slice}
use mesher.Wire.Object.{Object, int32}
use mesher.Wire.Hessian.{Hessian, Encoder, finish, write, WriteError, not_enough_space, index_over}

abbrev pub default_grow_size : ℕ
default_grow_size = 4096

abbrev pub default_buffer_size : ℕ
default_buffer_size = 1024

pub record WriteBuffer : Type 0 where
  pub buffer : List ℕ
  pub wr_ind : ℕ
  pub capacity : ℕ

unfoldable pub init : ℕ → WriteBuffer
init size =
    let size = if size == 0 then default_buffer_size else size in
    record { buffer = replicate size 0; wr_ind = 0; capacity = size }

-- `copy(dst, src)` writes as many bytes as both have.
unfoldable pub overwrite : List ℕ → List ℕ → List ℕ
overwrite [] src = []
overwrite (d ∷ dst) [] = d ∷ dst
overwrite (d ∷ dst) (s ∷ src) = s ∷ overwrite dst src

-- `copy(dst[at:], src)`
unfoldable pub copy_at : List ℕ → ℕ → List ℕ → Go (List ℕ)
copy_at dst at src =
    if leb at (length dst) then ret (take at dst ++ overwrite (drop at dst) src) else panic

unfoldable pub grow : WriteBuffer → ℕ → Go WriteBuffer
grow b n =
    let m = b.capacity in
    if ltb m (b.wr_ind + n)
    then (do
      old ← slice b.buffer 0 b.wr_ind
      buf ← copy_at (replicate (m + n) 0) 0 old
      ret (record b { buffer = buf; capacity = m + n }))
    else ret b

unfoldable pub write_bytes : WriteBuffer → List ℕ → Go (ℕ × WriteBuffer)
write_bytes b src =
    let size = length src in
    do
      b ←
          if ltb b.capacity (b.wr_ind + size)
          then grow b (if ltb default_grow_size size then size else default_grow_size)
          else ret b
      buf ← copy_at b.buffer b.wr_ind src
      ret (size, record b { buffer = buf; wr_ind = b.wr_ind + size })

-- The method `Write`.
unfoldable pub write_to : WriteBuffer → List ℕ → Go (ℕ × Option WriteError × WriteBuffer)
write_to b p = do
  (result, b) ← write_bytes b p
  if ltb 0 result then ret (result, none, b) else ret (result, some not_enough_space, b)

unfoldable pub write_index : WriteBuffer → ℕ → Option WriteError × WriteBuffer
write_index b index =
    if leb index b.capacity
    then (none, record b { wr_ind = index })
    else (some (index_over index b.capacity), b)

-- The encoder's program run with the buffer as its writer.
unfoldable pub run_encoder : Encoder → WriteBuffer → Go (Option WriteError × WriteBuffer)
run_encoder (finish e) b = ret (e, b)
run_encoder (write p k) b = do (n, e, b) ← write_to b p; run_encoder (k n e) b

module _ (h : Hessian) where
  unfoldable pub write_object : WriteBuffer → Object → Go (Option WriteError × WriteBuffer)
  write_object b src = run_encoder (h.to_bytes2 src) b

  unfoldable pub write_byte : WriteBuffer → ℕ → Go (Option WriteError × WriteBuffer)
  write_byte b src = run_encoder (h.to_bytes2 (int32 src)) b

unfoldable pub written_bytes : WriteBuffer → ℕ
written_bytes b = b.wr_ind

unfoldable pub get_valid_data : WriteBuffer → Go (List ℕ)
get_valid_data b = slice b.buffer 0 b.wr_ind
