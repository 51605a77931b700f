-- ===== src/Input.antt =====
-- What the Unmarshal methods read: a Go byte slice with its length and the bytes up to its capacity,
-- and encoding/binary's little-endian reads.
use go_ssz.Prelude.{ℕ, ◌+◌, ◌-◌, ◌*◌, ◌&&◌, [], ◌∷◌, if◌then◌else◌, leb, ltb, length, take, drop}
use go_ssz.Prelude.{get_elem?, found, Result, ok, panic, ◌>>=◌}
use go_ssz.Buffer.{Buf}
use go_ssz.Size.{◌+u64◌}

pub record Input : Type 0 where
  pub bytes : Buf
  pub len : ℕ

-- `input[a:b]`; `b` may lie behind the length, up to the capacity.
unfoldable pub slice_input : Input → ℕ → ℕ → Result Input
slice_input input a b =
    if leb a b && leb b (length input.bytes)
    then ok (record { bytes = drop a input.bytes; len = b - a })
    else panic

-- `input[i]`
unfoldable pub byte_at : Input → ℕ → Result ℕ
byte_at input i = if ltb i input.len then found (get_elem? input.bytes i) else panic

-- The bytes that a slice shows.
abbrev pub shown : Input → Buf
shown input = take input.len input.bytes

-- The number that bytes stand for, lowest first.
abbrev pub le_value : Buf → ℕ
le_value [] = 0
le_value (b ∷ bs) = b + 256 * le_value bs

-- A number in `input[start:start+w]`
unfoldable pub read_le : Input → ℕ → ℕ → Result ℕ
unfolding slice_input
read_le input start w = slice_input input start (start +u64 w) >>= λ s. ok (le_value (shown s))
