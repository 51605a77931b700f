-- ===== src/Buffer.antt =====
-- The byte buffers that Marshal writes into: Go's index, slice and copy expressions, and
-- encoding/binary's little-endian writes.
pub mod Writes
use go_ssz.Prelude.{ℕ, zero, suc, ◌+◌, ◌/◌, ◌%◌, List, [], ◌∷◌, if◌then◌else◌, leb}
use go_ssz.Prelude.{length, Result, ok, panic}

abbrev pub Buf : Type 0
Buf = List ℕ

-- The lowest `w` bytes of a number, lowest first (binary.LittleEndian).
unfoldable pub le_bytes : ℕ → ℕ → Buf
le_bytes zero n = []
le_bytes (suc w) n = (n % 256) ∷ le_bytes w (n / 256)

-- What a copy into `buf[off:]` leaves: bytes past the end are not written.
unfoldable pub copy_into : Buf → ℕ → Buf → Buf
copy_into [] off bs = []
copy_into (x ∷ xs) (suc off) bs = x ∷ copy_into xs off bs
copy_into (x ∷ xs) zero [] = x ∷ xs
copy_into (x ∷ xs) zero (b ∷ bs) = b ∷ copy_into xs zero bs

-- A write that panics unless all of it lies inside: `buf[off] = b`, PutUint16(buf[off:], n), and
-- copy(buf[off:off+n], bs) with n bytes.
unfoldable pub put_bytes : Buf → ℕ → Buf → Result Buf
unfolding copy_into
put_bytes buf off bs =
    if leb (off + length bs) (length buf) then ok (copy_into buf off bs) else panic

-- copy(buf[off:], bs)
unfoldable pub copy_bytes : Buf → ℕ → Buf → Result Buf
unfolding copy_into
copy_bytes buf off bs = if leb off (length buf) then ok (copy_into buf off bs) else panic
