-- ===== src/Chunks.antt =====
-- types/helpers.go: the chunks and roots of Merkleization. SHA-256 and the function Merkleize of
-- zssz, which are not part of the repository, are parameters.
pub mod Cut
pub mod Pack
pub mod Limited
pub mod Bitfields
use go_ssz.Prelude.{ℕ, zero, suc, ◌-◌, ◌/◌, Bool, true, false, ◌&&◌, List, [], ◌∷◌, ◌++◌, ltb, ◌==◌}
use go_ssz.Prelude.{Option, none, some, length, take, drop, replicate, if◌then◌else◌}
use go_ssz.Prelude.{Result, ok, err, panic, ◌>>=◌, over_limit}
use go_ssz.Buffer.{Buf, le_bytes}
use go_ssz.Size.{◌+u64◌, ◌*u64◌}

abbrev pub bytes_per_chunk : ℕ
bytes_per_chunk = 32

unfoldable pub is_empty : Buf → Bool
is_empty [] = true
is_empty (b ∷ bs) = false

unfoldable pub all_empty : List Buf → Bool
unfolding is_empty
all_empty [] = true
all_empty (item ∷ items) = is_empty item && all_empty items

-- `orderedItems`
unfoldable pub flatten : List Buf → Buf
flatten [] = []
flatten (item ∷ items) = item ++ flatten items

-- The loop that cuts `orderedItems` at multiples of a chunk; `rest` is `orderedItems[i:]`, and the
-- number of items is fuel.
unfoldable pub cut_chunks : ℕ → Buf → List Buf
cut_chunks zero rest = []
cut_chunks (suc f) [] = []
cut_chunks (suc f) (b ∷ rest) =
    take bytes_per_chunk (b ∷ rest) ∷ cut_chunks f (drop bytes_per_chunk (b ∷ rest))

abbrev pub pad_chunk : Buf → Buf
pad_chunk c = c ++ replicate (bytes_per_chunk - length c) 0

-- `chunks[len(chunks)-1]`, padded
unfoldable pub pad_last : List Buf → Result (List Buf)
pad_last [] = panic
pad_last (c ∷ []) = ok (pad_chunk c ∷ [])
pad_last (c ∷ d ∷ cs) = pad_last (d ∷ cs) >>= λ ds. ok (c ∷ ds)

unfoldable pub pack : List Buf → Result (List Buf)
pack [] = ok (replicate bytes_per_chunk 0 ∷ [])
pack (item ∷ items) =
    if all_empty (item ∷ items)
    then ok (replicate bytes_per_chunk 0 ∷ [])
    else if length item == bytes_per_chunk
    then ok (item ∷ items)
    else pad_last (cut_chunks (length (flatten (item ∷ items))) (flatten (item ∷ items)))

-- limits in chunks: `(maxCapacity+255)/256` for bits, `(maxCapacity*elemSize+31)/32` for items
abbrev pub bit_limit : ℕ → ℕ
bit_limit max = (max +u64 255) / 256

unfoldable pub item_limit : ℕ → ℕ → ℕ
item_limit max elem_size = ((max *u64 elem_size) +u64 31) / 32

-- 32 bytes with the length in the first eight
unfoldable pub length_chunk : ℕ → Buf
unfolding le_bytes
length_chunk n = le_bytes 8 n ++ replicate 24 0

-- `sha` is SHA-256. `merkleize count limit leaves` is Merkleize of zssz with its first `count` leaves.
module _ (sha : Buf → Buf) (merkleize : ℕ → ℕ → List Buf → Buf) where
  unfoldable pub bitwise_merkleize : List Buf → ℕ → ℕ → Result Buf
  bitwise_merkleize chunks count limit =
      if ltb limit count then err over_limit else ok (merkleize count limit chunks)

  unfoldable pub mix_in_length : Buf → Buf → Buf
  mix_in_length root bs = sha (root ++ bs)

  -- What the Root methods do with the bytes that they have marshalled.
  unfoldable pub root_of_bytes : Buf → Result Buf
  root_of_bytes buf =
      pack (buf ∷ []) >>= λ chunks. bitwise_merkleize chunks (length chunks) (length chunks)

  -- A bitfield of go-bitfield, with its Len and Bytes; `none` is nil.
  module _ {Bitfield : Type 0} (bit_length : Bitfield → ℕ) (bytes : Bitfield → Buf) where
    unfoldable pub empty_bitlist_root : ℕ → Result Buf
    empty_bitlist_root max =
        bitwise_merkleize [] 0 (bit_limit max) >>= λ root. ok (mix_in_length root (replicate 32 0))

    unfoldable pub full_bitlist_root : Bitfield → ℕ → Result Buf
    full_bitlist_root bits max = pack (bytes bits ∷ []) >>= λ chunks.
        bitwise_merkleize chunks (length chunks) (bit_limit max) >>= λ root.
        ok (mix_in_length root (length_chunk (bit_length bits)))

    -- BitlistRoot
    unfoldable pub bitlist_root : Option Bitfield → ℕ → Result Buf
    bitlist_root none max = empty_bitlist_root max
    bitlist_root (some bits) max =
        if bit_length bits == 0 then empty_bitlist_root max else full_bitlist_root bits max

    -- Bitvector4Root
    unfoldable pub bitvector4_root : Option Bitfield → ℕ → Result Buf
    bitvector4_root none max = bitwise_merkleize [] 0 (bit_limit max)
    bitvector4_root (some bits) max = pack (bytes bits ∷ []) >>= λ chunks.
        bitwise_merkleize chunks (length chunks) (bit_limit max)
