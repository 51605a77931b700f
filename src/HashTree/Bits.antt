-- ===== src/HashTree/Bits.antt =====
-- HashTreeRootBitfield of ssz.go.
use go_ssz.Prelude.{
  ℕ, ◌≡◌, refl, inl, inr, Bool-cases, Option, none, some, if◌then◌else◌, List, [], ◌∷◌, ◌++◌,
  append-nil, length, Result,
}
use go_ssz.Buffer.{Buf}
use go_ssz.Chunks.{flatten, bitvector4_root, bitwise_merkleize}
use go_ssz.Chunks.Cut.{InChunks, padding}
use go_ssz.Chunks.Pack.{pack-Packed, Packable-one}
use go_ssz.Prelude.{◌+◌, ◌/◌, ◌^◌, ◌<◌}
use go_ssz.Chunks.Bitfields.{BitChunks, bits_in, bitlist_root-list_within}
use go_ssz.Ssz.Tree.{within, list_within}
use go_ssz.Hashing.{Env}
use go_ssz.HashTree.{hash_tree_root_bitfield}

module _ (env : Env) where
  -- The chunks of a Bitvector4 hold its bytes and padding, and their root has a limit of one chunk and
  -- no length mixed in.
  abbrev VectorRoot : env.Bitfield → Result Buf → Type 0
  VectorRoot b r =
      (chunks : List Buf) × InChunks chunks (env.bytes b ++ padding (length (env.bytes b)))
      × (r ≡ within env.sha env.merkleize 1 chunks)

  abbrev ListRoot : Option env.Bitfield → ℕ → Result Buf → Type 0
  ListRoot b max r =
      (chunks : List Buf) × BitChunks env.sha env.merkleize env.bit_length env.bytes b chunks
      × (r
          ≡ list_within env.sha env.merkleize ((max + 255) / 256)
              (bits_in env.sha env.merkleize env.bit_length env.bytes b) chunks)

  abbrev pub BitsRoot : Option env.Bitfield → ℕ → Result Buf → Type 0
  BitsRoot none max r = ListRoot none max r
  BitsRoot (some b) max r = if env.is_bitvector4 b then VectorRoot b r else ListRoot (some b) max r

  vector-VectorRoot :
      (b : env.Bitfield)
      → VectorRoot b (bitvector4_root env.sha env.merkleize env.bit_length env.bytes (some b) 4)
  unfolding bitvector4_root bitwise_merkleize flatten
  vector-VectorRoot b =
      let (chunks, e, h) = pack-Packed (env.bytes b ∷ []) (Packable-one (env.bytes b)) in
      (chunks, (rw (append-nil (env.bytes b)) at h), rw e refl)

  -- HashTreeRootBitfield: of a Bitvector4 it is Merkleize of the chunks that hold the bytes, where that is one
  -- chunk, and the error for exceeding the limit elsewhere, whatever the capacity is. Of any other
  -- bitfield, and of nil, for a capacity that 255 more do not wrap and fewer than 2^64 bits, it is the root of
  -- a bitlist: the limit is the capacity in bits, rounded up to chunks of 256, and the number of bits is
  -- mixed in as a uint256.
  pub hash_tree_root_bitfield-BitsRoot :
      (b : Option env.Bitfield)
      → bits_in env.sha env.merkleize env.bit_length env.bytes b < 2 ^ 64
      → (max : ℕ) → max + 255 < 2 ^ 64
      → BitsRoot b max (hash_tree_root_bitfield env b max)
  unfolding hash_tree_root_bitfield
  hash_tree_root_bitfield-BitsRoot none n max h =
      bitlist_root-list_within env.sha env.merkleize env.bit_length env.bytes none n max h
  hash_tree_root_bitfield-BitsRoot (some b) n max h = elim (Bool-cases (env.is_bitvector4 b)) [
    | inl e ↦ rw e (vector-VectorRoot b)
    | inr e ↦
        rw e
          (bitlist_root-list_within env.sha env.merkleize env.bit_length env.bytes (some b) n max h)
  ]
