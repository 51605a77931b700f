-- ===== src/Chunks/Bitfields.antt =====
-- The root of a bitlist.
use go_ssz.Prelude.{ℕ, ◌≡◌, refl, inl, inr, List, [], ◌∷◌, ◌++◌, append-nil, length}
use go_ssz.Prelude.{if◌then◌else◌, ◌==◌, Bool-cases, Option, none, some, arith}
use go_ssz.Buffer.{Buf}
use go_ssz.Chunks.{
  flatten, bit_limit, empty_bitlist_root, full_bitlist_root, bitlist_root, length_chunk,
}
use go_ssz.Chunks.Cut.{InChunks, padding}
use go_ssz.Chunks.Pack.{pack-Packed, Packable-one}
use go_ssz.Chunks.Limited.{limited, limited_lem}
use go_ssz.Ssz.Tree.{list_within}
use go_ssz.Ssz.Lengths.{limited-list_within}
use go_ssz.Prelude.{◌+◌, ◌/◌, ◌^◌, ◌<◌, ap, ◌∙◌}

module _ (sha : Buf → Buf) (merkleize : ℕ → ℕ → List Buf → Buf) {Bitfield : Type 0}
    (bit_length : Bitfield → ℕ) (bytes : Bitfield → Buf) where
  abbrev pub bits_in : Option Bitfield → ℕ
  bits_in none = 0
  bits_in (some bits) = bit_length bits

  -- The chunks of a bitlist: none where it has no bits.
  abbrev pub BitChunks : Option Bitfield → List Buf → Type 0
  BitChunks none chunks = chunks ≡ []
  BitChunks (some bits) chunks =
      if bit_length bits == 0
      then chunks ≡ []
      else InChunks chunks (bytes bits ++ padding (length (bytes bits)))

  empty_lem :
      (max : ℕ)
      → empty_bitlist_root sha merkleize bit_length bytes max
        ≡ limited sha merkleize (bit_limit max) 0 []
  unfolding empty_bitlist_root length_chunk
  empty_lem max = limited_lem sha merkleize (bit_limit max) 0 []

  full_lem :
      (bits : Bitfield) (max : ℕ)
      → (chunks : List Buf) × InChunks chunks (bytes bits ++ padding (length (bytes bits)))
        × (full_bitlist_root sha merkleize bit_length bytes bits max
            ≡ limited sha merkleize (bit_limit max) (bit_length bits) chunks)
  unfolding full_bitlist_root flatten
  full_lem bits max =
      let (chunks, e, h) = pack-Packed (bytes bits ∷ []) (Packable-one (bytes bits)) in
      (
        chunks,
        (rw (append-nil (bytes bits)) at h),
        rw e (limited_lem sha merkleize (bit_limit max) (bit_length bits) chunks),
      )

  bitlist_root_chunks :
      (b : Option Bitfield) (max : ℕ)
      → (chunks : List Buf) × BitChunks b chunks
        × (bitlist_root sha merkleize bit_length bytes b max
            ≡ limited sha merkleize (bit_limit max) (bits_in b) chunks)
  unfolding bitlist_root
  bitlist_root_chunks none max = ([], refl, empty_lem max)
  bitlist_root_chunks (some bits) max = elim (Bool-cases (bit_length bits == 0)) [
    | inl e ↦
        let z : bit_length bits ≡ 0 = ground (arith, e) in rw e ([], refl, rw z (empty_lem max))
    | inr e ↦ rw e (full_lem bits max)
  ]

  -- BitlistRoot, of nil too, for a capacity that 255 more do not wrap and fewer than 2^64 bits: a bitlist
  -- without bits has no chunks, any other has the chunks that hold its bytes and padding. The limit
  -- is the capacity in bits, rounded up to chunks of 256. The root is SHA-256 of Merkleize of the
  -- chunks and the number of bits as a uint256, where the chunks are within that limit, and the error for
  -- exceeding it elsewhere.
  pub bitlist_root-list_within :
      (b : Option Bitfield)
      → bits_in b < 2 ^ 64
      → (max : ℕ) → max + 255 < 2 ^ 64
      → (chunks : List Buf) × BitChunks b chunks
        × (bitlist_root sha merkleize bit_length bytes b max
            ≡ list_within sha merkleize ((max + 255) / 256) (bits_in b) chunks)
  bitlist_root-list_within b n max h =
      let (chunks, i, e) = bitlist_root_chunks b max in
      let limit : bit_limit max ≡ (max + 255) / 256 = ground (arith, h) in
      (
        chunks,
        i,
        e
            ∙ ap (λ (l : ℕ). limited sha merkleize l (bits_in b) chunks) limit
            ∙ limited-list_within sha merkleize ((max + 255) / 256) (bits_in b) chunks n,
      )
