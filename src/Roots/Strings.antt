-- ===== src/Roots/Strings.antt =====
-- The root of a string.
use go_ssz.Prelude.{some, suc, ◌%◌, ◌^◌, ◌<◌, ◌≡◌, ◌≢◌, refl, ap, subst, inr, arith}
use go_ssz.Prelude.{List, [], ◌∷◌, ◌++◌, length, ok}
use go_ssz.Buffer.{Buf}
use go_ssz.Reflect.{Scalar, Val, Text, bytes_as_vals, count_vals, items}
use go_ssz.Marshal.{marshal_uint8, marshal_num}
use go_ssz.Chunks.{flatten}
use go_ssz.Chunks.Cut.{InChunks, padding}
use go_ssz.Chunks.Pack.{pack-Packed, first_item}
use go_ssz.Chunks.{item_limit}
use go_ssz.Chunks.Limited.{limited, limited_lem}
use go_ssz.Ssz.Tree.{list_within}
use go_ssz.Ssz.Lengths.{limited-list_within}
use go_ssz.Prelude.{ℕ, ◌+◌, ◌/◌, ◌∙◌, if◌then◌else◌, ◌==◌}
use go_ssz.Roots.{string_leaves, string_limit, string_root}
use go_ssz.Ssz.{Items}
use go_ssz.Represents.{ValRep, ValsRep, byte_typ, byte_schema, uint_width}

count_vals-bytes_as_vals : (cs : Text) → count_vals (bytes_as_vals cs) ≡ length cs
count_vals-bytes_as_vals [] = refl
count_vals-bytes_as_vals (c ∷ cs) = ap suc (count_vals-bytes_as_vals cs)

marshal_byte :
    (n : ℕ) → n < 256 → marshal_uint8 (Val.num Scalar.uint8 n) (0 ∷ []) 0 ≡ ok (n ∷ [], 1)
unfolding marshal_num
marshal_byte n h = let e : n % 256 ≡ n = omega (arith, h) in rw e refl

pub below : {c w : ℕ} → uint_width Scalar.uint8 ≡ some w → c < 256 ^ w → c < 256
below {c} {w} e h =
    let p : w ≡ 1 = cc in let b = subst (λ (k : ℕ). c < 256 ^ k) p h in omega (arith, b)

-- The leaves are the bytes one by one.
abbrev LeavesOf : Text → Type 0
LeavesOf cs =
    (leaves : List Buf) × (string_leaves (bytes_as_vals cs) ≡ ok leaves)
    × (flatten leaves ≡ cs)
    × (length (first_item leaves) ≢ 32)

string_leaves-flatten :
    (cs : Text) {xs : Items} → ValsRep (bytes_as_vals cs) byte_typ byte_schema xs → LeavesOf cs
unfolding string_leaves flatten
string_leaves-flatten [] r = ([], refl, refl, omega arith)
string_leaves-flatten (c ∷ cs) (ValsRep.each (ValRep.uint e h) rs) =
    let b = below e h in
    let (leaves, p, q, l) = string_leaves-flatten cs rs in
    ((c ∷ []) ∷ leaves, rw (marshal_byte c b, p) refl, rw q refl, omega arith)

module _ (sha : Buf → Buf) (merkleize : ℕ → ℕ → List Buf → Buf) where
  pub string_root_chunks :
      (cs : Text) {xs : Items}
      → ValsRep (bytes_as_vals cs) byte_typ byte_schema xs
      → (max : ℕ)
      → (chunks : List Buf) × InChunks chunks (cs ++ padding (length cs))
        × (string_root sha merkleize (Val.str cs) max
            ≡ limited sha merkleize (string_limit max) (length cs) chunks)
  unfolding string_root items
  string_root_chunks cs r max =
      let (leaves, p, q, l) = string_leaves-flatten cs r in
      let (chunks, e, h) = pack-Packed leaves (inr l) in
      (
        chunks,
        (rw q at h),
        rw (p, e, count_vals-bytes_as_vals cs)
            (limited_lem sha merkleize (string_limit max) (length cs) chunks),
      )

  -- stringSSZ.Root of a string of bytes, for a capacity that 31 more do not wrap and a length below 2^64:
  -- over the 32-byte chunks that hold the string and its padding, the limit is the capacity in bytes, rounded up
  -- to chunks, or one chunk for the capacity 0. The root is SHA-256 of Merkleize of the chunks
  -- and the length of the string as a uint256, where the chunks are within that limit, and the error for
  -- exceeding it elsewhere.
  pub string_root-list_within :
      (cs : Text) {xs : Items}
      → ValsRep (bytes_as_vals cs) byte_typ byte_schema xs
      → length cs < 2 ^ 64
      → (max : ℕ) → max + 31 < 2 ^ 64
      → (chunks : List Buf) × InChunks chunks (cs ++ padding (length cs))
        × (string_root sha merkleize (Val.str cs) max
            ≡ list_within sha merkleize
                (if max == 0 then 1 else (max + 31) / 32)
                (length cs)
                chunks)
  unfolding string_limit item_limit
  string_root-list_within cs r n max h =
      let (chunks, i, e) = string_root_chunks cs r max in
      let limit : string_limit max ≡ (if max == 0 then 1 else (max + 31) / 32) =
        ground (arith, h) in
      (
        chunks,
        i,
        e
            ∙ ap (λ (l : ℕ). limited sha merkleize l (length cs) chunks) limit
            ∙ limited-list_within sha merkleize (if max == 0 then 1 else (max + 31) / 32)
                (length cs) chunks n,
      )
