-- ===== src/Tests/Roots.antt =====
-- Chunks, roots and layers at concrete values, with stand-ins for the hash and the cache.
use go_ssz.Prelude.{ℕ, ◌≡◌, refl, List, [], ◌∷◌, Option, none, ok, arith, inr}
use go_ssz.Buffer.{Buf}
use go_ssz.Marshal.{to_bytes32}
use go_ssz.Reflect.{Scalar, Val, type_of}
use go_ssz.Ssz.{Schema, Item, serialize, depth}
use go_ssz.Represents.{ValRep}
use go_ssz.Represents.Factory.{choice}
use go_ssz.Chunks.{pack, flatten}
use go_ssz.Chunks.Cut.{Packed}
use go_ssz.Chunks.Pack.{pack-Packed}
use go_ssz.Roots.{basic_root}
use go_ssz.Roots.Cached.{Keeps, IsValid, Hashes, basic_root-serialize}
use go_ssz.Roots.{string_root}
use go_ssz.Roots.Strings.{string_root-list_within}
use go_ssz.Ssz.Tree.{list_within}
use go_ssz.Prelude.{◌++◌, some}
use go_ssz.Chunks.Bitfields.{BitChunks, bitlist_root-list_within}
use go_ssz.Chunks.{bitlist_root}
use go_ssz.Chunks.Cut.{InChunks, padding}
use go_ssz.Represents.{ValsRep, byte_typ, byte_schema}
use go_ssz.Reflect.{Text, bytes_as_vals}
use go_ssz.Ssz.{Items}
use go_ssz.Layers.{recompute_root, pair_layer, merkleize}
use go_ssz.Layers.Recompute.{Layered, recompute_root-Layered}
use go_ssz.Layers.Built.{merkleize-Layered, padded}
use go_ssz.Tests.Values.{u16}

-- Stand-ins: the identity for SHA-256, the first leaf for Merkleize, a cache that keeps nothing.
abbrev sha : Buf → Buf
sha bs = bs

abbrev first_leaf : ℕ → ℕ → List Buf → Buf
first_leaf count limit [] = []
first_leaf count limit (c ∷ cs) = c

abbrev get : ℕ → Buf → Option Buf
get cache key = none

abbrev set : ℕ → Buf → Buf → ℕ
set cache key root = cache

pack-Packed_example : Packed (pack ((1 ∷ 2 ∷ []) ∷ (3 ∷ []) ∷ [])) (1 ∷ 2 ∷ 3 ∷ [])
unfolding flatten
pack-Packed_example = pack-Packed ((1 ∷ 2 ∷ []) ∷ (3 ∷ []) ∷ []) (inr (omega arith))

keeps_nothing : Keeps sha first_leaf get set
keeps_nothing cache key root k r h = cc

nothing_kept : IsValid sha first_leaf get set 7
nothing_kept k r h = cc

number_rep : ValRep (Val.num Scalar.uint16 258) u16 (Schema.uint 2) (Item.num 258)
number_rep = ValRep.uint refl (omega arith)

basic_root-serialize_example :
    Hashes sha first_leaf get set
      (basic_root sha first_leaf get set 30 7 (Val.num Scalar.uint16 258) u16)
      (serialize (Schema.uint 2) (Item.num 258))
unfolding type_of choice serialize
basic_root-serialize_example =
    basic_root-serialize sha first_leaf get set keeps_nothing number_rep refl refl (omega arith) 7
      nothing_kept 30 (unfold depth in omega arith)

layers_rep : Layered sha (1 ∷ 2 ∷ []) (((1 ∷ []) ∷ (2 ∷ []) ∷ []) ∷ ((1 ∷ 2 ∷ []) ∷ []) ∷ [])
unfolding pair_layer
layers_rep = Layered.above _ _ refl (Layered.top (1 ∷ 2 ∷ []))

recompute_root-Layered_example :
    (root : Buf) × (rest : List (List Buf)) × (recompute_root sha 1
        ((1 ∷ []) ∷ (5 ∷ []) ∷ [])
        (((1 ∷ []) ∷ (2 ∷ []) ∷ []) ∷ ((1 ∷ 2 ∷ []) ∷ []) ∷ [])
      ≡ ok (to_bytes32 root, ((1 ∷ []) ∷ (2 ∷ []) ∷ []) ∷ rest))
    × Layered sha root (((1 ∷ []) ∷ (5 ∷ []) ∷ []) ∷ rest)
recompute_root-Layered_example =
    recompute_root-Layered sha ((1 ∷ []) ∷ (2 ∷ []) ∷ []) (((1 ∷ 2 ∷ []) ∷ []) ∷ []) layers_rep 1
      (omega arith) ((1 ∷ []) ∷ (5 ∷ []) ∷ []) (5 ∷ []) refl

abbrev three : List Buf
three = (1 ∷ []) ∷ (2 ∷ []) ∷ (3 ∷ []) ∷ []

merkleize-Layered_example :
    (root : Buf) × (layers : List (List Buf)) × (merkleize sha 10 three
      ≡ ok (to_bytes32 root, padded three 4 ∷ layers))
    × Layered sha root (padded three 4 ∷ layers)
merkleize-Layered_example =
    merkleize-Layered sha three (omega arith) 2 (omega arith) (omega arith) (omega arith) 10
      (omega arith)

abbrev greeting : Text
greeting = b'h' ∷ b'i' ∷ []

greeting_rep :
    ValsRep
      (bytes_as_vals greeting)
      byte_typ
      byte_schema
      (Items.cons (Item.num 104) (Items.cons (Item.num 105) Items.nil))
greeting_rep =
    ValsRep.each (ValRep.uint refl (omega arith))
      (ValsRep.each (ValRep.uint refl (omega arith)) ValsRep.no_vals)

string_root-list_within_example :
    (chunks : List Buf) × InChunks chunks (greeting ++ padding 2)
    × (string_root sha first_leaf (Val.str greeting) 40 ≡ list_within sha first_leaf 2 2 chunks)
string_root-list_within_example =
    string_root-list_within sha first_leaf greeting greeting_rep (omega arith) 40 (omega arith)

-- A bitlist given by its number of bits and its bytes.
abbrev bits : ℕ × Buf
bits = (9, 255 ∷ 1 ∷ [])

abbrev bit_length : ℕ × Buf → ℕ
bit_length (n, bs) = n

abbrev bit_bytes : ℕ × Buf → Buf
bit_bytes (n, bs) = bs

bitlist_root-list_within_example :
    (chunks : List Buf) × BitChunks sha first_leaf bit_length bit_bytes (some bits) chunks
    × (bitlist_root sha first_leaf bit_length bit_bytes (some bits) 16
        ≡ list_within sha first_leaf 1 9 chunks)
bitlist_root-list_within_example =
    bitlist_root-list_within sha first_leaf bit_length bit_bytes (some bits) (omega arith) 16
      (omega arith)
