-- ===== src/Tests/HashTree.antt =====
-- Roots of values, with stand-ins for SHA-256, Merkleize and the caches.
use go_ssz.Prelude.{
  ℕ, ◌≡◌, refl, sym, ◌∙◌, arith, false, List, [], ◌++◌, none, length, take, replicate,
}
use go_ssz.Prelude.{
  append-nil, length-take, length-append, length-replicate, take-append, ap, subst,
}
use go_ssz.Buffer.{Buf}
use go_ssz.Reflect.{Scalar, Val, Vals, Typ, type_of, items, kind}
use go_ssz.Size.{is_basic_type}
use go_ssz.Tags.{
  is_metadata, has_prefix, determine_field_type, determine_field_capacity, parse_uint,
}
use go_ssz.Ssz.{Schema, Item, Items, serialize, is_variable}
use go_ssz.HashTree.Capped.{Caps, FieldCaps}
use go_ssz.Represents.{ValRep, ValsRep, TypeRep, OwnSize, AllOwnSize}
use go_ssz.Represents.Factory.{choice, array_choice}
use go_ssz.Represents.Capacities.{CapRep, FieldsCap, Metadata}
use go_ssz.Hashing.{Env, Caches}
use go_ssz.HashTree.Calls.{Laws, Merkleizes, IsSound}
use go_ssz.HashTree.RootVectors.{root_unique, Layered-to_bytes32}
use go_ssz.Layers.{merkleize}
use go_ssz.Layers.Built.{merkleize-Layered, length-padded}
use go_ssz.Marshal.{to_bytes32}
use go_ssz.Marshal.Bytes.{to_bytes32_lem}
use go_ssz.Prelude.{◌+◌, ◌*◌, ◌^◌, ◌∷◌, ◌==◌, ok, err, panic, stuck, Result}
use go_ssz.Tests.Values.{u16, fields, vals, schemas, xs}

-- The Merkle tree that the layers of an array of roots make
abbrev pub top_of : Result (Buf × List (List Buf)) → Buf
top_of (ok (root, built)) = to_bytes32 root
top_of _ = replicate 32 0

abbrev pub tree : List Buf → Buf
tree cs = top_of (merkleize to_bytes32 (2 * length cs + 2) cs)

abbrev pub env : Env
env = record {
  sha = to_bytes32;
  merkleize = λ n limit cs. tree (take n cs);
  get_depth = λ n. n;
  sum = to_bytes32;
  Cache = ℕ;
  get = λ cache key. none;
  set = λ cache key root. cache;
  Bitfield = ℕ;
  bit_length = λ b. b;
  bytes = λ b. b ∷ [];
  as_bitlist = λ v. none;
  is_bitvector4 = λ b. b == 4;
  type_name = λ fs. [];
  enable_cache = false;
}

length-to_bytes32 : (bs : Buf) → length (to_bytes32 bs) ≡ 32
unfolding to_bytes32
length-to_bytes32 bs = omega (
  arith,
  length-take 32 (bs ++ replicate 32 0),
  length-append bs (replicate 32 0),
  length-replicate {A = ℕ} 32 0,
)

take_all : (cs : List Buf) → take (length cs) cs ≡ cs
take_all cs =
    subst (λ (ds : List Buf). take (length cs) ds ≡ cs) (append-nil cs) (take-append cs [])

length-top_of : (r : Result (Buf × List (List Buf))) → length (top_of r) ≡ 32
length-top_of (ok (root, built)) = length-to_bytes32 root
length-top_of (err e) = refl
length-top_of panic = refl
length-top_of stuck = refl

tree_one : (c : Buf) → length c ≡ 32 → tree (c ∷ []) ≡ c
unfolding merkleize
tree_one c l = rw (to_bytes32_lem c l, to_bytes32_lem c l) refl

tree-Merkle : Merkleizes env
tree-Merkle cs k chunks m w l h root layers q =
    let (root', layers', e, q') =
      merkleize-Layered to_bytes32 cs m k w l h (2 * length cs + 2) (omega (arith, h)) in
    let r =
      Layered-to_bytes32 to_bytes32 length-to_bytes32 q'
        (omega (arith, m, l, length-padded cs (2 ^ k) l)) in
    subst (λ (l : List Buf). tree l ≡ root) (sym (take_all cs))
      (rw (e, r, r) (root_unique to_bytes32 q' q))

pub laws : Laws env
laws = record {
  keeps = λ cache key root k r h. cc;
  length_sha = length-to_bytes32;
  length_merkleize =
      λ n limit cs. length-top_of (merkleize to_bytes32 (2 * length (take n cs) + 2) (take n cs));
  first_leaves = λ limit cs ds. ap tree (take-append cs ds ∙ sym (take_all cs));
  one_leaf = tree_one;
  merkleizes = tree-Merkle;
  no_bitlist = λ v. refl;
  cache_off = refl;
}

pub numbers_cap :
    CapRep
      (Val.slice u16
        (Vals.cons (Val.num Scalar.uint16 3) (Vals.cons (Val.num Scalar.uint16 4) Vals.nil)))
      (Typ.slice u16)
      (Schema.list (Schema.uint 2))
      (Item.seq (Items.cons (Item.num 3) (Items.cons (Item.num 4) Items.nil)))
      Caps.open_end
unfolding is_basic_type kind items type_of
numbers_cap =
    CapRep.numbers refl refl (TypeRep.uint refl)
      (AllOwnSize.each (OwnSize.same refl) (AllOwnSize.each (OwnSize.same refl) AllOwnSize.no_vals))
      (ValsRep.each (ValRep.uint refl (omega arith))
        (ValsRep.each (ValRep.uint refl (omega arith)) ValsRep.no_vals))

-- The second field has the capacity 8.
abbrev pub caps : FieldCaps
caps = FieldCaps.cons 0 Caps.open_end (
    FieldCaps.cons 8 Caps.open_end
      (FieldCaps.cons 0 Caps.open_end (FieldCaps.cons 0 Caps.open_end FieldCaps.nil)))

pub fields_cap : FieldsCap fields vals schemas xs caps
unfolding is_metadata determine_field_type determine_field_capacity parse_uint type_of choice
    array_choice is_basic_type kind serialize is_variable has_prefix
fields_cap =
    FieldsCap.keep refl refl refl (omega arith)
      (CapRep.leaf (ValRep.uint refl (omega arith)) refl (OwnSize.same refl) (omega arith))
      (FieldsCap.keep refl refl refl (omega arith) numbers_cap (
        FieldsCap.keep refl refl refl (omega arith)
          (CapRep.leaf (ValRep.uint refl (omega arith)) refl (OwnSize.same refl) (omega arith))
          (FieldsCap.keep refl refl refl (omega arith)
            (CapRep.leaf
              (ValRep.byte_slice refl (
                ValsRep.each (ValRep.uint refl (omega arith))
                  (ValsRep.each (ValRep.uint refl (omega arith)) ValsRep.no_vals)))
              refl OwnSize.bytes (omega arith))
            (FieldsCap.finished (Metadata.more refl Metadata.no_more)))))

abbrev pub empty : Caches env
empty = record {
  basic = 0;
  arrays = 0;
  roots = 0;
  cached_leaves = λ name. none;
  layers = λ name. none;
}

pub empty-IsSound : IsSound env empty
empty-IsSound k r h = cc
