-- ===== src/Tests/Trees.antt =====
-- The theorems on roots at concrete values.
use go_ssz.Prelude.{
  ℕ, zero, suc, ◌≡◌, refl, arith, List, [], ◌∷◌, none, some, length, replicate, Result, ok, err,
  panic, over_limit, ◌>>=◌, true,
}
use go_ssz.Buffer.{Buf}
use go_ssz.Reflect.{Scalar, Fields, Val, Vals, type_of, bytes_as_vals}
use go_ssz.Tags.{has_prefix, xxx}
use go_ssz.Ssz.{Schema, Item, Items, depth}
use go_ssz.Ssz.{is_variable, serialize}
use go_ssz.Prelude.{◌≤◌, ◌*◌, inl, subst}
use go_ssz.Ssz.Tree.{Limits, LimitList, FieldTreeRoots, but_last, but_last_item}
use go_ssz.HashTree.Capped.{Caps, but_last_caps}
use go_ssz.HashTree.Limits.{Takes, TakesFields, number_limit, IsClear}
use go_ssz.Represents.{ValRep, ValsRep, byte_typ, byte_schema}
use go_ssz.Represents.Capacities.{CapRep, Metadata}
use go_ssz.Hashing.{Caches}
use go_ssz.HashTree.{
  hash_tree_root, hash_tree_root_with_capacity, hash_tree_root_bitfield, signing_root,
}
use go_ssz.HashTree.Exported.{
  ReturnsRoot, hash_tree_root-ReturnsRoot, hash_tree_root_with_capacity-ReturnsRoot,
}
use go_ssz.HashTree.Ends.{EndsIn, Has32, hash_tree_root-EndsIn}
use go_ssz.HashTree.Bits.{BitsRoot, hash_tree_root_bitfield-BitsRoot}
use go_ssz.HashTree.Unique.{hash_tree_root_same}
use go_ssz.HashTree.Signing.{Signs, signing_root-ReturnsRoot}
use go_ssz.HashTree.Refusals.{
  all_but_last, hash_tree_root-string, signing_root-Metadata, hash_tree_root-metadata,
}
use go_ssz.Tests.Values.{u16, fields, vals, schemas, xs, name_xxx}
use go_ssz.Tests.HashTree.{env, laws, empty, empty-IsSound, numbers_cap, caps, fields_cap}

abbrev two_items : Item
two_items = Item.seq (Items.cons (Item.num 3) (Items.cons (Item.num 4) Items.nil))

-- The limits of the lists in the fields: the second has the capacity 8.
abbrev front_limits : LimitList → LimitList
front_limits rest =
    LimitList.cons Limits.none
      (LimitList.cons (Limits.list 8 LimitList.nil) (LimitList.cons Limits.none rest))

abbrev field_limits : LimitList
field_limits = front_limits (LimitList.cons Limits.none LimitList.nil)

numbers_taken :
    (max : ℕ)
    → 2 ≤ max
    → Takes
        (Schema.list (Schema.uint 2))
        Caps.open_end
        max
        two_items
        (Limits.list max LimitList.nil)
unfolding serialize is_variable
numbers_taken max h =
    let e : number_limit max 2 2 ≡ max = ground (arith, h) in
    let c : IsClear (number_limit max 2 2 * 2) (serialize (Schema.list (Schema.uint 2)) two_items) =
      inl (ground (arith, h)) in
    subst
      (λ (limit : ℕ).
        Takes (Schema.list (Schema.uint 2)) Caps.open_end max two_items
          (Limits.list limit LimitList.nil))
      e (Takes.numbers refl refl (omega arith) c)

fields_taken : TakesFields schemas caps xs field_limits
fields_taken = TakesFields.keep (Takes.packed refl) (
    TakesFields.keep (numbers_taken 8 (omega arith)) (
      TakesFields.keep (Takes.packed refl)
        (TakesFields.keep (Takes.packed refl) TakesFields.no_fields)))

front_taken :
    TakesFields
      (but_last schemas)
      (but_last_caps caps)
      (but_last_item xs)
      (front_limits LimitList.nil)
front_taken = TakesFields.keep (Takes.packed refl) (
    TakesFields.keep (numbers_taken 8 (omega arith))
      (TakesFields.keep (Takes.packed refl) TakesFields.no_fields))

hash_tree_root-ReturnsRoot_example :
    ReturnsRoot env
      (hash_tree_root env 30 (some (Val.struct fields vals)) empty)
      (Schema.container schemas)
      (Limits.all field_limits)
      (Item.seq xs)
unfolding type_of
hash_tree_root-ReturnsRoot_example =
    hash_tree_root-ReturnsRoot env laws (CapRep.struct fields_cap) (Takes.container fields_taken)
      refl 30 (unfold depth in omega arith) empty empty-IsSound

abbrev two_numbers : Val
two_numbers =
    Val.slice u16
      (Vals.cons (Val.num Scalar.uint16 3) (Vals.cons (Val.num Scalar.uint16 4) Vals.nil))

hash_tree_root_with_capacity-ReturnsRoot_example :
    ReturnsRoot env
      (hash_tree_root_with_capacity env 30 (some two_numbers) 100 empty)
      (Schema.list (Schema.uint 2))
      (Limits.list 100 LimitList.nil)
      two_items
unfolding type_of
hash_tree_root_with_capacity-ReturnsRoot_example =
    hash_tree_root_with_capacity-ReturnsRoot env laws numbers_cap 100
      (numbers_taken 100 (omega arith)) refl refl 30 (unfold depth in omega arith) (omega arith)
      empty empty-IsSound

hash_tree_root_same_example :
    (hash_tree_root env 30 (some (Val.struct fields vals)) empty).0
    ≡ (hash_tree_root env 31 (some (Val.ptr (Val.struct fields vals))) empty).0
unfolding type_of
hash_tree_root_same_example =
    hash_tree_root_same env laws (CapRep.struct fields_cap) (CapRep.ptr fields_cap) refl refl 30 31
      (unfold depth in omega arith) (unfold depth in omega arith) empty empty empty-IsSound
      empty-IsSound

signing_root-ReturnsRoot_example :
    ReturnsRoot env
      (signing_root env 30 (some (Val.ptr (Val.struct fields vals))) empty)
      (Schema.container (but_last schemas))
      (Limits.all (front_limits LimitList.nil))
      (Item.seq (but_last_item xs))
signing_root-ReturnsRoot_example =
    signing_root-ReturnsRoot env laws Signs.pointer fields_cap (Takes.container front_taken) 30
      (unfold depth in omega arith) empty empty-IsSound

abbrev letters : ℕ → Items
letters zero = Items.nil
letters (suc n) = Items.cons (Item.num 97) (letters n)

letters_rep : (n : ℕ) → ValsRep (bytes_as_vals (replicate n 97)) byte_typ byte_schema (letters n)
letters_rep zero = ValsRep.no_vals
letters_rep (suc n) = ValsRep.each (ValRep.uint refl (omega arith)) (letters_rep n)

hash_tree_root-string_example :
    hash_tree_root env 1 (some (Val.str (replicate 33 97))) empty ≡ (err over_limit, empty)
hash_tree_root-string_example =
    hash_tree_root-string env (replicate 33 97) (letters_rep 33) (omega arith) 1 (omega arith) empty

only-Metadata :
    Metadata
      (Fields.field name_xxx none none u16 Fields.end)
      (Vals.cons (Val.num Scalar.uint16 1) Vals.nil)
unfolding has_prefix
only-Metadata = Metadata.more refl Metadata.no_more

signing_root-Metadata_example :
    signing_root env 30
      (some (
        Val.struct
          (Fields.field name_xxx none none u16 Fields.end)
          (Vals.cons (Val.num Scalar.uint16 1) Vals.nil)))
      empty
    ≡ (panic, empty)
signing_root-Metadata_example = signing_root-Metadata env Signs.value only-Metadata 30 empty

is_mark : has_prefix name_xxx xxx ≡ true
unfolding has_prefix
is_mark = refl

hash_tree_root-metadata_example :
    (r : Result (List Buf)) × (w : Caches env) × FieldTreeRoots env.sha env.merkleize schemas
      field_limits xs r
    × (hash_tree_root env 30
          (some (
            Val.struct
              (Fields.field name_xxx none none u16 fields)
              (Vals.cons (Val.num Scalar.uint16 1) vals)))
          empty
        ≡ (
          r >>= λ roots.
              ok (env.merkleize (length roots) (length roots) ([] ∷ all_but_last env roots)),
          w,
        ))
hash_tree_root-metadata_example =
    hash_tree_root-metadata env laws name_xxx none none u16 (Val.num Scalar.uint16 1) is_mark
      fields_cap fields_taken 30 (unfold depth in omega arith) empty empty-IsSound

hash_tree_root-EndsIn_example :
    EndsIn Has32 (hash_tree_root env 30 (some (Val.struct fields vals)) empty).0
unfolding type_of
hash_tree_root-EndsIn_example =
    hash_tree_root-EndsIn env laws (CapRep.struct fields_cap) refl 30 (unfold depth in omega arith)
      empty empty-IsSound

hash_tree_root_bitfield-BitsRoot_example :
    BitsRoot env (some 4) 0 (hash_tree_root_bitfield env (some 4) 0)
hash_tree_root_bitfield-BitsRoot_example =
    hash_tree_root_bitfield-BitsRoot env (some 4) (omega arith) 0 (omega arith)
