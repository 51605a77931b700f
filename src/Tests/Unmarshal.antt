-- ===== src/Tests/Unmarshal.antt =====
-- Unmarshal at concrete values.
use go_ssz.Prelude.{
  ◌≡◌, ◌<◌, refl, [], ◌∷◌, ◌++◌, none, some, ok, arith, true, false, length, panic, Bool, ◌↔◌,
}
use go_ssz.Buffer.{Buf}
use go_ssz.Reflect.{Scalar, Typ, Fields, Val, Vals, Text, zero_value, type_of, items}
use go_ssz.Tags.{is_metadata, determine_field_type}
use go_ssz.Size.{determine_size, is_variable_size_type}
use go_ssz.Ssz.{Schema, Schemas, Item, Items, serialize, depth}
use go_ssz.Represents.{TypeRep, ValRep, ValsRep, FieldsRep, AllOwnSize, OwnSize}
use go_ssz.Marshal.{marshal}
use go_ssz.Input.{Input, slice_input, read_le}
use go_ssz.Factory.{ssz_factory}
use go_ssz.Decode.{unmarshal_basic, unmarshal_kind, unmarshal_num, set_uint}
use go_ssz.DecodeSlices.{
  unmarshal_basic_slice, unmarshal_filled, unmarshal_behind, unmarshal_rest, unmarshal_index,
  make_room,
}
use go_ssz.Unmarshal.{
  unmarshal, unmarshal_with, checked_length, unmarshal_struct, fixed_sizes, read_offsets,
  unmarshal_fields, unmarshal_place, unmarshal_fixed, unmarshal_variable, sized, tagged_field,
  concrete_field, count_fields,
}
use go_ssz.Unmarshal.Reads.{input_of}
use go_ssz.Unmarshal.Decodes.{AllMetadata, Decodes, DecodesAll, DecodesFields}
use go_ssz.Unmarshal.RootArrays.{unmarshal-roots_array, roots_typ}
use go_ssz.Unmarshal.RoundTrip.{Whole}
use go_ssz.DeepEqual.{deep_equal, deep_value_equal}
use go_ssz.Prelude.{ℕ, [], ◌∷◌, none, panic}
use go_ssz.Reflect.{Text, Fields}
use go_ssz.DeepEqual.Canon.{HasType, AllHaveType, canon, deep_equal-canon}
use go_ssz.Unmarshal.Plain.{IsPlain, AllPlain, FieldsPlain}
use go_ssz.Unmarshal.SameValue.{IsComparable, FieldsComparable, deep_equal-unmarshal}
use go_ssz.Unmarshal.Exported.{unmarshal-serialize, unmarshal-marshal, unmarshal-determine_size}
use go_ssz.Marshal.Exported.{is_nil_ptr}
use go_ssz.Grow.{is_ptr, grow_sizes, grow_slice, index_of, set_index}
use go_ssz.Equal.{same_type}
use go_ssz.Tests.Values.{u16, fields, vals}

abbrev name_a : Text
name_a = b'A' ∷ []

abbrev name_xxx : Text
name_xxx = b'X' ∷ b'X' ∷ b'X' ∷ b'_' ∷ b's' ∷ []

-- A number, a slice of numbers, a flag, and protobuf metadata.
abbrev plain : Fields
plain = Fields.field name_a none none u16 (
    Fields.field name_a none none (Typ.slice u16) (
      Fields.field name_a none none (Typ.scalar Scalar.bool)
        (Fields.field name_xxx none none Typ.string Fields.end)))

abbrev plain_vals : Vals
plain_vals = Vals.cons (Val.num Scalar.uint16 258) (
    Vals.cons
      (Val.slice u16
        (Vals.cons (Val.num Scalar.uint16 3) (Vals.cons (Val.num Scalar.uint16 4) Vals.nil)))
      (Vals.cons (Val.bool true) (Vals.cons (Val.str []) Vals.nil)))

abbrev plain_schema : Schema
plain_schema = Schema.container (
    Schemas.cons (Schema.uint 2)
      (Schemas.cons (Schema.list (Schema.uint 2)) (Schemas.cons Schema.boolean Schemas.nil)))

abbrev plain_item : Item
plain_item = Item.seq (
    Items.cons (Item.num 258) (
      Items.cons (Item.seq (Items.cons (Item.num 3) (Items.cons (Item.num 4) Items.nil)))
        (Items.cons (Item.num 1) Items.nil)))

plain-Decodes : Decodes (Typ.struct plain) plain_schema plain_item
unfolding is_metadata
plain-Decodes = Decodes.struct (
    DecodesFields.keep refl (Decodes.uint refl (omega arith)) (
      DecodesFields.keep refl
        (Decodes.slice (TypeRep.uint refl) (
          DecodesAll.each (Decodes.uint refl (omega arith))
            (DecodesAll.each (Decodes.uint refl (omega arith)) DecodesAll.no_items)))
        (DecodesFields.keep refl (Decodes.boolean true)
          (DecodesFields.finished (AllMetadata.one_more refl AllMetadata.no_more)))))

plain_rep : ValRep (Val.struct plain plain_vals) (Typ.struct plain) plain_schema plain_item
unfolding is_metadata determine_field_type items type_of
plain_rep = ValRep.struct (
    FieldsRep.keep refl refl (ValRep.uint refl (omega arith)) (
      FieldsRep.keep refl refl
        (ValRep.slice refl (TypeRep.uint refl)
          (AllOwnSize.each (OwnSize.same refl)
            (AllOwnSize.each (OwnSize.same refl) AllOwnSize.no_vals))
          (ValsRep.each (ValRep.uint refl (omega arith))
            (ValsRep.each (ValRep.uint refl (omega arith)) ValsRep.no_vals)))
        (FieldsRep.keep refl refl (ValRep.boolean {b = true})
          (FieldsRep.skip refl FieldsRep.no_fields))))

abbrev plain_bytes : Buf
plain_bytes = 2 ∷ 1 ∷ 7 ∷ 0 ∷ 0 ∷ 0 ∷ 1 ∷ 3 ∷ 0 ∷ 4 ∷ 0 ∷ []

-- The bytes 77 and 78 stand behind the input, in its capacity.
unmarshal-serialize_example :
    (v : Val) × Whole v (Typ.struct plain) plain_schema plain_item
    × (unmarshal 30
          (input_of (plain_bytes ++ (77 ∷ 78 ∷ [])) 11)
          (some (Val.ptr (zero_value (Typ.struct plain))))
        ≡ ok (Val.ptr v))
unfolding serialize
unmarshal-serialize_example =
    unmarshal-serialize plain-Decodes (omega arith) (omega arith) (77 ∷ 78 ∷ []) (omega arith) 30
      (unfold depth in omega arith)

unmarshal-marshal_example :
    (bytes : Buf) × (marshal 30 (some (Val.struct plain plain_vals)) ≡ ok bytes)
    × (w : Val) × (unmarshal 30
          (input_of bytes (length bytes))
          (some (Val.ptr (zero_value (Typ.struct plain))))
        ≡ ok (Val.ptr w))
    × Whole w (Typ.struct plain) plain_schema plain_item
unfolding serialize
unmarshal-marshal_example =
    unmarshal-marshal plain_rep (unfold type_of in refl) refl plain-Decodes (omega arith)
      (omega arith) 30 (unfold depth in omega arith)

abbrev number_input : Input
number_input = input_of (2 ∷ 1 ∷ []) 2

number_run :
    unmarshal 9 number_input (some (Val.ptr (Val.num Scalar.uint16 0)))
    ≡ ok (Val.ptr (Val.num Scalar.uint16 258))
unfolding unmarshal type_of ssz_factory unmarshal_with unmarshal_basic unmarshal_kind unmarshal_num
    set_uint read_le slice_input checked_length determine_size is_variable_size_type
number_run = refl

unmarshal-determine_size_example :
    (0 < 2)
    × (is_nil_ptr (Val.ptr (Val.num Scalar.uint16 0)) ≡ false)
    × (is_ptr (Val.ptr (Val.num Scalar.uint16 0)) ≡ true)
    × (determine_size 9 (Val.ptr (Val.num Scalar.uint16 258)) ≡ ok 2)
unmarshal-determine_size_example =
    unmarshal-determine_size 9 number_input (Val.ptr (Val.num Scalar.uint16 0))
      (Val.ptr (Val.num Scalar.uint16 258)) number_run

abbrev tagged_input : Input
tagged_input = input_of (2 ∷ 1 ∷ 9 ∷ 0 ∷ 0 ∷ 0 ∷ 5 ∷ 7 ∷ 8 ∷ 3 ∷ 0 ∷ 4 ∷ 0 ∷ []) 13

tagged_test :
    unmarshal 30 tagged_input (some (Val.ptr (zero_value (Typ.struct fields))))
    ≡ ok (Val.ptr (Val.struct fields vals))
unfolding unmarshal type_of ssz_factory unmarshal_with unmarshal_basic unmarshal_kind unmarshal_num
    set_uint read_le slice_input checked_length determine_size is_variable_size_type
    unmarshal_struct fixed_sizes read_offsets unmarshal_fields unmarshal_place unmarshal_fixed
    unmarshal_variable sized tagged_field concrete_field count_fields is_metadata
    determine_field_type zero_value unmarshal_basic_slice unmarshal_filled unmarshal_behind
    unmarshal_rest unmarshal_index make_room grow_sizes same_type grow_slice index_of set_index
tagged_test = refl

unmarshal-roots_array_example :
    unmarshal 9 number_input (some (Val.ptr (zero_value (roots_typ 2)))) ≡ panic
unmarshal-roots_array_example = unmarshal-roots_array 1 9 number_input (omega arith) (omega arith)

plain-IsPlain : IsPlain (Val.struct plain plain_vals) (Typ.struct plain)
unfolding is_metadata zero_value
plain-IsPlain = IsPlain.struct (
    FieldsPlain.keep refl (IsPlain.number Scalar.uint16 258 refl) (
      FieldsPlain.keep refl
        (IsPlain.slice (
          AllPlain.each (IsPlain.number Scalar.uint16 3 refl)
            (AllPlain.each (IsPlain.number Scalar.uint16 4 refl) AllPlain.no_vals)))
        (FieldsPlain.keep refl (IsPlain.boolean true)
          (FieldsPlain.skip refl FieldsPlain.no_fields))))

plain-IsComparable : IsComparable (Typ.struct plain)
plain-IsComparable = IsComparable.struct (
    FieldsComparable.keep refl (IsComparable.number Scalar.uint16 refl) (
      FieldsComparable.keep refl (IsComparable.slice (IsComparable.number Scalar.uint16 refl)) (
        FieldsComparable.keep refl IsComparable.boolean
          (FieldsComparable.keep refl IsComparable.string FieldsComparable.no_fields))))

deep_equal-unmarshal_example :
    (bytes : Buf) × (marshal 30 (some (Val.struct plain plain_vals)) ≡ ok bytes)
    × (w : Val) × (unmarshal 30
          (input_of bytes (length bytes))
          (some (Val.ptr (zero_value (Typ.struct plain))))
        ≡ ok (Val.ptr w))
    × (deep_equal (some (Val.struct plain plain_vals)) (some w) ≡ ok true)
unfolding serialize
deep_equal-unmarshal_example =
    deep_equal-unmarshal plain_rep plain-IsPlain plain-IsComparable plain-Decodes (omega arith)
      (omega arith) 30 (unfold depth in omega arith)

-- A nil slice and an empty one, behind pointers.
deep_equal-canon_example :
    (same : Bool) × (deep_equal
        (some (Val.ptr (Val.nil_slice u16)))
        (some (Val.ptr (Val.slice u16 Vals.nil)))
      ≡ ok same)
    × ((same ≡ true)
        ↔ (canon (Val.ptr (Val.nil_slice u16)) ≡ canon (Val.ptr (Val.slice u16 Vals.nil))))
deep_equal-canon_example =
    deep_equal-canon (HasType.ptr (HasType.nil_slice u16))
      (HasType.ptr (HasType.slice AllHaveType.no_vals))

nil_test :
    deep_equal (some (Val.ptr (Val.nil_slice u16))) (some (Val.ptr (Val.slice u16 Vals.nil)))
    ≡ ok true
unfolding deep_equal deep_value_equal
nil_test = refl

-- Structs with a field `a`, which is not exported, before a field of strings.
abbrev hidden : ℕ → Text → Val
hidden n s =
    Val.struct
      (Fields.field (b'a' ∷ []) none none (Typ.ptr u16)
        (Fields.field (b'B' ∷ []) none none Typ.string Fields.end))
      (Vals.cons (Val.ptr (Val.num Scalar.uint16 n)) (Vals.cons (Val.str s) Vals.nil))
