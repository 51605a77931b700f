-- ===== src/Tests/Marshal.antt =====
-- Marshal at concrete values.
use go_ssz.Prelude.{
  ◌≡◌, refl, [], ◌∷◌, none, some, ok, arith, replicate, ◌++◌, true, err, unsupported_kind,
}
use go_ssz.Reflect.{Scalar, Typ, Fields, Val, Vals, type_of}
use go_ssz.Ssz.{Schema, Item, serialize, depth, is_variable}
use go_ssz.Tags.{is_metadata, determine_field_type}
use go_ssz.Size.{determine_size, is_variable_size_type}
use go_ssz.Factory.{ssz_factory}
use go_ssz.Marshal.{
  marshal, marshal_typed, marshal_with, marshal_fields, fixed_length, marshal_items, marshal_basic,
}
use go_ssz.Represents.{ValRep, TypeRep}
use go_ssz.Tests.Values.{fields, vals, schemas, xs, fields_rep, flat, flat_rep}
use go_ssz.Marshal.Exported.{marshal-serialize, marshal-nil_ptr, marshal-unsupported}
use go_ssz.Marshal.Refines.{find, find-Writes}
use go_ssz.Represents.Variable.{is_variable_size_type-is_variable, FieldsRep-FieldTypesRep}
use go_ssz.Represents.Size.{determine_size-serialize}

serialize_test :
    serialize (Schema.container schemas) (Item.seq xs)
    ≡ 2 ∷ 1 ∷ 9 ∷ 0 ∷ 0 ∷ 0 ∷ 5 ∷ 7 ∷ 8 ∷ 3 ∷ 0 ∷ 4 ∷ 0 ∷ []
unfolding serialize
serialize_test = refl

marshal-serialize_example :
    marshal 30 (some (Val.struct fields vals))
    ≡ ok (serialize (Schema.container schemas) (Item.seq xs))
unfolding serialize type_of
marshal-serialize_example =
    marshal-serialize (ValRep.struct fields_rep) refl refl (omega arith) 30
      (unfold depth in omega arith)

marshal_test :
    marshal 30 (some (Val.struct fields vals))
    ≡ ok (2 ∷ 1 ∷ 9 ∷ 0 ∷ 0 ∷ 0 ∷ 5 ∷ 7 ∷ 8 ∷ 3 ∷ 0 ∷ 4 ∷ 0 ∷ [])
unfolding marshal type_of determine_size is_variable_size_type determine_field_type is_metadata
    ssz_factory marshal_typed marshal_with marshal_fields fixed_length marshal_items marshal_basic
marshal_test = refl

-- `[][][]byte` with the tag "?,1,2": the buffer is four bytes too long for each item.
abbrev nested : Val
nested =
    Val.struct
      (Fields.field (b'F' ∷ []) (some (b'?' ∷ b',' ∷ b'1' ∷ b',' ∷ b'2' ∷ [])) none
        (Typ.slice (Typ.slice (Typ.slice (Typ.scalar Scalar.uint8)))) Fields.end)
      (Vals.cons
        (Val.slice (Typ.slice (Typ.slice (Typ.scalar Scalar.uint8))) (
          Vals.cons
            (Val.slice (Typ.slice (Typ.scalar Scalar.uint8)) (
              Vals.cons
                (Val.slice (Typ.scalar Scalar.uint8) (
                  Vals.cons (Val.num Scalar.uint8 7) (Vals.cons (Val.num Scalar.uint8 8) Vals.nil)))
                Vals.nil))
            Vals.nil))
        Vals.nil)

nested_test : marshal 30 (some nested) ≡ ok (4 ∷ 0 ∷ 0 ∷ 0 ∷ 7 ∷ 8 ∷ 0 ∷ 0 ∷ 0 ∷ 0 ∷ [])
unfolding marshal type_of determine_size is_variable_size_type determine_field_type is_metadata
    ssz_factory marshal_typed marshal_with marshal_fields fixed_length marshal_items marshal_basic
nested_test = refl

find-Writes_example :
    find 30 (Val.struct fields vals) (Typ.struct fields) (9 ∷ (replicate 13 0 ++ (8 ∷ []))) 1
    ≡ ok (9 ∷ (serialize (Schema.container schemas) (Item.seq xs) ++ (8 ∷ [])), 14)
unfolding serialize
find-Writes_example =
    find-Writes (ValRep.struct fields_rep) 30 (unfold depth in omega arith) (9 ∷ [])
      (replicate 13 0) (8 ∷ []) refl (omega arith)

determine_size-serialize_example : determine_size 30 (Val.struct fields vals) ≡ ok 13
unfolding serialize type_of
determine_size-serialize_example =
    determine_size-serialize (ValRep.struct fields_rep) refl (omega arith) 30
      (unfold depth in omega arith)

is_variable_size_type-is_variable_example : is_variable_size_type 30 (Typ.struct fields) ≡ ok true
unfolding is_variable
is_variable_size_type-is_variable_example =
    is_variable_size_type-is_variable (TypeRep.struct (FieldsRep-FieldTypesRep fields_rep)) 30
      (unfold depth in omega arith)

marshal-nil_ptr_example : marshal 30 (some (Val.nil_ptr (Typ.struct flat))) ≡ ok (0 ∷ 0 ∷ 0 ∷ [])
unfolding serialize
marshal-nil_ptr_example = marshal-nil_ptr flat_rep (omega arith) 30 (unfold depth in omega arith)

no_int64 : (s : Schema) → ¬ TypeRep (Typ.scalar Scalar.int64) s
no_int64 s (TypeRep.uint e) = cc

marshal-unsupported_example : marshal 30 (some (Val.num Scalar.int64 5)) ≡ err unsupported_kind
marshal-unsupported_example = marshal-unsupported Scalar.int64 5 30 no_int64 (omega arith)
