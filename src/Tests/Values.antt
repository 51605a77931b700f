-- ===== src/Tests/Values.antt =====
-- A struct value with a tag, a variable field and a protobuf metadata field, and what it stands for.
use go_ssz.Prelude.{[], ◌∷◌, none, some, refl, arith}
use go_ssz.Reflect.{Scalar, Typ, Fields, Val, Vals, Text, items, type_of, zero_fields}
use go_ssz.Tags.{is_metadata, determine_field_type}
use go_ssz.Ssz.{Schema, Schemas, Item, Items}
use go_ssz.Represents.{TypeRep, ValRep, ValsRep, FieldsRep, AllOwnSize, OwnSize, byte_typ}

abbrev pub u16 : Typ
u16 = Typ.scalar Scalar.uint16

abbrev name_a : Text
name_a = b'A' ∷ []

abbrev pub name_xxx : Text
name_xxx = b'X' ∷ b'X' ∷ b'X' ∷ b'_' ∷ b's' ∷ []

abbrev pub fields : Fields
fields = Fields.field name_a none none u16 (
    Fields.field name_a none (some (b'8' ∷ [])) (Typ.slice u16) (
      Fields.field name_a none none byte_typ (
        Fields.field name_a (some (b'2' ∷ [])) none (Typ.slice byte_typ)
          (Fields.field name_xxx none none Typ.string Fields.end))))

abbrev pub vals : Vals
vals = Vals.cons (Val.num Scalar.uint16 258) (
    Vals.cons
      (Val.slice u16
        (Vals.cons (Val.num Scalar.uint16 3) (Vals.cons (Val.num Scalar.uint16 4) Vals.nil)))
      (Vals.cons (Val.num Scalar.uint8 5) (
        Vals.cons
          (Val.slice byte_typ
            (Vals.cons (Val.num Scalar.uint8 7) (Vals.cons (Val.num Scalar.uint8 8) Vals.nil)))
          (Vals.cons (Val.str []) Vals.nil))))

abbrev pub schemas : Schemas
schemas = Schemas.cons (Schema.uint 2) (
    Schemas.cons (Schema.list (Schema.uint 2))
      (Schemas.cons (Schema.uint 1) (Schemas.cons (Schema.vector 2 (Schema.uint 1)) Schemas.nil)))

abbrev pub xs : Items
xs = Items.cons (Item.num 258) (
    Items.cons (Item.seq (Items.cons (Item.num 3) (Items.cons (Item.num 4) Items.nil))) (
      Items.cons (Item.num 5) (
        Items.cons (Item.seq (Items.cons (Item.num 7) (Items.cons (Item.num 8) Items.nil)))
          Items.nil)))

pub fields_rep : FieldsRep fields vals schemas xs
unfolding is_metadata determine_field_type items type_of
fields_rep = FieldsRep.keep refl refl (ValRep.uint refl (omega arith)) (
    FieldsRep.keep refl refl
      (ValRep.slice refl (TypeRep.uint refl)
        (AllOwnSize.each (OwnSize.same refl)
          (AllOwnSize.each (OwnSize.same refl) AllOwnSize.no_vals))
        (ValsRep.each (ValRep.uint refl (omega arith))
          (ValsRep.each (ValRep.uint refl (omega arith)) ValsRep.no_vals)))
      (FieldsRep.keep refl refl (ValRep.uint refl (omega arith)) (
        FieldsRep.keep refl refl
          (ValRep.byte_slice refl (
            ValsRep.each (ValRep.uint refl (omega arith))
              (ValsRep.each (ValRep.uint refl (omega arith)) ValsRep.no_vals)))
          (FieldsRep.skip refl FieldsRep.no_fields))))

-- A struct of a number and a flag.
abbrev pub flat : Fields
flat =
    Fields.field name_a none none u16
      (Fields.field name_a none none (Typ.scalar Scalar.bool) Fields.end)

pub flat_rep :
    FieldsRep flat
      (zero_fields flat)
      (Schemas.cons (Schema.uint 2) (Schemas.cons Schema.boolean Schemas.nil))
      (Items.cons (Item.num 0) (Items.cons (Item.num 0) Items.nil))
unfolding is_metadata determine_field_type zero_fields
flat_rep =
    FieldsRep.keep refl refl (ValRep.uint refl (omega arith))
      (FieldsRep.keep refl refl ValRep.boolean FieldsRep.no_fields)
