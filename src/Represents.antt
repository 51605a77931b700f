-- ===== src/Represents.antt =====
-- Which Go types stand for which schemas, and which Go values for which items. A value is read at
-- a type that need not be its own: struct tags turn a slice type into an array type.
pub mod Variable
pub mod Factory
pub mod Size
pub mod Capacities
use go_ssz.Prelude.{ℕ, zero, suc, ◌^◌, ◌<◌, ◌≡◌, Bool, true, false, Option, none, some, ok}
use go_ssz.Prelude.{if◌then◌else◌}
use go_ssz.Reflect.{Scalar, Text, Typ, Fields, Val, Vals}
use go_ssz.Reflect.{type_of, items, zero_fields, bytes_as_vals, count_vals}
use go_ssz.Tags.{is_metadata, determine_field_type}
use go_ssz.Size.{is_uint8}
use go_ssz.Ssz.{Schema, Schemas, Item, Items, is_variable}

-- The widths of the numbers that the code serializes.
abbrev pub uint_width : Scalar → Option ℕ
uint_width Scalar.uint8 = some 1
uint_width Scalar.uint16 = some 2
uint_width Scalar.int32 = some 4
uint_width Scalar.uint32 = some 4
uint_width Scalar.uint64 = some 8
uint_width _ = none

abbrev pub byte_typ : Typ
byte_typ = Typ.scalar Scalar.uint8

abbrev pub byte_schema : Schema
byte_schema = Schema.uint 1

mutual
  pub data TypeRep : Typ → Schema → Type 0 where
    boolean : TypeRep (Typ.scalar Scalar.bool) Schema.boolean
    uint : {k : Scalar} {w : ℕ} → uint_width k ≡ some w → TypeRep (Typ.scalar k) (Schema.uint w)
    string : TypeRep Typ.string (Schema.list (Schema.uint 1))
    slice : {t : Typ} {s : Schema} → TypeRep t s → TypeRep (Typ.slice t) (Schema.list s)
    array :
        {n : ℕ} {t : Typ} {s : Schema} → TypeRep t s → TypeRep (Typ.array n t) (Schema.vector n s)
    struct :
        {fs : Fields} {ss : Schemas}
        → FieldTypesRep fs ss
        → TypeRep (Typ.struct fs) (Schema.container ss)
    ptr :
        {fs : Fields} {ss : Schemas}
        → FieldTypesRep fs ss
        → TypeRep (Typ.ptr (Typ.struct fs)) (Schema.container ss)

  -- The fields of a struct but for protobuf metadata, at the types that their tags give them.
  pub data FieldTypesRep : Fields → Schemas → Type 0 where
    no_types : FieldTypesRep Fields.end Schemas.nil
    skip_type :
        {name : Text} {size max : Option Text} {t : Typ} {fs : Fields} {ss : Schemas}
        → is_metadata name ≡ true
        → FieldTypesRep fs ss
        → FieldTypesRep (Fields.field name size max t fs) ss
    keep_type :
        {name : Text} {size max : Option Text} {t u : Typ} {s : Schema} {fs : Fields} {ss : Schemas}
        → is_metadata name ≡ false
        → determine_field_type size t ≡ ok u
        → TypeRep u s
        → FieldTypesRep fs ss
        → FieldTypesRep (Fields.field name size max t fs) (Schemas.cons s ss)

-- DetermineSize takes an item of a sequence at the item's own type, where tags have no say. So
-- the item has to be of type `t` itself, or a byte slice in the place of a byte array.
pub data OwnSize : Val → Typ → Type 0 where
  same : {v : Val} {t : Typ} → type_of v ≡ ok t → OwnSize v t
  bytes : {n : ℕ} {vs : Vals} → OwnSize (Val.slice byte_typ vs) (Typ.array n byte_typ)

pub data AllOwnSize : Vals → Typ → Type 0 where
  no_vals : {t : Typ} → AllOwnSize Vals.nil t
  each :
      {v : Val} {vs : Vals} {t : Typ}
      → OwnSize v t
      → AllOwnSize vs t
      → AllOwnSize (Vals.cons v vs) t

-- A byte slice or array, and a nil slice in the place of an array of n zeros.
abbrev pub zero_bytes : ℕ → Items
zero_bytes zero = Items.nil
zero_bytes (suc n) = Items.cons (Item.num 0) (zero_bytes n)

mutual
  pub data ValRep : Val → Typ → Schema → Item → Type 0 where
    boolean :
        {b : Bool}
        → ValRep
            (Val.bool b)
            (Typ.scalar Scalar.bool)
            Schema.boolean
            (Item.num (if b then 1 else 0))
    uint :
        {k : Scalar} {w n : ℕ}
        → uint_width k ≡ some w
        → n < 256 ^ w
        → ValRep (Val.num k n) (Typ.scalar k) (Schema.uint w) (Item.num n)
    string :
        {cs : Text} {xs : Items}
        → ValsRep (bytes_as_vals cs) byte_typ byte_schema xs
        → ValRep (Val.str cs) Typ.string (Schema.list byte_schema) (Item.seq xs)
    slice :
        {v : Val} {vs : Vals} {t : Typ} {s : Schema} {xs : Items}
        → items v ≡ ok vs
        → TypeRep t s
        → AllOwnSize vs t
        → ValsRep vs t s xs
        → ValRep v (Typ.slice t) (Schema.list s) (Item.seq xs)
    array :
        {v : Val} {vs : Vals} {n : ℕ} {t : Typ} {s : Schema} {xs : Items}
        → items v ≡ ok vs
        → count_vals vs ≡ n
        → is_uint8 t ≡ false
        → TypeRep t s
        → (is_variable s ≡ true → AllOwnSize vs t)
        → ValsRep vs t s xs
        → ValRep v (Typ.array n t) (Schema.vector n s) (Item.seq xs)
    byte_array :
        {vs : Vals} {n : ℕ} {xs : Items}
        → count_vals vs ≡ n
        → ValsRep vs byte_typ byte_schema xs
        → ValRep
            (Val.array byte_typ vs)
            (Typ.array n byte_typ)
            (Schema.vector n byte_schema)
            (Item.seq xs)
    byte_slice :
        {vs : Vals} {n : ℕ} {xs : Items}
        → count_vals vs ≡ n
        → ValsRep vs byte_typ byte_schema xs
        → ValRep
            (Val.slice byte_typ vs)
            (Typ.array n byte_typ)
            (Schema.vector n byte_schema)
            (Item.seq xs)
    nil_bytes :
        {n : ℕ} {xs : Items}
        → xs ≡ zero_bytes n
        → ValRep
            (Val.nil_slice byte_typ)
            (Typ.array n byte_typ)
            (Schema.vector n byte_schema)
            (Item.seq xs)
    struct :
        {fs : Fields} {vs : Vals} {ss : Schemas} {xs : Items}
        → FieldsRep fs vs ss xs
        → ValRep (Val.struct fs vs) (Typ.struct fs) (Schema.container ss) (Item.seq xs)
    ptr :
        {fs : Fields} {vs : Vals} {ss : Schemas} {xs : Items}
        → FieldsRep fs vs ss xs
        → ValRep
            (Val.ptr (Val.struct fs vs))
            (Typ.ptr (Typ.struct fs))
            (Schema.container ss)
            (Item.seq xs)
    nil_ptr :
        {fs : Fields} {vs : Vals} {ss : Schemas} {xs : Items}
        → zero_fields fs ≡ vs
        → FieldsRep fs vs ss xs
        → ValRep
            (Val.nil_ptr (Typ.struct fs))
            (Typ.ptr (Typ.struct fs))
            (Schema.container ss)
            (Item.seq xs)

  pub data ValsRep : Vals → Typ → Schema → Items → Type 0 where
    no_vals : {t : Typ} {s : Schema} → ValsRep Vals.nil t s Items.nil
    each :
        {v : Val} {vs : Vals} {t : Typ} {s : Schema} {x : Item} {xs : Items}
        → ValRep v t s x
        → ValsRep vs t s xs
        → ValsRep (Vals.cons v vs) t s (Items.cons x xs)

  pub data FieldsRep : Fields → Vals → Schemas → Items → Type 0 where
    no_fields : FieldsRep Fields.end Vals.nil Schemas.nil Items.nil
    skip :
        {name : Text} {size max : Option Text} {t : Typ} {fs : Fields} {v : Val} {vs : Vals}
        {ss : Schemas} {xs : Items}
        → is_metadata name ≡ true
        → FieldsRep fs vs ss xs
        → FieldsRep (Fields.field name size max t fs) (Vals.cons v vs) ss xs
    keep :
        {name : Text} {size max : Option Text} {t u : Typ} {fs : Fields} {v : Val} {vs : Vals}
        {s : Schema} {ss : Schemas} {x : Item} {xs : Items}
        → is_metadata name ≡ false
        → determine_field_type size t ≡ ok u
        → ValRep v u s x
        → FieldsRep fs vs ss xs
        → FieldsRep
            (Fields.field name size max t fs)
            (Vals.cons v vs)
            (Schemas.cons s ss)
            (Items.cons x xs)
