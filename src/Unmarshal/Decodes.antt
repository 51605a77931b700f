-- ===== src/Unmarshal/Decodes.antt =====
-- Which items Unmarshal decodes at which Go types, and what it means that it does.
use go_ssz.Prelude.{ℕ, ◌+◌, ◌*◌, ◌^◌, ◌≤◌, ◌<◌, ◌≡◌, refl, arith, Bool, true, false}
use go_ssz.Prelude.{Option, none, some, [], ◌++◌, length, ok, if◌then◌else◌, ◌||◌}
use go_ssz.Buffer.{Buf}
use go_ssz.Reflect.{Scalar, Text, Typ, Fields, Val, type_of}
use go_ssz.Tags.{is_metadata, determine_field_type}
use go_ssz.Size.{is_root}
use go_ssz.Ssz.{
  Schema, Schemas, Item, Items, is_variable, any_variable, serialize, parts, parts_of, count_items,
}
use go_ssz.Ssz.Parts.{length-join-total, total, length-le_bytes}
use go_ssz.Represents.{TypeRep, FieldTypesRep, ValRep, uint_width, byte_typ, byte_schema}
use go_ssz.Represents.Factory.{choice}
use go_ssz.Unmarshal.{unmarshal_with}
use go_ssz.Unmarshal.Targets.{target}
use go_ssz.Unmarshal.Reads.{input_of}

-- Protobuf metadata only.
pub data AllMetadata : Fields → Type 0 where
  no_more : AllMetadata Fields.end
  one_more :
      {name : Text} {size max : Option Text} {t : Typ} {fs : Fields}
      → is_metadata name ≡ true
      → AllMetadata fs
      → AllMetadata (Fields.field name size max t fs)

-- Arrays have items and are not arrays of roots; structs have fields, no "ssz-size" tags, and
-- protobuf metadata at their end only.
mutual
  pub data Decodes : Typ → Schema → Item → Type 0 where
    boolean :
        (b : Bool) → Decodes (Typ.scalar Scalar.bool) Schema.boolean (Item.num (if b then 1 else 0))
    uint :
        {k : Scalar} {w n : ℕ}
        → uint_width k ≡ some w
        → n < 256 ^ w
        → Decodes (Typ.scalar k) (Schema.uint w) (Item.num n)
    string :
        {xs : Items}
        → DecodesAll byte_typ byte_schema xs
        → Decodes Typ.string (Schema.list byte_schema) (Item.seq xs)
    slice :
        {t : Typ} {s : Schema} {xs : Items}
        → TypeRep t s
        → DecodesAll t s xs
        → Decodes (Typ.slice t) (Schema.list s) (Item.seq xs)
    array :
        {n : ℕ} {t : Typ} {s : Schema} {xs : Items}
        → 0 < n
        → count_items xs ≡ n
        → is_root t ≡ false
        → TypeRep t s
        → DecodesAll t s xs
        → Decodes (Typ.array n t) (Schema.vector n s) (Item.seq xs)
    struct :
        {fs : Fields} {s : Schema} {ss : Schemas} {xs : Items}
        → DecodesFields fs (Schemas.cons s ss) xs
        → Decodes (Typ.struct fs) (Schema.container (Schemas.cons s ss)) (Item.seq xs)
    ptr :
        {fs : Fields} {s : Schema} {ss : Schemas} {xs : Items}
        → DecodesFields fs (Schemas.cons s ss) xs
        → Decodes (Typ.ptr (Typ.struct fs)) (Schema.container (Schemas.cons s ss)) (Item.seq xs)

  pub data DecodesAll : Typ → Schema → Items → Type 0 where
    no_items : {t : Typ} {s : Schema} → DecodesAll t s Items.nil
    each :
        {t : Typ} {s : Schema} {x : Item} {xs : Items}
        → Decodes t s x
        → DecodesAll t s xs
        → DecodesAll t s (Items.cons x xs)

  pub data DecodesFields : Fields → Schemas → Items → Type 0 where
    finished : {fs : Fields} → AllMetadata fs → DecodesFields fs Schemas.nil Items.nil
    keep :
        {name : Text} {max : Option Text} {t : Typ} {fs : Fields} {s : Schema} {ss : Schemas}
        {x : Item} {xs : Items}
        → is_metadata name ≡ false
        → Decodes t s x
        → DecodesFields fs ss xs
        → DecodesFields (Fields.field name none max t fs) (Schemas.cons s ss) (Items.cons x xs)

AllMetadata-FieldTypesRep : {fs : Fields} → AllMetadata fs → FieldTypesRep fs Schemas.nil
AllMetadata-FieldTypesRep AllMetadata.no_more = FieldTypesRep.no_types
AllMetadata-FieldTypesRep (AllMetadata.one_more m r) =
    FieldTypesRep.skip_type m (AllMetadata-FieldTypesRep r)

mutual
  unfolding determine_field_type

  pub Decodes-TypeRep : {t : Typ} {s : Schema} {x : Item} → Decodes t s x → TypeRep t s
  Decodes-TypeRep (Decodes.boolean b) = TypeRep.boolean
  Decodes-TypeRep (Decodes.uint e h) = TypeRep.uint e
  Decodes-TypeRep (Decodes.string d) = TypeRep.string
  Decodes-TypeRep (Decodes.slice r d) = TypeRep.slice r
  Decodes-TypeRep (Decodes.array p c o r d) = TypeRep.array r
  Decodes-TypeRep (Decodes.struct d) = TypeRep.struct (DecodesFields-FieldTypesRep d)
  Decodes-TypeRep (Decodes.ptr d) = TypeRep.ptr (DecodesFields-FieldTypesRep d)

  pub DecodesFields-FieldTypesRep :
      {fs : Fields} {ss : Schemas} {xs : Items} → DecodesFields fs ss xs → FieldTypesRep fs ss
  DecodesFields-FieldTypesRep (DecodesFields.finished m) = AllMetadata-FieldTypesRep m
  DecodesFields-FieldTypesRep (DecodesFields.keep m d ds) =
      FieldTypesRep.keep_type m refl (Decodes-TypeRep d) (DecodesFields-FieldTypesRep ds)

-- How many bytes an item of fixed size takes.
unfoldable mutual
  pub fixed_size : Schema → ℕ
  fixed_size Schema.boolean = 1
  fixed_size (Schema.uint w) = w
  fixed_size (Schema.list s) = 0
  fixed_size (Schema.vector n s) = n * fixed_size s
  fixed_size (Schema.container ss) = fixed_sum ss

  pub fixed_sum : Schemas → ℕ
  fixed_sum Schemas.nil = 0
  fixed_sum (Schemas.cons s ss) = fixed_size s + fixed_sum ss

or_false : (a b : Bool) → (a || b) ≡ false → (a ≡ false) × (b ≡ false)
or_false true b h = cc
or_false false b h = (refl, h)

mutual
  unfolding serialize is_variable fixed_size

  pub length-serialize :
      {t : Typ} {s : Schema} {x : Item}
      → Decodes t s x
      → is_variable s ≡ false
      → length (serialize s x) ≡ fixed_size s
  length-serialize (Decodes.boolean b) h = length-le_bytes 1 (if b then 1 else 0)
  length-serialize (Decodes.uint {w = w} {n = n} e l) h = length-le_bytes w n
  length-serialize (Decodes.string d) h = cc
  length-serialize (Decodes.slice r d) h = cc
  length-serialize (Decodes.array {s = s} {xs = xs} p c o r d) h =
      let a = length-join-total (parts_of s xs) in
      let b = total-parts_of d h in rw (← c) (omega (arith, a, b))
  length-serialize (Decodes.struct {s = s} {ss = ss} {xs = xs} d) h =
      let a = length-join-total (parts (Schemas.cons s ss) xs) in
      let b = total-parts d h in omega (arith, a, b)
  length-serialize (Decodes.ptr {s = s} {ss = ss} {xs = xs} d) h =
      let a = length-join-total (parts (Schemas.cons s ss) xs) in
      let b = total-parts d h in omega (arith, a, b)

  total-parts_of :
      {t : Typ} {s : Schema} {xs : Items}
      → DecodesAll t s xs
      → is_variable s ≡ false
      → total (parts_of s xs) ≡ count_items xs * fixed_size s
  total-parts_of DecodesAll.no_items h = omega arith
  total-parts_of (DecodesAll.each {s = s} {x = x} {xs = xs} d ds) h =
      let a = length-serialize d h in let b = total-parts_of ds h in rw h (grind (arith, a, b))

  total-parts :
      {fs : Fields} {ss : Schemas} {xs : Items}
      → DecodesFields fs ss xs
      → any_variable ss ≡ false
      → total (parts ss xs) ≡ fixed_sum ss
  total-parts (DecodesFields.finished m) h = refl
  total-parts (DecodesFields.keep {s = s} {ss = ss} d m ds) h =
      let (a, b) = or_false (is_variable s) (any_variable ss) h in
      let p = length-serialize m a in let q = total-parts ds b in rw a (omega (arith, p, q))

-- The value is of the type and stands for the item.
abbrev pub Stands : Val → Typ → Schema → Item → Type 0
Stands v t s x = ValRep v t s x × (type_of v ≡ ok t)

-- Where the bytes of the item stand at the index, the call leaves the value `v`, and returns the index
-- behind them if the item has a fixed size. One of variable size has the whole input for itself.
abbrev pub Reads : ℕ → Val → Typ → Schema → Item → Type 0
Reads f v t s x =
    (pre post : Buf) (len : ℕ)
    → length pre + length (serialize s x) ≤ len
    → (is_variable s ≡ true → (pre ≡ []) × (len ≡ length (serialize s x)))
    → length (pre ++ (serialize s x ++ post)) < 2 ^ 64
    → length (serialize s x) < 2 ^ 32
    → (index : ℕ) × (unmarshal_with f (choice t s) (target t) t
          (input_of (pre ++ (serialize s x ++ post)) len) (length pre)
        ≡ ok (v, index))
      × (is_variable s ≡ false → index ≡ length pre + length (serialize s x))
