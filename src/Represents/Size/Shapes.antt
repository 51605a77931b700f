-- ===== src/Represents/Size/Shapes.antt =====
-- The size of each shape of value, given what the loops over its parts find.
use go_ssz.Prelude.{
  ℕ, zero, suc, ◌+◌, ◌*◌, ◌^◌, ◌≤◌, ◌<◌, ◌≡◌, refl, ap, sym, ◌∙◌, Bool, true, false,
}
use go_ssz.Prelude.{ok, arith, some, Bool-cases, inl, inr, if◌then◌else◌, length}
use go_ssz.Reflect.{
  Scalar, Typ, Fields, Val, Vals, items, type_of, zero_value, zero_fields, Text, bytes_as_vals,
}
use go_ssz.Size.{determine_fixed_size, determine_variable_size}
use go_ssz.Size.{is_uint8, scalar_size}
use go_ssz.Ssz.{Schema, Schemas, Item, Items, is_variable, any_variable, depth, depth_all}
use go_ssz.Ssz.{serialize, parts_of}
use go_ssz.Ssz.Parts.{total, length-le_bytes}
use go_ssz.Represents.{TypeRep, ValsRep}
use go_ssz.Represents.{byte_typ, byte_schema, zero_bytes, uint_width}
use go_ssz.Represents.Size.Claims.{
  sized_by, Sized, byte_inversion, count-bytes, ItemsFixed, ItemsOwn, FieldsFixed, FieldsSized,
  length-list, length-vector, length-container,
}

pub slice-Sized :
    (v : Val) {vs : Vals} {t : Typ} {s : Schema} (xs : Items)
    → items v ≡ ok vs
    → TypeRep t s
    → ValsRep vs t s xs
    → length (serialize (Schema.list s) (Item.seq xs)) < 2 ^ 64
    → ItemsOwn vs t s xs
    → Sized v (Typ.slice t) (Schema.list s) (Item.seq xs)
unfolding is_variable depth determine_variable_size
slice-Sized v xs e r rs b own zero h = absurd (omega arith)
slice-Sized v {vs} {t} {s} xs e r rs b own (suc f) h = elim (Bool-cases (is_uint8 t)) [
  | inl u ↦ rw (u, e) (ap ok (sym (count-bytes (byte_inversion r u) rs)))
  | inr u ↦
      rw (u, e)
        (own f 0 (omega arith) (omega (arith, length-list s xs))
          ∙ ap ok (omega (arith, length-list s xs)))
]

pub array-Sized :
    (v : Val) {vs : Vals} (n : ℕ) (t : Typ) (s : Schema) (xs : Items)
    → items v ≡ ok vs
    → is_uint8 t ≡ false
    → length (serialize (Schema.vector n s) (Item.seq xs)) < 2 ^ 64
    → (is_variable s ≡ false → ItemsFixed vs t s xs)
    → (is_variable s ≡ true → ItemsOwn vs t s xs)
    → Sized v (Typ.array n t) (Schema.vector n s) (Item.seq xs)
unfolding is_variable depth determine_variable_size
array-Sized v n t s xs e u b fixed own zero h = absurd (omega arith)
array-Sized v n t s xs e u b fixed own (suc f) h =
    let bound = length-vector n s xs in
    elim (Bool-cases (is_variable s)) [
      | inl c ↦ rw (c, e) (own c f 0 (omega arith) (omega arith) ∙ ap ok (omega arith))
      | inr c ↦ rw (c, u, e) (fixed c f 0 (omega arith) (omega arith) ∙ ap ok (omega arith))
    ]

-- A byte array of any shape.
pub bytes-Sized :
    (v : Val) (n : ℕ) (xs : Items)
    → total (parts_of byte_schema xs) ≡ n
    → Sized v (Typ.array n byte_typ) (Schema.vector n byte_schema) (Item.seq xs)
unfolding is_variable depth determine_fixed_size
bytes-Sized v n xs e zero h = absurd (omega arith)
bytes-Sized v n xs e (suc f) h = ap ok (omega (arith, length-vector n byte_schema xs))

pub struct_sized :
    (fs : Fields) (vs : Vals) (ss : Schemas) (xs : Items)
    → length (serialize (Schema.container ss) (Item.seq xs)) < 2 ^ 64
    → (any_variable ss ≡ false → FieldsFixed fs vs ss xs)
    → FieldsSized fs vs ss xs
    → (v : Bool) → (any_variable ss ≡ true → v ≡ true)
    → (f : ℕ) → 8 * depth_all ss + 2 ≤ f
    → sized_by v f (Val.struct fs vs) (Typ.struct fs)
      ≡ ok (length (serialize (Schema.container ss) (Item.seq xs)))
unfolding determine_fixed_size
struct_sized fs vs ss xs b fixed sized v k zero h = absurd (omega arith)
struct_sized fs vs ss xs b fixed sized true k (suc f) h =
    sized f 0 (omega arith) (omega (arith, length-container ss xs))
    ∙ ap ok (omega (arith, length-container ss xs))
struct_sized fs vs ss xs b fixed sized false k (suc f) h = elim (Bool-cases (any_variable ss)) [
  | inl c ↦ cc (k c)
  | inr c ↦
      fixed c f 0 (omega arith) (omega (arith, length-container ss xs))
      ∙ ap ok (omega (arith, length-container ss xs))
]

pub total-zero_bytes : (n : ℕ) → total (parts_of byte_schema (zero_bytes n)) ≡ n
unfolding serialize
total-zero_bytes zero = refl
total-zero_bytes (suc n) = omega (arith, total-zero_bytes n)

pub width_lem : (k : Scalar) (w : ℕ) → uint_width k ≡ some w → scalar_size k ≡ w
unfolding scalar_size
width_lem k w e = ground arith

pub ptr_sized :
    (fs : Fields) (vs : Vals) (ss : Schemas) (xs : Items) (b : Bool) (f : ℕ) {n : ℕ}
    → sized_by b f (Val.struct fs vs) (Typ.struct fs) ≡ ok n
    → sized_by b (suc f) (Val.ptr (Val.struct fs vs)) (Typ.ptr (Typ.struct fs)) ≡ ok n
unfolding determine_fixed_size type_of
ptr_sized fs vs ss xs true f e = e
ptr_sized fs vs ss xs false f e = e

pub nil_ptr_sized :
    (fs : Fields) (vs : Vals) (ss : Schemas) (xs : Items) (b : Bool) (f : ℕ) {n : ℕ}
    → zero_fields fs ≡ vs
    → determine_variable_size f (Val.struct fs vs) (Typ.struct fs) ≡ ok n
    → sized_by b (suc f) (Val.nil_ptr (Typ.struct fs)) (Typ.ptr (Typ.struct fs)) ≡ ok n
unfolding determine_fixed_size zero_value
nil_ptr_sized fs vs ss xs true f z e = rw z e
nil_ptr_sized fs vs ss xs false f z e = rw z e

pub struct-Sized :
    (fs : Fields) (vs : Vals) (ss : Schemas) (xs : Items)
    → length (serialize (Schema.container ss) (Item.seq xs)) < 2 ^ 64
    → (any_variable ss ≡ false → FieldsFixed fs vs ss xs)
    → FieldsSized fs vs ss xs
    → Sized (Val.struct fs vs) (Typ.struct fs) (Schema.container ss) (Item.seq xs)
unfolding is_variable depth
struct-Sized fs vs ss xs b fixed sized f h =
    struct_sized fs vs ss xs b fixed sized (any_variable ss) (λ q. q) f (omega arith)

pub ptr-Sized :
    (fs : Fields) (vs : Vals) (ss : Schemas) (xs : Items)
    → length (serialize (Schema.container ss) (Item.seq xs)) < 2 ^ 64
    → (any_variable ss ≡ false → FieldsFixed fs vs ss xs)
    → FieldsSized fs vs ss xs
    → Sized
        (Val.ptr (Val.struct fs vs))
        (Typ.ptr (Typ.struct fs))
        (Schema.container ss)
        (Item.seq xs)
unfolding is_variable depth
ptr-Sized fs vs ss xs b fixed sized zero h = absurd (omega arith)
ptr-Sized fs vs ss xs b fixed sized (suc f) h =
    ptr_sized fs vs ss xs (any_variable ss) f
      (struct_sized fs vs ss xs b fixed sized (any_variable ss) (λ q. q) f (omega arith))

pub nil_ptr-Sized :
    (fs : Fields) (vs : Vals) (ss : Schemas) (xs : Items)
    → zero_fields fs ≡ vs
    → length (serialize (Schema.container ss) (Item.seq xs)) < 2 ^ 64
    → (any_variable ss ≡ false → FieldsFixed fs vs ss xs)
    → FieldsSized fs vs ss xs
    → Sized
        (Val.nil_ptr (Typ.struct fs))
        (Typ.ptr (Typ.struct fs))
        (Schema.container ss)
        (Item.seq xs)
unfolding is_variable depth
nil_ptr-Sized fs vs ss xs e b fixed sized zero h = absurd (omega arith)
nil_ptr-Sized fs vs ss xs e b fixed sized (suc f) h =
    nil_ptr_sized fs vs ss xs (any_variable ss) f e
      (struct_sized fs vs ss xs b fixed sized true (λ q. refl) f (omega arith))

pub boolean-Sized :
    (b : Bool)
    → Sized (Val.bool b) (Typ.scalar Scalar.bool) Schema.boolean (Item.num (if b then 1 else 0))
unfolding determine_fixed_size is_variable depth serialize
boolean-Sized b zero h = absurd (omega arith)
boolean-Sized b (suc f) h = refl

pub uint-Sized :
    (k : Scalar) (w n : ℕ)
    → uint_width k ≡ some w
    → Sized (Val.num k n) (Typ.scalar k) (Schema.uint w) (Item.num n)
unfolding determine_fixed_size is_variable depth serialize
uint-Sized k w n e zero h = absurd (omega arith)
uint-Sized k w n e (suc f) h = ap ok (width_lem k w e ∙ sym (length-le_bytes w n))

pub string-Sized :
    (cs : Text) (xs : Items)
    → ValsRep (bytes_as_vals cs) byte_typ byte_schema xs
    → Sized (Val.str cs) Typ.string (Schema.list byte_schema) (Item.seq xs)
unfolding determine_fixed_size is_variable depth
string-Sized cs xs rs zero h = absurd (omega arith)
string-Sized cs xs rs (suc f) h = ap ok (sym (count-bytes refl rs))
