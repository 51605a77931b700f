-- ===== src/Represents/Size/Claims.antt =====
-- What DetermineSize has to find of a value, of items and of fields, and the lengths of serializations.
use go_ssz.Prelude.{ℕ, zero, suc, ◌+◌, ◌*◌, ◌^◌, ◌≤◌, ◌<◌, ◌≡◌, refl, ◌∙◌, Bool, true, false}
use go_ssz.Prelude.{ok, Result, arith, subst, if◌then◌else◌, length}
use go_ssz.Reflect.{Scalar, Typ, Fields, Val, Vals, items, type_of, count_vals}
use go_ssz.Buffer.{Buf}
use go_ssz.Size.{
  determine_size, determine_fixed_size, determine_variable_size, sized_item, sized_field,
}
use go_ssz.Size.{sum_items, sum_fields, with_offset, is_uint8, is_variable_size_type}
use go_ssz.Ssz.{Schema, Schemas, Item, Items, is_variable, depth, depth_all}
use go_ssz.Ssz.{serialize, parts, parts_of}
use go_ssz.Ssz.Parts.{part, part_size, total, length-join-total, length-le_bytes}
use go_ssz.Represents.{TypeRep, ValRep, ValsRep}
use go_ssz.Represents.{byte_schema}
use go_ssz.Represents.Variable.{is_variable_size_type-is_variable}

-- The size of a value at a type, by the function that fits the type.
abbrev pub sized_by : Bool → ℕ → Val → Typ → Result ℕ
sized_by variable f v t =
    if variable then determine_variable_size f v t else determine_fixed_size f v t

pub offset_lem :
    (b : Bool) (bs : Buf)
    → part_size (part b bs) < 2 ^ 64
    → with_offset b (length bs) ≡ part_size (part b bs)
unfolding with_offset
offset_lem true bs h = omega arith
offset_lem false bs h = refl

pub length-le-part : (b : Bool) (bs : Buf) → length bs ≤ part_size (part b bs)
length-le-part true bs = omega arith
length-le-part false bs = omega arith

-- What the recursion has to show of a value.
abbrev pub Sized : Val → Typ → Schema → Item → Type 0
Sized v t s x =
    (f : ℕ) → 8 * depth s ≤ f → sized_by (is_variable s) f v t ≡ ok (length (serialize s x))

abbrev pub OwnSized : Val → Schema → Item → Type 0
OwnSized v s x = (f : ℕ) → 8 * depth s + 3 ≤ f → determine_size f v ≡ ok (length (serialize s x))

-- A value that is no pointer is sized at its own type.
abbrev pub is_pointer : Val → Bool
is_pointer (Val.ptr v) = true
is_pointer (Val.nil_ptr t) = true
is_pointer _ = false

pub determine_size_lem :
    (v : Val) {t : Typ} {b : Bool} (f : ℕ)
    → is_pointer v ≡ false
    → type_of v ≡ ok t
    → is_variable_size_type f t ≡ ok b
    → determine_size (suc f) v ≡ sized_by b f v t
unfolding determine_size
determine_size_lem (Val.ptr v) f p e r = cc
determine_size_lem (Val.nil_ptr v) f p e r = cc
determine_size_lem _ f p e r = rw (e, r)

pub own_lem :
    (v : Val) {t : Typ} {s : Schema} (x : Item)
    → is_pointer v ≡ false
    → type_of v ≡ ok t
    → TypeRep t s
    → Sized v t s x
    → (f : ℕ) → 8 * depth s + 1 ≤ f
    → determine_size f v ≡ ok (length (serialize s x))
own_lem v x p e r h zero k = absurd (omega arith)
own_lem v x p e r h (suc f) k =
    determine_size_lem v f p e (is_variable_size_type-is_variable r f (omega arith))
    ∙ h f (omega arith)

pub items_no_pointer : (v : Val) {vs : Vals} → items v ≡ ok vs → is_pointer v ≡ false
unfolding items
items_no_pointer (Val.ptr v) h = cc
items_no_pointer (Val.nil_ptr t) h = cc
items_no_pointer _ h = refl

pub total-bytes :
    {vs : Vals} {t : Typ} {w : ℕ} {xs : Items}
    → ValsRep vs t (Schema.uint w) xs
    → total (parts_of (Schema.uint w) xs) ≡ w * count_vals vs
unfolding serialize
total-bytes ValsRep.no_vals = omega arith
total-bytes {w = w} (ValsRep.each (ValRep.uint {n = n} e h) rs) =
    let k = length-le_bytes w n in grind (arith, total-bytes rs)

pub byte_inversion : {t : Typ} {s : Schema} → TypeRep t s → is_uint8 t ≡ true → s ≡ byte_schema
byte_inversion (TypeRep.uint {k = Scalar.uint8} e) h = cc
byte_inversion _ h = cc

pub count-bytes :
    {vs : Vals} {t : Typ} {s : Schema} {xs : Items}
    → s ≡ byte_schema
    → ValsRep vs t s xs
    → length (serialize (Schema.list s) (Item.seq xs)) ≡ count_vals vs
unfolding serialize
count-bytes {vs} {t} {s} {xs} e r =
    rw (length-join-total, e) (omega (arith, total-bytes (subst (λ u. ValsRep vs t u xs) e r)))

-- What the loops over items and over fields have to find.
abbrev pub ItemsFixed : Vals → Typ → Schema → Items → Type 0
ItemsFixed vs t s xs =
    (f : ℕ) (acc : ℕ)
    → 8 * depth s ≤ f
    → acc + total (parts_of s xs) < 2 ^ 64
    → sum_items (λ v. determine_fixed_size f v t) vs acc ≡ ok (acc + total (parts_of s xs))

abbrev pub ItemsOwn : Vals → Typ → Schema → Items → Type 0
ItemsOwn vs t s xs =
    (f : ℕ) (acc : ℕ)
    → 8 * depth s + 4 ≤ f
    → acc + total (parts_of s xs) < 2 ^ 64
    → sum_items (λ v. sized_item f t v) vs acc ≡ ok (acc + total (parts_of s xs))

abbrev pub FieldsFixed : Fields → Vals → Schemas → Items → Type 0
FieldsFixed fs vs ss xs =
    (f : ℕ) (acc : ℕ)
    → 8 * depth_all ss ≤ f
    → acc + total (parts ss xs) < 2 ^ 64
    → sum_fields (determine_fixed_size f) fs vs acc ≡ ok (acc + total (parts ss xs))

abbrev pub FieldsSized : Fields → Vals → Schemas → Items → Type 0
FieldsSized fs vs ss xs =
    (f : ℕ) (acc : ℕ)
    → 8 * depth_all ss + 1 ≤ f
    → acc + total (parts ss xs) < 2 ^ 64
    → sum_fields (sized_field f) fs vs acc ≡ ok (acc + total (parts ss xs))

-- The serialization of a composite is as long as its parts.
pub length-list :
    (s : Schema) (xs : Items)
    → length (serialize (Schema.list s) (Item.seq xs)) ≡ total (parts_of s xs)
unfolding serialize
length-list s xs = length-join-total (parts_of s xs)

pub length-vector :
    (n : ℕ) (s : Schema) (xs : Items)
    → length (serialize (Schema.vector n s) (Item.seq xs)) ≡ total (parts_of s xs)
unfolding serialize
length-vector n s xs = length-join-total (parts_of s xs)

pub length-container :
    (ss : Schemas) (xs : Items)
    → length (serialize (Schema.container ss) (Item.seq xs)) ≡ total (parts ss xs)
unfolding serialize
length-container ss xs = length-join-total (parts ss xs)
