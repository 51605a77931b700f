-- ===== src/Represents/Size/Steps.antt =====
-- One round of the loops that add up the sizes of items and fields.
use go_ssz.Prelude.{ℕ, suc, ◌+◌, ◌^◌, ◌<◌, ◌≡◌, refl, ap, Bool, true, false}
use go_ssz.Prelude.{ok, Result, arith, ◌||◌, ◌%◌, Option, length}
use go_ssz.Reflect.{Typ, Fields, Val, Vals, Text}
use go_ssz.Buffer.{Buf}
use go_ssz.Tags.{is_metadata, determine_field_type}
use go_ssz.Size.{determine_size, determine_fixed_size, sized_item, sized_field}
use go_ssz.Size.{sum_items, sum_fields, is_variable_size_type}
use go_ssz.Ssz.Parts.{part, part_size}
use go_ssz.Represents.Size.Claims.{sized_by, offset_lem}

pub sum_items_step :
    (self : Val → Result ℕ) (v : Val) (vs : Vals) (acc m rest : ℕ)
    → self v ≡ ok m
    → acc + (m + rest) < 2 ^ 64
    → sum_items self vs (acc + m) ≡ ok (acc + m + rest)
    → sum_items self (Vals.cons v vs) acc ≡ ok (acc + (m + rest))
unfolding sum_items
sum_items_step self v vs acc m rest e b ih =
    let small : (acc + m) % 2 ^ 64 ≡ acc + m = omega arith in
    rw (e, small, ih) (ap ok (omega arith))

pub sum_fields_step :
    (self : Val → Typ → Result ℕ) (name : Text) (size max : Option Text) (t u : Typ) (fs : Fields)
    (v : Val) (vs : Vals) (acc m rest : ℕ)
    → is_metadata name ≡ false
    → determine_field_type size t ≡ ok u
    → self v u ≡ ok m
    → acc + (m + rest) < 2 ^ 64
    → sum_fields self fs vs (acc + m) ≡ ok (acc + m + rest)
    → sum_fields self (Fields.field name size max t fs) (Vals.cons v vs) acc ≡ ok (acc + (m + rest))
unfolding sum_fields
sum_fields_step self name size max t u fs v vs acc m rest k d e b ih =
    let small : (acc + m) % 2 ^ 64 ≡ acc + m = omega arith in
    rw (k, d, e, small, ih) (ap ok (omega arith))

pub sum_fields_skip :
    (self : Val → Typ → Result ℕ) (name : Text) (size max : Option Text) (t : Typ) (fs : Fields)
    (v : Val) (vs : Vals) (acc : ℕ)
    → is_metadata name ≡ true
    → sum_fields self (Fields.field name size max t fs) (Vals.cons v vs) acc
      ≡ sum_fields self fs vs acc
unfolding sum_fields
sum_fields_skip self name size max t fs v vs acc k = rw k

-- The bodies of the two loops, once the size of the value is known.
pub item_step :
    (f : ℕ) (t : Typ) (v : Val) (b : Bool) (bs : Buf)
    → determine_size f v ≡ ok (length bs)
    → is_variable_size_type f t ≡ ok b
    → part_size (part b bs) < 2 ^ 64
    → sized_item (suc f) t v ≡ ok (part_size (part b bs))
unfolding sized_item
item_step f t v b bs d e h = rw (d, e, offset_lem b bs h)

pub field_step :
    (f : ℕ) (t : Typ) (v : Val) (b : Bool) (bs : Buf)
    → sized_by b f v t ≡ ok (length bs)
    → is_variable_size_type f t ≡ ok b
    → part_size (part b bs) < 2 ^ 64
    → sized_field (suc f) v t ≡ ok (part_size (part b bs))
unfolding sized_field
field_step f t v b bs d e h = rw (e, d, offset_lem b bs h)

-- A part of fixed size is as long as its bytes.
pub part_fixed :
    {q : Bool} (f : ℕ) (v : Val) (t : Typ) (bs : Buf)
    → q ≡ false
    → sized_by q f v t ≡ ok (length bs)
    → determine_fixed_size f v t ≡ ok (part_size (part q bs))
part_fixed {q = true} f v t bs e h = cc
part_fixed {q = false} f v t bs e h = h

pub or_false : (a b : Bool) → (a || b) ≡ false → (a ≡ false) × (b ≡ false)
or_false true b h = cc
or_false false b h = (refl, h)
