-- ===== src/Unmarshal/FieldSteps.antt =====
-- One round of the loop of structSSZ.Unmarshal over the fields.
use go_ssz.Prelude.{
  ℕ, suc, ◌+◌, ◌*◌, ◌^◌, ◌≤◌, ◌<◌, ◌≡◌, refl, ap, arith, true, false, ok, List, ◌∷◌,
}
use go_ssz.Prelude.{◌++◌, length, none, Option, ◌==◌}
use go_ssz.Buffer.{Buf}
use go_ssz.Buffer.Writes.{lengths}
use go_ssz.Reflect.{Typ, Text, Fields, Val, Vals, cons, zero_fields}
use go_ssz.Tags.{determine_field_type, is_metadata}
use go_ssz.Size.{◌+u64◌}
use go_ssz.Input.{Input, slice_input}
use go_ssz.Decode.{Decoder}
use go_ssz.Ssz.{Schema, Schemas, Item, Items, is_variable, serialize, parts, depth}
use go_ssz.Ssz.Parts.{tails}
use go_ssz.Represents.Factory.{choice}
use go_ssz.Unmarshal.{
  unmarshal_with, unmarshal_fixed, unmarshal_variable, unmarshal_place, unmarshal_fields,
}
use go_ssz.Unmarshal.Targets.{target, IsFresh-target, ssz_factory-fresh}
use go_ssz.Unmarshal.Reads.{input_of, slice_input-append}
use go_ssz.Unmarshal.Decodes.{
  Reads, AllMetadata, Decodes, Decodes-TypeRep, fixed_size, length-serialize,
}
use go_ssz.Unmarshal.Composites.{item_read}
use go_ssz.Unmarshal.Zeros.{length-serialize_pos}
use go_ssz.Unmarshal.FieldSizes.{ready_field, ready-target, field_size}
use go_ssz.Unmarshal.FieldOffsets.{settled}

-- The values that the loop leaves in the fields.
pub data FieldsRead (f : ℕ) : Fields → Vals → Schemas → Items → Type 0 where
  finished : {fs : Fields} → AllMetadata fs → FieldsRead f fs (zero_fields fs) Schemas.nil Items.nil
  keep :
      {name : Text} {max : Option Text} {t : Typ} {fs : Fields} {s : Schema} {ss : Schemas}
      {x : Item} {xs : Items} {v : Val} {vs : Vals}
      → is_metadata name ≡ false
      → Decodes t s x
      → Reads f v t s x
      → FieldsRead f fs vs ss xs
      → FieldsRead f
          (Fields.field name none max t fs)
          (cons (settled t s v (length (serialize s x ++ tails (parts ss xs)))) vs)
          (Schemas.cons s ss)
          (Items.cons x xs)

pub fixed_read :
    (f : ℕ) (t : Typ) (s : Schema) (v : Val) (x : Item) (pre after bytes : Buf) (len : ℕ)
    → Decodes t s x
    → Reads f v t s x
    → is_variable s ≡ false
    → bytes ≡ pre ++ (serialize s x ++ after)
    → length bytes < 2 ^ 64
    → length (serialize s x) < 2 ^ 32
    → unmarshal_fixed
        (unmarshal_with f (choice t s))
        (fixed_size s)
        (target t)
        t
        (input_of bytes len)
        (length pre)
      ≡ ok (v, length pre + length (serialize s x))
unfolding unmarshal_fixed
fixed_read f t s v x pre after bytes len d r z e b c =
    let bs = serialize s x in
    let k = length-serialize d z in
    let p = length-serialize_pos d z in
    let n = ap (λ (ys : Buf). length ys) e in
    let w : (fixed_size s == 0) ≡ false = ground (arith, k, p) in
    let m : length pre +u64 fixed_size s ≡ length pre + length bs = omega (lengths, k, n, b) in
    let (index, i) = item_read f v t s x after r (omega (lengths, n, b)) c in
    let q : slice_input (input_of bytes len) (length pre) (length pre + length bs)
        ≡ ok (input_of (bs ++ after) (length bs)) =
      rw e (slice_input-append pre bs after len (length pre) (length pre + length bs) refl refl) in
    rw (w, m, q, i) refl

-- One round of the loop
pub fields_step :
    (f n : ℕ) (name : Text) (max : Option Text) {t : Typ} {s : Schema} {x : Item} (fs : Fields)
    (vs : Vals) (sizes : List (Option ℕ)) (input : Input) (current next last : ℕ) (os os' : List ℕ)
    (w : Val) (ws : Vals)
    → Decodes t s x
    → 4 * depth s ≤ f + 4
    → unmarshal_place (unmarshal_with f (choice t s)) (field_size s) (target t) t input current os
      ≡ ok (w, next, os')
    → unmarshal_fields f (unmarshal_with f) n fs vs sizes input next os' ≡ ok (ws, last)
    → unmarshal_fields f
        (unmarshal_with f)
        (suc n)
        (Fields.field name none max t fs)
        (cons (ready_field t s) vs)
        (field_size s ∷ sizes)
        input
        current
        os
      ≡ ok (cons w ws, last)
unfolding unmarshal_fields determine_field_type
fields_step f n name max {t} {s} fs vs sizes input current next last os os' w ws d h p q =
    rw (ready-target t s, ssz_factory-fresh (IsFresh-target t) (Decodes-TypeRep d) f h, p, q) refl

pub variable_place :
    (self : Decoder) (s : Schema) (v : Val) (t : Typ) (input : Input) (current : ℕ)
    (os os' : List ℕ) (w : Val)
    → is_variable s ≡ true
    → unmarshal_variable self v t input os ≡ ok (w, os')
    → current + 4 < 2 ^ 64
    → unmarshal_place self (field_size s) v t input current os ≡ ok (w, current + 4, os')
unfolding unmarshal_place
variable_place self s v t input current os os' w z e b =
    let m : current +u64 4 ≡ current + 4 = omega (arith, b) in rw (z, e, m) refl

pub fixed_place :
    (self : Decoder) (s : Schema) (v : Val) (t : Typ) (input : Input) (current next : ℕ)
    (os : List ℕ) (w : Val)
    → is_variable s ≡ false
    → unmarshal_fixed self (fixed_size s) v t input current ≡ ok (w, next)
    → unmarshal_place self (field_size s) v t input current os ≡ ok (w, next, os)
unfolding unmarshal_place
fixed_place self s v t input current next os w z e = rw (z, e) refl
