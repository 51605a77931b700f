-- ===== src/Unmarshal/Zeros.antt =====
-- What zero values stand for, the sizes that Unmarshal finds of them, and which items have no bytes.
use go_ssz.Prelude.{ℕ, zero, suc, ◌*◌, ◌^◌, ◌≤◌, ◌<◌, ◌≡◌, refl, ap, sym, ◌∙◌, arith, true, false}
use go_ssz.Prelude.{some, length, ok, Bool-cases, inl, inr}
use mathlib.Core.Path.{subst₂}
use go_ssz.Reflect.{Scalar, Typ, Fields, Val, type_of, zero_value, zero_fields, items}
use go_ssz.Reflect.{repeat_val}
use go_ssz.Tags.{determine_field_type}
use go_ssz.Size.{is_uint8, determine_fixed_size}
use go_ssz.Ssz.{Schema, Schemas, Item, Items, is_variable, serialize, parts, parts_of, count_items}
use go_ssz.Ssz.{depth}
use go_ssz.Ssz.Parts.{part, part_size, total, length-join-total, length-le_bytes}
use go_ssz.Represents.{
  TypeRep, ValRep, ValsRep, FieldsRep, AllOwnSize, OwnSize, uint_width, byte_typ, byte_schema,
}
use go_ssz.Represents.Size.{determine_fixed_size-serialize}
use go_ssz.Unmarshal.Targets.{target, type_of-zero_value, count_vals-repeat_val}
use go_ssz.Unmarshal.Decodes.{
  AllMetadata, Decodes, DecodesAll, DecodesFields, fixed_size, length-serialize,
}

abbrev repeat_item : ℕ → Item → Items
repeat_item zero x = Items.nil
repeat_item (suc n) x = Items.cons x (repeat_item n x)

count_items-repeat_item : (n : ℕ) (x : Item) → count_items (repeat_item n x) ≡ n
count_items-repeat_item zero x = refl
count_items-repeat_item (suc n) x = ap suc (count_items-repeat_item n x)

zero_num : (k : Scalar) {w : ℕ} → uint_width k ≡ some w → zero_value (Typ.scalar k) ≡ Val.num k 0
unfolding zero_value
zero_num Scalar.bool e = cc
zero_num _ e = refl

pub uint8_schema :
    {t : Typ} {s : Schema} → is_uint8 t ≡ true → TypeRep t s → (t ≡ byte_typ) × (s ≡ byte_schema)
uint8_schema h (TypeRep.uint {k = Scalar.uint8} e) = (refl, cc)
uint8_schema h _ = cc

repeat-ValsRep :
    {v : Val} {t : Typ} {s : Schema} {x : Item} (n : ℕ)
    → ValRep v t s x
    → ValsRep (repeat_val n v) t s (repeat_item n x)
repeat-ValsRep zero r = ValsRep.no_vals
repeat-ValsRep (suc n) r = ValsRep.each r (repeat-ValsRep n r)

repeat-AllOwnSize : (v : Val) {t : Typ} (n : ℕ) → type_of v ≡ ok t → AllOwnSize (repeat_val n v) t
repeat-AllOwnSize v zero e = AllOwnSize.no_vals
repeat-AllOwnSize v (suc n) e = AllOwnSize.each (OwnSize.same e) (repeat-AllOwnSize v n e)

repeat-DecodesAll :
    {t : Typ} {s : Schema} {x : Item} (n : ℕ) → Decodes t s x → DecodesAll t s (repeat_item n x)
repeat-DecodesAll zero d = DecodesAll.no_items
repeat-DecodesAll (suc n) d = DecodesAll.each d (repeat-DecodesAll n d)

abbrev ZeroArray : ℕ → Item → Typ → Schema → Type 0
ZeroArray n x t s =
    ValRep (zero_value t) t s x
    → ValRep (Val.array t (repeat_val n (zero_value t))) (Typ.array n t) (Schema.vector n s)
        (Item.seq (repeat_item n x))

bytes_zero : (n : ℕ) (x : Item) → ZeroArray n x byte_typ byte_schema
unfolding zero_value
bytes_zero n x v =
    ValRep.byte_array (count_vals-repeat_val n (zero_value byte_typ)) (repeat-ValsRep n v)

-- An array of zero values.
array_zero :
    {t : Typ} {s : Schema} {x : Item} (n : ℕ)
    → TypeRep t s
    → ValRep (zero_value t) t s x
    → ValRep
        (zero_value (Typ.array n t))
        (Typ.array n t)
        (Schema.vector n s)
        (Item.seq (repeat_item n x))
unfolding zero_value items
array_zero {t} {s} {x} n r v = elim (Bool-cases (is_uint8 t)) [
  | inl u ↦
      let (p, q) = uint8_schema u r in subst₂ (ZeroArray n x) (sym p) (sym q) (bytes_zero n x) v
  | inr u ↦
      ValRep.array refl (count_vals-repeat_val n (zero_value t)) u r
        (λ z. repeat-AllOwnSize (zero_value t) n (type_of-zero_value t)) (repeat-ValsRep n v)
]

-- A zero value stands for some item that is decoded at the same type.
abbrev ZeroRep : Typ → Schema → Type 0
ZeroRep t s = (z : Item) × ValRep (zero_value t) t s z × Decodes t s z

abbrev ZeroFields : Fields → Schemas → Type 0
ZeroFields fs ss = (zs : Items) × FieldsRep fs (zero_fields fs) ss zs × DecodesFields fs ss zs

pub metadata_zero :
    {fs : Fields} → AllMetadata fs → FieldsRep fs (zero_fields fs) Schemas.nil Items.nil
unfolding zero_value
metadata_zero AllMetadata.no_more = FieldsRep.no_fields
metadata_zero (AllMetadata.one_more m r) = FieldsRep.skip m (metadata_zero r)

mutual
  unfolding zero_value items determine_field_type

  zero_rep : {t : Typ} {s : Schema} {x : Item} → Decodes t s x → ZeroRep t s
  zero_rep (Decodes.boolean b) = (Item.num 0, ValRep.boolean {b = false}, Decodes.boolean false)
  zero_rep (Decodes.uint {k = k} {w = w} e h) =
      let p : 0 < 256 ^ w = omega (arith, h) in
      (Item.num 0, rw (zero_num k e) (ValRep.uint e p), Decodes.uint e p)
  zero_rep (Decodes.string d) =
      (Item.seq Items.nil, ValRep.string ValsRep.no_vals, Decodes.string DecodesAll.no_items)
  zero_rep (Decodes.slice r d) = (
    Item.seq Items.nil,
    ValRep.slice refl r AllOwnSize.no_vals ValsRep.no_vals,
    Decodes.slice r DecodesAll.no_items,
  )
  zero_rep (Decodes.array p c o r DecodesAll.no_items) = absurd (omega (arith, p, c))
  zero_rep (Decodes.array {n = n} p c o r (DecodesAll.each d ds)) =
      let (z, v, e) = zero_rep d in
      (
        Item.seq (repeat_item n z),
        array_zero n r v,
        Decodes.array p (count_items-repeat_item n z) o r (repeat-DecodesAll n e),
      )
  zero_rep (Decodes.struct d) =
      let (zs, v, e) = zero_all d in (Item.seq zs, ValRep.struct v, Decodes.struct e)
  zero_rep (Decodes.ptr d) =
      let (zs, v, e) = zero_all d in (Item.seq zs, ValRep.nil_ptr refl v, Decodes.ptr e)

  zero_all : {fs : Fields} {ss : Schemas} {xs : Items} → DecodesFields fs ss xs → ZeroFields fs ss
  zero_all (DecodesFields.finished m) = (Items.nil, metadata_zero m, DecodesFields.finished m)
  zero_all (DecodesFields.keep m d ds) =
      let (z, v, e) = zero_rep d in
      let (zs, vs, es) = zero_all ds in
      (Items.cons z zs, FieldsRep.keep m refl v vs, DecodesFields.keep m e es)

target_rep :
    {t : Typ} {s : Schema} {x : Item}
    → Decodes t s x
    → (z : Item) × ValRep (target t) t s z × Decodes t s z
unfolding zero_value
target_rep (Decodes.boolean b) = zero_rep (Decodes.boolean b)
target_rep (Decodes.uint e h) = zero_rep (Decodes.uint e h)
target_rep (Decodes.string d) = zero_rep (Decodes.string d)
target_rep (Decodes.slice r d) = zero_rep (Decodes.slice r d)
target_rep (Decodes.array p c o r d) = zero_rep (Decodes.array p c o r d)
target_rep (Decodes.struct d) = zero_rep (Decodes.struct d)
target_rep (Decodes.ptr d) =
    let (zs, v, e) = zero_all d in (Item.seq zs, ValRep.ptr v, Decodes.ptr e)

-- A field of fixed size has that size before it is decoded.
pub determine_fixed_size-target :
    {t : Typ} {s : Schema} {x : Item}
    → Decodes t s x
    → is_variable s ≡ false
    → fixed_size s < 2 ^ 64
    → (f : ℕ) → 8 * depth s ≤ f
    → determine_fixed_size f (target t) t ≡ ok (fixed_size s)
determine_fixed_size-target d z b f h =
    let (i, r, e) = target_rep d in
    let l = length-serialize e z in
    determine_fixed_size-serialize r z (omega (arith, l, b)) f h ∙ ap ok l

uint_width_pos : (k : Scalar) {w : ℕ} → uint_width k ≡ some w → 0 < w
uint_width_pos k e = ground arith

-- Every item takes room in what it stands in.
abbrev room : Schema → Item → ℕ
room s x = part_size (part (is_variable s) (serialize s x))

variable_room : (s : Schema) (x : Item) → is_variable s ≡ true → 0 < room s x
variable_room s x z = rw z (omega arith)

fixed_room :
    (s : Schema) (x : Item) → is_variable s ≡ false → 0 < length (serialize s x) → 0 < room s x
fixed_room s x z h = rw z h

room_pos :
    (s : Schema) (x : Item) → (is_variable s ≡ false → 0 < length (serialize s x)) → 0 < room s x
room_pos s x h = elim (Bool-cases (is_variable s)) [
  | inl z ↦ variable_room s x z
  | inr z ↦ fixed_room s x z (h z)
]

mutual
  unfolding serialize is_variable

  pub length-serialize_pos :
      {t : Typ} {s : Schema} {x : Item}
      → Decodes t s x
      → is_variable s ≡ false
      → 0 < length (serialize s x)
  length-serialize_pos (Decodes.boolean b) z = omega arith
  length-serialize_pos (Decodes.uint {k = k} {w = w} {n = n} e h) z =
      let p = uint_width_pos k e in let l = length-le_bytes w n in omega (arith, p, l)
  length-serialize_pos (Decodes.string d) z = cc
  length-serialize_pos (Decodes.slice r d) z = cc
  length-serialize_pos (Decodes.array {s = s} {xs = xs} p c o r d) z =
      let l = length-join-total (parts_of s xs) in
      let m = total_pos d (omega (arith, p, c)) in omega (arith, l, m)
  length-serialize_pos (Decodes.struct {s = s} {ss = ss} {xs = xs} d) z =
      let l = length-join-total (parts (Schemas.cons s ss) xs) in
      let m = total-parts_pos d in omega (arith, l, m)
  length-serialize_pos (Decodes.ptr {s = s} {ss = ss} {xs = xs} d) z =
      let l = length-join-total (parts (Schemas.cons s ss) xs) in
      let m = total-parts_pos d in omega (arith, l, m)

  pub total_pos :
      {t : Typ} {s : Schema} {xs : Items}
      → DecodesAll t s xs
      → 0 < count_items xs
      → 0 < total (parts_of s xs)
  total_pos DecodesAll.no_items h = absurd (omega (arith, h))
  total_pos (DecodesAll.each {s = s} {x = x} d ds) h =
      let p = room_pos s x (length-serialize_pos d) in omega (arith, p)

  pub total-parts_pos :
      {fs : Fields} {s : Schema} {ss : Schemas} {xs : Items}
      → DecodesFields fs (Schemas.cons s ss) xs
      → 0 < total (parts (Schemas.cons s ss) xs)
  total-parts_pos (DecodesFields.keep {s = s} {x = x} m d ds) =
      let p = room_pos s x (length-serialize_pos d) in omega (arith, p)
