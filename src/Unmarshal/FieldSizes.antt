-- ===== src/Unmarshal/FieldSizes.antt =====
-- The sizes that structSSZ.Unmarshal finds of the fields of a zero value, and the targets it makes.
use go_ssz.Prelude.{ℕ, ◌*◌, ◌^◌, ◌≤◌, ◌<◌, ◌≡◌, refl, arith, true, false, ok, List, [], ◌∷◌}
use go_ssz.Prelude.{Option, none, some, if◌then◌else◌, Bool-cases, inl, inr}
use go_ssz.Reflect.{Typ, Fields, Val, Vals, nil, cons, end, field, zero_value, zero_fields}
use go_ssz.Tags.{determine_field_type, parse_ssz_field_tags}
use go_ssz.Ssz.{Schema, Schemas, Item, Items, is_variable, depth, depth_all}
use go_ssz.Represents.Variable.{is_variable_size_type-is_variable}
use go_ssz.Unmarshal.{count_fields, fixed_sizes, sized, concrete_field}
use go_ssz.Unmarshal.Targets.{target, IsFresh, IsFresh-target, concrete_field-target}
use go_ssz.Unmarshal.Decodes.{AllMetadata, Decodes, DecodesFields, Decodes-TypeRep, fixed_size}
use go_ssz.Unmarshal.Zeros.{determine_fixed_size-target}

-- The fields before they are read: those of fixed size have targets.
abbrev pub ready_field : Typ → Schema → Val
ready_field t s = if is_variable s then zero_value t else target t

abbrev pub ready : Fields → Schemas → Vals
ready fs Schemas.nil = zero_fields fs
ready end (Schemas.cons s ss) = nil
ready (field name size max t fs) (Schemas.cons s ss) = cons (ready_field t s) (ready fs ss)

abbrev pub field_size : Schema → Option ℕ
field_size s = if is_variable s then none else some (fixed_size s)

abbrev pub sizes_of : Schemas → List (Option ℕ)
sizes_of Schemas.nil = []
sizes_of (Schemas.cons s ss) = field_size s ∷ sizes_of ss

-- Every field of fixed size has a size that a number of 64 bits holds.
abbrev pub AllSmall : Schemas → Type 0
AllSmall Schemas.nil = true ≡ true
AllSmall (Schemas.cons s ss) = (is_variable s ≡ false → fixed_size s < 2 ^ 64) × AllSmall ss

pub count_fields-AllMetadata : {fs : Fields} → AllMetadata fs → count_fields fs ≡ 0
unfolding count_fields
count_fields-AllMetadata AllMetadata.no_more = refl
count_fields-AllMetadata (AllMetadata.one_more m r) = rw m (count_fields-AllMetadata r)

sized-target :
    (f : ℕ) {t : Typ} {s : Schema} {x : Item}
    → Decodes t s x
    → is_variable s ≡ false
    → fixed_size s < 2 ^ 64
    → 8 * depth s ≤ f
    → sized f none t t (zero_value t) ≡ ok (fixed_size s, target t)
unfolding sized parse_ssz_field_tags
sized-target f {t} d z b h =
    rw (concrete_field-target (IsFresh.untouched t), determine_fixed_size-target d z b f h) refl

pub fixed_sizes-sizes_of :
    (f : ℕ) {fs : Fields} {ss : Schemas} {xs : Items}
    → DecodesFields fs ss xs
    → AllSmall ss
    → 8 * depth_all ss ≤ f
    → fixed_sizes f (count_fields fs) fs (zero_fields fs) ≡ ok (sizes_of ss, ready fs ss)
unfolding fixed_sizes count_fields depth zero_value determine_field_type
fixed_sizes-sizes_of f (DecodesFields.finished m) b h = rw (count_fields-AllMetadata m) refl
fixed_sizes-sizes_of f (DecodesFields.keep {t = t} {s = s} m d ds) (b, bs) h =
    let v = is_variable_size_type-is_variable (Decodes-TypeRep d) f (omega arith) in
    let rest = fixed_sizes-sizes_of f ds bs (omega arith) in
    elim (Bool-cases (is_variable s)) [
      | inl z ↦ rw (m, v, z, rest) refl
      | inr z ↦ rw (m, v, z, sized-target f d z (b z) (omega arith), rest) refl
    ]

-- What stands ready gets its target, if it has none.
pub ready-target : (t : Typ) (s : Schema) → concrete_field (ready_field t s) t ≡ ok (target t)
ready-target t s = elim (Bool-cases (is_variable s)) [
  | inl z ↦ rw z (concrete_field-target (IsFresh.untouched t))
  | inr z ↦ rw z (concrete_field-target (IsFresh-target t))
]
