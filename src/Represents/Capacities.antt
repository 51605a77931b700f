-- ===== src/Represents/Capacities.antt =====
-- Which values stand for which items where lists have capacities, as the tags of struct fields give
-- them (types/struct.go). Empty arrays are left out.
use go_ssz.Prelude.{ℕ, ◌^◌, ◌<◌, ◌≡◌, refl, ap, suc, true, false, Option, ok, arith, [], ◌∷◌}
use go_ssz.Prelude.{length}
use go_ssz.Reflect.{
  Text, Typ, Fields, Val, Vals, kind, items, zero_fields, bytes_as_vals, count_vals,
}
use go_ssz.Tags.{
  is_metadata, has_prefix, contains, xxx, determine_field_type, determine_field_capacity,
}
use go_ssz.Size.{is_basic_type, is_uint8, is_root}
use go_ssz.Factory.{Factory}
use go_ssz.Ssz.{Schema, Schemas, Item, Items, is_variable, serialize, count_items}
use go_ssz.HashTree.Capped.{Caps, FieldCaps}
use go_ssz.Represents.{
  TypeRep, ValRep, ValsRep, FieldsRep, OwnSize, AllOwnSize, byte_typ, byte_schema,
}
use go_ssz.Represents.Factory.{choice}

-- A capacity that the arithmetic of the limits can take
abbrev pub max_capacity : ℕ
max_capacity = 2 ^ 58

-- Names of metadata begin with the mark.
pub data Metadata : Fields → Vals → Type 0 where
  no_more : Metadata Fields.end Vals.nil
  more :
      {name : Text} {size max : Option Text} {t : Typ} {fs : Fields} {v : Val} {vs : Vals}
      → has_prefix name xxx ≡ true
      → Metadata fs vs
      → Metadata (Fields.field name size max t fs) (Vals.cons v vs)

mutual
  pub data CapRep : Val → Typ → Schema → Item → Caps → Type 0 where
    leaf :
        {v : Val} {t : Typ} {s : Schema} {x : Item} {c : Caps}
        → ValRep v t s x
        → choice t s ≡ Factory.basic
        → OwnSize v t
        → length (serialize s x) < 2 ^ 64
        → CapRep v t s x c
    string :
        {cs : Text} {xs : Items}
        → ValsRep (bytes_as_vals cs) byte_typ byte_schema xs
        → CapRep (Val.str cs) Typ.string (Schema.list byte_schema) (Item.seq xs) Caps.text
    numbers :
        {v : Val} {vs : Vals} {t : Typ} {s : Schema} {xs : Items}
        → items v ≡ ok vs
        → is_basic_type (kind t) ≡ true
        → TypeRep t s
        → AllOwnSize vs t
        → ValsRep vs t s xs
        → CapRep v (Typ.slice t) (Schema.list s) (Item.seq xs) Caps.open_end
    slice :
        {v : Val} {vs : Vals} {t : Typ} {s : Schema} {xs : Items} {c : Caps}
        → items v ≡ ok vs
        → is_basic_type (kind t) ≡ false
        → TypeRep t s
        → AllOwnSize vs t
        → CapsRep vs t s xs c
        → CapRep v (Typ.slice t) (Schema.list s) (Item.seq xs) c
    array :
        {v : Val} {vs : Vals} {n : ℕ} {t : Typ} {s : Schema} {xs : Items} {c : Caps}
        → items v ≡ ok vs
        → count_vals vs ≡ n
        → 0 < n
        → n < max_capacity
        → is_basic_type (kind t) ≡ false
        → is_root t ≡ false
        → TypeRep t s
        → (is_variable s ≡ true → AllOwnSize vs t)
        → CapsRep vs t s xs c
        → CapRep v (Typ.array n t) (Schema.vector n s) (Item.seq xs) c
    roots :
        {v : Val} {vs : Vals} {n : ℕ} {t : Typ} {s : Schema} {xs : Items} {c : Caps}
        → items v ≡ ok vs
        → count_vals vs ≡ n
        → 0 < n
        → n < max_capacity
        → is_root t ≡ true
        → TypeRep t s
        → ValsRep vs t s xs
        → CapRep v (Typ.array n t) (Schema.vector n s) (Item.seq xs) c
    struct :
        {fs : Fields} {vs : Vals} {ss : Schemas} {xs : Items} {cs : FieldCaps}
        → FieldsCap fs vs ss xs cs
        → CapRep
            (Val.struct fs vs)
            (Typ.struct fs)
            (Schema.container ss)
            (Item.seq xs)
            (Caps.fields cs)
    ptr :
        {fs : Fields} {vs : Vals} {ss : Schemas} {xs : Items} {cs : FieldCaps}
        → FieldsCap fs vs ss xs cs
        → CapRep
            (Val.ptr (Val.struct fs vs))
            (Typ.ptr (Typ.struct fs))
            (Schema.container ss)
            (Item.seq xs)
            (Caps.fields cs)
    nil_ptr :
        {fs : Fields} {vs : Vals} {ss : Schemas} {xs : Items} {cs : FieldCaps}
        → zero_fields fs ≡ vs
        → FieldsCap fs vs ss xs cs
        → CapRep
            (Val.nil_ptr (Typ.struct fs))
            (Typ.ptr (Typ.struct fs))
            (Schema.container ss)
            (Item.seq xs)
            (Caps.fields cs)

  pub data CapsRep : Vals → Typ → Schema → Items → Caps → Type 0 where
    no_vals : {t : Typ} {s : Schema} {c : Caps} → CapsRep Vals.nil t s Items.nil c
    each :
        {v : Val} {vs : Vals} {t : Typ} {s : Schema} {x : Item} {xs : Items} {c : Caps}
        → CapRep v t s x c
        → CapsRep vs t s xs c
        → CapsRep (Vals.cons v vs) t s (Items.cons x xs) c

  -- Metadata stands behind the other fields only.
  pub data FieldsCap : Fields → Vals → Schemas → Items → FieldCaps → Type 0 where
    finished :
        {fs : Fields} {vs : Vals}
        → Metadata fs vs
        → FieldsCap fs vs Schemas.nil Items.nil FieldCaps.nil
    keep :
        {name : Text} {size max : Option Text} {t u : Typ} {fs : Fields} {v : Val} {vs : Vals}
        {s : Schema} {ss : Schemas} {x : Item} {xs : Items} {m : ℕ} {c : Caps} {cs : FieldCaps}
        → is_metadata name ≡ false
        → determine_field_type size t ≡ ok u
        → determine_field_capacity max ≡ m
        → m < max_capacity
        → CapRep v u s x c
        → FieldsCap fs vs ss xs cs
        → FieldsCap
            (Fields.field name size max t fs)
            (Vals.cons v vs)
            (Schemas.cons s ss)
            (Items.cons x xs)
            (FieldCaps.cons m c cs)

pub is_metadata-has_prefix : (name : Text) → has_prefix name xxx ≡ true → is_metadata name ≡ true
unfolding is_metadata contains
is_metadata-has_prefix [] h = h
is_metadata-has_prefix (c ∷ cs) h = rw h refl

not_uint8 : (t : Typ) → is_basic_type (kind t) ≡ false → is_uint8 t ≡ false
unfolding is_basic_type kind
not_uint8 t h = ground (arith, h)

Metadata-FieldsRep :
    {fs : Fields} {vs : Vals} → Metadata fs vs → FieldsRep fs vs Schemas.nil Items.nil
Metadata-FieldsRep Metadata.no_more = FieldsRep.no_fields
Metadata-FieldsRep (Metadata.more {name = name} h m) =
    FieldsRep.skip (is_metadata-has_prefix name h) (Metadata-FieldsRep m)

root_not_uint8 : (t : Typ) → is_root t ≡ true → is_uint8 t ≡ false
root_not_uint8 (Typ.array n u) h = refl
root_not_uint8 _ h = absurd cc

-- A root has a fixed size.
root_fixed :
    {A : Type 0} {t : Typ} {s : Schema} → TypeRep t s → is_root t ≡ true → is_variable s ≡ true → A
unfolding is_variable
root_fixed (TypeRep.array (TypeRep.uint e)) h i = absurd cc
root_fixed _ h i = absurd cc

-- The capacities left out
mutual
  pub CapRep-ValRep :
      {v : Val} {t : Typ} {s : Schema} {x : Item} {c : Caps} → CapRep v t s x c → ValRep v t s x
  CapRep-ValRep (CapRep.leaf r e o b) = r
  CapRep-ValRep (CapRep.string r) = ValRep.string r
  CapRep-ValRep (CapRep.numbers e b q o rs) = ValRep.slice e q o rs
  CapRep-ValRep (CapRep.slice e b q o rs) = ValRep.slice e q o (CapsRep-ValsRep rs)
  CapRep-ValRep (CapRep.array {t = t} e c p l b d q o rs) =
      ValRep.array e c (not_uint8 t b) q o (CapsRep-ValsRep rs)
  CapRep-ValRep (CapRep.roots {t = t} e c p l d q rs) =
      ValRep.array e c (root_not_uint8 t d) q (root_fixed q d) rs
  CapRep-ValRep (CapRep.struct rs) = ValRep.struct (FieldsCap-FieldsRep rs)
  CapRep-ValRep (CapRep.ptr rs) = ValRep.ptr (FieldsCap-FieldsRep rs)
  CapRep-ValRep (CapRep.nil_ptr e rs) = ValRep.nil_ptr e (FieldsCap-FieldsRep rs)

  CapsRep-ValsRep :
      {vs : Vals} {t : Typ} {s : Schema} {xs : Items} {c : Caps}
      → CapsRep vs t s xs c
      → ValsRep vs t s xs
  CapsRep-ValsRep CapsRep.no_vals = ValsRep.no_vals
  CapsRep-ValsRep (CapsRep.each r rs) = ValsRep.each (CapRep-ValRep r) (CapsRep-ValsRep rs)

  FieldsCap-FieldsRep :
      {fs : Fields} {vs : Vals} {ss : Schemas} {xs : Items} {cs : FieldCaps}
      → FieldsCap fs vs ss xs cs
      → FieldsRep fs vs ss xs
  FieldsCap-FieldsRep (FieldsCap.finished m) = Metadata-FieldsRep m
  FieldsCap-FieldsRep (FieldsCap.keep m d k b r rs) =
      FieldsRep.keep m d (CapRep-ValRep r) (FieldsCap-FieldsRep rs)

pub count_caps :
    {vs : Vals} {t : Typ} {s : Schema} {xs : Items} {c : Caps}
    → CapsRep vs t s xs c
    → count_vals vs ≡ count_items xs
count_caps CapsRep.no_vals = refl
count_caps (CapsRep.each r rs) = ap suc (count_caps rs)
