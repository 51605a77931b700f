-- ===== src/Represents/Size.antt =====
-- DetermineSize on the values that stand for items: it finds the length of the serialization.
pub mod Claims
pub mod Steps
pub mod Shapes
pub mod Own
use go_ssz.Prelude.{
  ℕ, zero, suc, ◌+◌, ◌*◌, ◌^◌, ◌≤◌, ◌<◌, ◌≡◌, refl, ap, sym, ◌∙◌, Bool, true, false,
}
use go_ssz.Prelude.{
  ok, Result, arith, subst, some, ◌||◌, ◌%◌, Option, Bool-cases, inl, inr, ◌>>=◌, if◌then◌else◌,
  length, ◌++◌, ◌∷◌,
}
use go_ssz.Reflect.{
  Scalar, Typ, Fields, Val, Vals, kind, items, type_of, count_vals, zero_value, zero_fields, Text,
  bytes_as_vals,
}
use go_ssz.Buffer.{Buf}
use go_ssz.Tags.{is_metadata, determine_field_type}
use go_ssz.Size.{
  determine_size, determine_fixed_size, determine_variable_size, sized_item, sized_field,
}
use go_ssz.Size.{
  sum_items, sum_fields, with_offset, is_uint8, is_variable_size_type, scalar_size, ◌+u64◌,
}
use go_ssz.Ssz.{Schema, Schemas, Item, Items, is_variable, any_variable, depth, depth_all}
use go_ssz.Ssz.{serialize, parts, parts_of}
use go_ssz.Ssz.Parts.{part, part_size, total, length-join-total, length-le_bytes}
use go_ssz.Represents.{TypeRep, FieldTypesRep, ValRep, ValsRep, FieldsRep, OwnSize, AllOwnSize}
use go_ssz.Represents.{byte_typ, byte_schema, zero_bytes, uint_width}
use go_ssz.Represents.Variable.{
  is_variable_size_type-is_variable, ValRep-TypeRep, FieldsRep-FieldTypesRep,
}
use go_ssz.Represents.Size.Claims.{
  sized_by, offset_lem, length-le-part, Sized, OwnSized, is_pointer, determine_size_lem, own_lem,
  items_no_pointer, total-bytes, byte_inversion, count-bytes, ItemsFixed, ItemsOwn, FieldsFixed,
  FieldsSized, length-list, length-vector, length-container,
}
use go_ssz.Represents.Size.Steps.{
  sum_items_step, sum_fields_step, sum_fields_skip, item_step, field_step, part_fixed, or_false,
}
use go_ssz.Represents.Size.Shapes.{
  slice-Sized, array-Sized, bytes-Sized, struct_sized, total-zero_bytes, width_lem, ptr_sized,
  nil_ptr_sized, struct-Sized, ptr-Sized, nil_ptr-Sized, boolean-Sized, uint-Sized, string-Sized,
}
use go_ssz.Represents.Size.Own.{own_bytes, own_general, own_ptr, own_nil_ptr, Both, general-Both}

mutual
  unfolding depth serialize sum_items sum_fields

  val_sizes :
      {v : Val} {t : Typ} {s : Schema} {x : Item}
      → ValRep v t s x
      → length (serialize s x) < 2 ^ 64
      → Both v t s x
  val_sizes (ValRep.boolean {b = c}) b = general-Both refl ValRep.boolean (boolean-Sized c)
  val_sizes (ValRep.uint {k = k} {w = w} {n = n} e l) b =
      general-Both refl (ValRep.uint e l) (uint-Sized k w n e)
  val_sizes (ValRep.string {cs = cs} {xs = xs} rs) b =
      general-Both refl (ValRep.string rs) (string-Sized cs xs rs)
  val_sizes (ValRep.slice {v = v} {xs = xs} e r o rs) b =
      general-Both (items_no_pointer v e) (ValRep.slice e r o rs)
        (slice-Sized v xs e r rs b (items_own rs o r))
  val_sizes (ValRep.array {v = v} {n = n} {t = t} {s = s} {xs = xs} e c u r o rs) b =
      general-Both (items_no_pointer v e) (ValRep.array e c u r o rs)
        (array-Sized v n t s xs e u b (λ q. items_fixed rs q) (λ q. items_own rs (o q) r))
  val_sizes (ValRep.byte_array {vs = vs} {n = n} {xs = xs} c rs) b =
      general-Both refl (ValRep.byte_array c rs)
        (bytes-Sized _ n xs (omega (arith, total-bytes rs)))
  val_sizes (ValRep.byte_slice {vs = vs} {n = n} {xs = xs} c rs) b =
      general-Both refl (ValRep.byte_slice c rs)
        (bytes-Sized _ n xs (omega (arith, total-bytes rs)))
  val_sizes (ValRep.nil_bytes {n = n} {xs = xs} e) b =
      general-Both refl (ValRep.nil_bytes e) (bytes-Sized _ n xs (rw e (total-zero_bytes n)))
  val_sizes (ValRep.struct {fs = fs} {vs = vs} {ss = ss} {xs = xs} r) b =
      general-Both refl (ValRep.struct r)
        (struct-Sized fs vs ss xs b (fields_fixed r) (fields_sized r))
  val_sizes (ValRep.ptr {fs = fs} {vs = vs} {ss = ss} {xs = xs} r) b = (
    ptr-Sized fs vs ss xs b (fields_fixed r) (fields_sized r),
    λ o.
        own_ptr fs vs ss xs (FieldsRep-FieldTypesRep r)
          (struct-Sized fs vs ss xs b (fields_fixed r) (fields_sized r)),
  )
  val_sizes (ValRep.nil_ptr {fs = fs} {vs = vs} {ss = ss} {xs = xs} e r) b = (
    nil_ptr-Sized fs vs ss xs e b (fields_fixed r) (fields_sized r),
    λ o.
        own_nil_ptr fs ss xs e (FieldsRep-FieldTypesRep r)
          (struct-Sized fs vs ss xs b (fields_fixed r) (fields_sized r)),
  )

  items_fixed :
      {vs : Vals} {t : Typ} {s : Schema} {xs : Items}
      → ValsRep vs t s xs
      → is_variable s ≡ false
      → ItemsFixed vs t s xs
  items_fixed ValsRep.no_vals q f acc h b = ap ok (omega arith)
  items_fixed (ValsRep.each {v = v} {vs = vs} {t = t} {s = s} {x = x} {xs = xs} r rs) q f acc h b =
      let m = part_size (part (is_variable s) (serialize s x)) in
      let le = length-le-part (is_variable s) (serialize s x) in
      sum_items_step _ v vs acc m (total (parts_of s xs))
        (part_fixed _ _ _ _ q ((val_sizes r (omega arith)).0 f h)) b
        (items_fixed rs q f (acc + m) h (omega arith))

  items_own :
      {vs : Vals} {t : Typ} {s : Schema} {xs : Items}
      → ValsRep vs t s xs
      → AllOwnSize vs t
      → TypeRep t s
      → ItemsOwn vs t s xs
  items_own ValsRep.no_vals o q f acc h b = ap ok (omega arith)
  items_own (ValsRep.each r rs) o q zero acc h b = absurd (omega arith)
  items_own (ValsRep.each {v = v} {vs = vs} {t = t} {s = s} {x = x} {xs = xs} r rs)
        (AllOwnSize.each o os) q (suc f) acc h b =
      let m = part_size (part (is_variable s) (serialize s x)) in
      let le = length-le-part (is_variable s) (serialize s x) in
      sum_items_step _ v vs acc m (total (parts_of s xs))
        (item_step f t v (is_variable s) (serialize s x)
          ((val_sizes r (omega arith)).1 o f (omega arith))
          (is_variable_size_type-is_variable q f (omega arith)) (omega arith))
        b (items_own rs os q (suc f) (acc + m) h (omega arith))

  fields_fixed :
      {fs : Fields} {vs : Vals} {ss : Schemas} {xs : Items}
      → FieldsRep fs vs ss xs
      → any_variable ss ≡ false
      → FieldsFixed fs vs ss xs
  fields_fixed FieldsRep.no_fields q f acc h b = ap ok (omega arith)
  fields_fixed
        (FieldsRep.skip {name = name} {size = size} {max = max} {t = t} {fs = fs} {v = v} {vs = vs}
          m r)
        q f acc h b =
      sum_fields_skip _ name size max t fs v vs acc m ∙ fields_fixed r q f acc h b
  fields_fixed
        (FieldsRep.keep {name = name} {size = size} {max = max} {t = t} {u = u} {fs = fs} {v = v}
          {vs = vs} {s = s} {ss = ss} {x = x} {xs = xs} m d r rs)
        q f acc h b =
      let n = part_size (part (is_variable s) (serialize s x)) in
      let le = length-le-part (is_variable s) (serialize s x) in
      let (qs, qss) = or_false (is_variable s) (any_variable ss) q in
      sum_fields_step _ name size max t u fs v vs acc n (total (parts ss xs)) m d
        (part_fixed _ _ _ _ qs ((val_sizes r (omega arith)).0 f (omega arith))) b
        (fields_fixed rs qss f (acc + n) (omega arith) (omega arith))

  fields_sized :
      {fs : Fields} {vs : Vals} {ss : Schemas} {xs : Items}
      → FieldsRep fs vs ss xs
      → FieldsSized fs vs ss xs
  fields_sized FieldsRep.no_fields f acc h b = ap ok (omega arith)
  fields_sized
        (FieldsRep.skip {name = name} {size = size} {max = max} {t = t} {fs = fs} {v = v} {vs = vs}
          m r)
        f acc h b =
      sum_fields_skip _ name size max t fs v vs acc m ∙ fields_sized r f acc h b
  fields_sized (FieldsRep.keep m d r rs) zero acc h b = absurd (omega arith)
  fields_sized
        (FieldsRep.keep {name = name} {size = size} {max = max} {t = t} {u = u} {fs = fs} {v = v}
          {vs = vs} {s = s} {ss = ss} {x = x} {xs = xs} m d r rs)
        (suc f) acc h b =
      let n = part_size (part (is_variable s) (serialize s x)) in
      let le = length-le-part (is_variable s) (serialize s x) in
      sum_fields_step _ name size max t u fs v vs acc n (total (parts ss xs)) m d
        (field_step f u v (is_variable s) (serialize s x)
          ((val_sizes r (omega arith)).0 f (omega arith))
          (is_variable_size_type-is_variable (ValRep-TypeRep r) f (omega arith)) (omega arith))
        b (fields_sized rs (suc f) (acc + n) (omega arith) (omega arith))

pub determine_fixed_size-serialize :
    {v : Val} {t : Typ} {s : Schema} {x : Item}
    → ValRep v t s x
    → is_variable s ≡ false
    → length (serialize s x) < 2 ^ 64
    → (f : ℕ) → 8 * depth s ≤ f
    → determine_fixed_size f v t ≡ ok (length (serialize s x))
determine_fixed_size-serialize r q b f h = rw q at ((val_sizes r b).0 f h)

pub determine_size_own :
    {v : Val} {t : Typ} {s : Schema} {x : Item}
    → ValRep v t s x
    → OwnSize v t
    → length (serialize s x) < 2 ^ 64
    → (f : ℕ) → 8 * depth s + 3 ≤ f
    → determine_size f v ≡ ok (length (serialize s x))
determine_size_own r o b = (val_sizes r b).1 o

-- For a value that stands for an item at its own type, DetermineSize finds the length of the item's
-- serialization, if that is below 2^64 and the model has the fuel that the depth of the schema asks
-- for.
pub determine_size-serialize :
    {v : Val} {t : Typ} {s : Schema} {x : Item}
    → ValRep v t s x
    → type_of v ≡ ok t
    → length (serialize s x) < 2 ^ 64
    → (f : ℕ) → 8 * depth s + 3 ≤ f
    → determine_size f v ≡ ok (length (serialize s x))
determine_size-serialize r e b = (val_sizes r b).1 (OwnSize.same e)
