-- ===== src/Represents/Variable.antt =====
-- isVariableSizeType on the types that stand for schemas: it finds what the format says.
use go_ssz.Prelude.{ℕ, zero, suc, ◌*◌, ◌≤◌, ◌≡◌, refl, Bool, true, false, ok, arith}
use go_ssz.Prelude.{Bool-cases, inl, inr, ◌||◌, if◌then◌else◌}
use go_ssz.Represents.{TypeRep, FieldTypesRep, ValRep, FieldsRep}
use go_ssz.Size.{is_variable_size_type, any_variable_field, is_basic_type}
use go_ssz.Ssz.{Schema, Schemas, Item, Items, is_variable, any_variable, depth, depth_all}
use go_ssz.Reflect.{Typ, Fields, Val, Vals, kind}

pub basic-fixed :
    {t : Typ} {s : Schema} → TypeRep t s → is_basic_type (kind t) ≡ true → is_variable s ≡ false
unfolding is_variable is_basic_type kind
basic-fixed TypeRep.boolean h = refl
basic-fixed (TypeRep.uint e) h = refl
basic-fixed _ h = cc

or_lem : (a b : Bool) → (if a then ok true else ok b) ≡ ok (a || b)
or_lem true b = refl
or_lem false b = refl

mutual
  unfolding is_variable_size_type is_variable depth

  variable_lem :
      {t : Typ} {s : Schema}
      → TypeRep t s
      → (f : ℕ) → 4 * depth s ≤ f
      → is_variable_size_type f t ≡ ok (is_variable s)
  variable_lem TypeRep.boolean zero h = absurd (omega arith)
  variable_lem TypeRep.boolean (suc f) h = refl
  variable_lem (TypeRep.uint e) zero h = absurd (omega arith)
  variable_lem (TypeRep.uint e) (suc f) h = refl
  variable_lem TypeRep.string zero h = absurd (omega arith)
  variable_lem TypeRep.string (suc f) h = refl
  variable_lem (TypeRep.slice r) zero h = absurd (omega arith)
  variable_lem (TypeRep.slice r) (suc f) h = refl
  variable_lem (TypeRep.array r) zero h = absurd (omega arith)
  variable_lem (TypeRep.array {t = t} {s = s} r) (suc f) h =
      elim (Bool-cases (is_basic_type (kind t))) [
        | inl b ↦ rw (b, basic-fixed r b)
        | inr b ↦ rw b (variable_lem r f (omega arith))
      ]
  variable_lem (TypeRep.struct r) zero h = absurd (omega arith)
  variable_lem (TypeRep.struct r) (suc f) h = fields_lem r f (omega arith)
  variable_lem (TypeRep.ptr r) zero h = absurd (omega arith)
  variable_lem (TypeRep.ptr r) (suc zero) h = absurd (omega arith)
  variable_lem (TypeRep.ptr r) (suc (suc f)) h = fields_lem r f (omega arith)

  fields_lem :
      {fs : Fields} {ss : Schemas}
      → FieldTypesRep fs ss
      → (f : ℕ) → 4 * depth_all ss ≤ f
      → any_variable_field (is_variable_size_type f) fs ≡ ok (any_variable ss)
  fields_lem FieldTypesRep.no_types f h = refl
  fields_lem (FieldTypesRep.skip_type m r) f h = rw m (fields_lem r f h)
  fields_lem (FieldTypesRep.keep_type {s = s} {ss = ss} m d r rs) f h =
      rw (m, d, variable_lem r f (omega arith), fields_lem rs f (omega arith))
        (or_lem (is_variable s) (any_variable ss))

mutual
  pub ValRep-TypeRep : {v : Val} {t : Typ} {s : Schema} {x : Item} → ValRep v t s x → TypeRep t s
  ValRep-TypeRep ValRep.boolean = TypeRep.boolean
  ValRep-TypeRep (ValRep.uint e h) = TypeRep.uint e
  ValRep-TypeRep (ValRep.string r) = TypeRep.string
  ValRep-TypeRep (ValRep.slice e r o rs) = TypeRep.slice r
  ValRep-TypeRep (ValRep.array e c u r o rs) = TypeRep.array r
  ValRep-TypeRep (ValRep.byte_array c rs) = TypeRep.array (TypeRep.uint refl)
  ValRep-TypeRep (ValRep.byte_slice c rs) = TypeRep.array (TypeRep.uint refl)
  ValRep-TypeRep (ValRep.nil_bytes e) = TypeRep.array (TypeRep.uint refl)
  ValRep-TypeRep (ValRep.struct r) = TypeRep.struct (FieldsRep-FieldTypesRep r)
  ValRep-TypeRep (ValRep.ptr r) = TypeRep.ptr (FieldsRep-FieldTypesRep r)
  ValRep-TypeRep (ValRep.nil_ptr e r) = TypeRep.ptr (FieldsRep-FieldTypesRep r)

  pub FieldsRep-FieldTypesRep :
      {fs : Fields} {vs : Vals} {ss : Schemas} {xs : Items}
      → FieldsRep fs vs ss xs
      → FieldTypesRep fs ss
  FieldsRep-FieldTypesRep FieldsRep.no_fields = FieldTypesRep.no_types
  FieldsRep-FieldTypesRep (FieldsRep.skip m r) =
      FieldTypesRep.skip_type m (FieldsRep-FieldTypesRep r)
  FieldsRep-FieldTypesRep (FieldsRep.keep m d r rs) =
      FieldTypesRep.keep_type m d (ValRep-TypeRep r) (FieldsRep-FieldTypesRep rs)

-- On a type that stands for a schema, isVariableSizeType finds whether the format gives the schema
-- a variable size, if the model has fuel for four times the depth of the schema.
pub is_variable_size_type-is_variable :
    {t : Typ} {s : Schema}
    → TypeRep t s
    → (f : ℕ) → 4 * depth s ≤ f
    → is_variable_size_type f t ≡ ok (is_variable s)
is_variable_size_type-is_variable = variable_lem
