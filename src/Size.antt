-- ===== src/Size.antt =====
-- types/determine_size.go: which types have a variable size, and the buffer size of a value.
-- Each function recurs on fuel; a loop over items or fields takes the recursive call as `self`.
use go_ssz.Prelude.{ℕ, zero, suc, ◌+◌, ◌*◌, ◌%◌, ◌^◌, Bool, true, false, if◌then◌else◌}
use go_ssz.Prelude.{Result, ok, err, panic, stuck, ◌>>=◌, ◌==◌}
use go_ssz.Reflect.{Scalar, Kind, Typ, Fields, Val, Vals, end, field, nil, cons}
use go_ssz.Reflect.{kind, elem_type, type_of, items, field_vals, zero_value, count_vals}
use go_ssz.Tags.{is_metadata, determine_field_type}

-- uint64 addition
infixl 65 ◌+u64◌
abbrev pub ◌+u64◌ : ℕ → ℕ → ℕ
a +u64 b = (a + b) % 2 ^ 64

-- uint64 multiplication
infixl 70 ◌*u64◌
abbrev pub ◌*u64◌ : ℕ → ℕ → ℕ
a *u64 b = (a * b) % 2 ^ 64

abbrev pub bytes_per_length_offset : ℕ
bytes_per_length_offset = 4

abbrev pub is_basic_scalar : Scalar → Bool
is_basic_scalar Scalar.bool = true
is_basic_scalar Scalar.int32 = true
is_basic_scalar Scalar.uint8 = true
is_basic_scalar Scalar.uint16 = true
is_basic_scalar Scalar.uint32 = true
is_basic_scalar Scalar.uint64 = true
is_basic_scalar _ = false

unfoldable pub is_basic_type : Kind → Bool
is_basic_type (Kind.scalar s) = is_basic_scalar s
is_basic_type _ = false

-- isBasicTypeArray(typ, typ.Kind())
unfoldable pub is_basic_type_array : Typ → Bool
unfolding is_basic_type kind
is_basic_type_array (Typ.array n t) = is_basic_type (kind t)
is_basic_type_array _ = false

-- `Elem().Kind() == reflect.Uint8`
abbrev pub is_uint8 : Typ → Bool
is_uint8 (Typ.scalar Scalar.uint8) = true
is_uint8 _ = false

-- isRootsArray looks at the element type only: an array of 32 bytes.
abbrev pub is_root : Typ → Bool
is_root (Typ.array n u) = if is_uint8 u then n == 32 else false
is_root _ = false

unfoldable pub is_roots_array : Typ → Result Bool
unfolding elem_type
is_roots_array typ = elem_type typ >>= λ t. ok (is_root t)

-- The struct case of isVariableSizeType. An error of determineFieldType makes it false.
unfoldable pub any_variable_field : (Typ → Result Bool) → Fields → Result Bool
any_variable_field self end = ok false
any_variable_field self (field name size max t fs) =
    let rest = any_variable_field self fs in
    let here : Result Bool = elim (determine_field_type size t) [
      | ok f_type ↦ self f_type >>= λ v. if v then ok true else rest
      | err e ↦ ok false
      | panic ↦ panic
      | stuck ↦ stuck
    ] in
    if is_metadata name then rest else here

unfoldable pub is_variable_size_type : ℕ → Typ → Result Bool
unfolding is_basic_type_array any_variable_field
is_variable_size_type zero typ = stuck
is_variable_size_type (suc f) (Typ.slice t) = ok true
is_variable_size_type (suc f) Typ.string = ok true
is_variable_size_type (suc f) (Typ.array n t) =
    let deep = is_variable_size_type f t in
    if is_basic_type_array (Typ.array n t) then ok false else deep
is_variable_size_type (suc f) (Typ.struct fs) = any_variable_field (is_variable_size_type f) fs
is_variable_size_type (suc f) (Typ.ptr t) = is_variable_size_type f t
is_variable_size_type (suc f) _ = ok false

unfoldable pub scalar_size : Scalar → ℕ
scalar_size Scalar.bool = 1
scalar_size Scalar.uint8 = 1
scalar_size Scalar.uint16 = 2
scalar_size Scalar.uint32 = 4
scalar_size Scalar.int32 = 4
scalar_size Scalar.uint64 = 8
scalar_size _ = 0

-- `num += f(val.Index(i))` over the items
unfoldable pub sum_items : (Val → Result ℕ) → Vals → ℕ → Result ℕ
sum_items self nil total = ok total
sum_items self (cons v vs) total = self v >>= λ n. sum_items self vs (total +u64 n)

-- `totalSize += f(val.Field(i), fType)` over the fields. An error of determineFieldType makes the
-- whole size 0. There is one value for each field.
unfoldable pub sum_fields : (Val → Typ → Result ℕ) → Fields → Vals → ℕ → Result ℕ
sum_fields self end vs total = ok total
sum_fields self (field name size max t fs) nil total = panic
sum_fields self (field name size max t fs) (cons v vs) total =
    let skip = sum_fields self fs vs total in
    let here : Result ℕ = elim (determine_field_type size t) [
      | ok f_type ↦ self v f_type >>= λ n. sum_fields self fs vs (total +u64 n)
      | err e ↦ ok 0
      | panic ↦ panic
      | stuck ↦ stuck
    ] in
    if is_metadata name then skip else here

-- val.Len() where it is cast to uint64
unfoldable pub len_of : Val → Result ℕ
unfolding items
len_of val = items val >>= λ vs. ok (count_vals vs)

-- One item of determineVariableSize's loop, with the offset that a variable-size item needs.
unfoldable pub with_offset : Bool → ℕ → ℕ
with_offset variable n = if variable then n +u64 bytes_per_length_offset else n

unfoldable mutual
  unfolding sum_items sum_fields scalar_size len_of with_offset items field_vals

  pub determine_size : ℕ → Val → Result ℕ
  determine_size zero val = stuck
  determine_size (suc f) (Val.nil_ptr t) = determine_size f (zero_value t)
  determine_size (suc f) (Val.ptr v) = determine_size f v
  determine_size (suc f) val = type_of val >>= λ typ. is_variable_size_type f typ >>= λ variable.
      let fixed = determine_fixed_size f val typ in
      let var = determine_variable_size f val typ in if variable then var else fixed

  pub determine_fixed_size : ℕ → Val → Typ → Result ℕ
  determine_fixed_size zero val typ = stuck
  determine_fixed_size (suc f) val (Typ.scalar s) = ok (scalar_size s)
  determine_fixed_size (suc f) val (Typ.array n t) =
      let loop = items val >>= λ vs. sum_items (λ v. determine_fixed_size f v t) vs 0 in
      if is_uint8 t then ok n else loop
  determine_fixed_size (suc f) val (Typ.slice t) =
      let loop = items val >>= λ vs. sum_items (λ v. determine_fixed_size f v t) vs 0 in
      if is_uint8 t then len_of val else loop
  determine_fixed_size (suc f) val (Typ.struct fs) =
      field_vals val >>= λ vs. sum_fields (determine_fixed_size f) fs vs 0
  determine_fixed_size (suc f) (Val.nil_ptr u) (Typ.ptr t) =
      determine_variable_size f (zero_value t) t
  determine_fixed_size (suc f) (Val.ptr v) (Typ.ptr t) = determine_fixed_size f v t
  determine_fixed_size (suc f) val (Typ.ptr t) = panic
  determine_fixed_size (suc f) val _ = ok 0

  pub determine_variable_size : ℕ → Val → Typ → Result ℕ
  determine_variable_size zero val typ = stuck
  determine_variable_size (suc f) val (Typ.slice t) =
      let loop = items val >>= λ vs. sum_items (λ v. sized_item f t v) vs 0 in
      if is_uint8 t then len_of val else loop
  determine_variable_size (suc f) val Typ.string = len_of val
  determine_variable_size (suc f) val (Typ.array n t) =
      items val >>= λ vs. sum_items (λ v. sized_item f t v) vs 0
  determine_variable_size (suc f) val (Typ.struct fs) =
      field_vals val >>= λ vs. sum_fields (sized_field f) fs vs 0
  determine_variable_size (suc f) (Val.nil_ptr u) (Typ.ptr t) =
      determine_variable_size f (zero_value t) t
  determine_variable_size (suc f) (Val.ptr v) (Typ.ptr t) =
      type_of v >>= λ u. determine_variable_size f v u
  determine_variable_size (suc f) val (Typ.ptr t) = panic
  determine_variable_size (suc f) val _ = ok 0

  -- The body of the loop over the items, which are sized by their own type.
  pub sized_item : ℕ → Typ → Val → Result ℕ
  sized_item zero t v = stuck
  sized_item (suc f) t v = determine_size f v >>= λ n.
      is_variable_size_type f t >>= λ variable. ok (with_offset variable n)

  -- The body of the loop over the fields.
  pub sized_field : ℕ → Val → Typ → Result ℕ
  sized_field zero v t = stuck
  sized_field (suc f) v t = is_variable_size_type f t >>= λ variable.
      let fixed = determine_fixed_size f v t in
      let var = determine_variable_size f v t in
      (if variable then var else fixed) >>= λ n. ok (with_offset variable n)
