-- ===== src/Reflect.antt =====
-- The part of package reflect that the code uses: types, values, and their accessors.
-- A type is a finite tree: defined types and types that contain themselves are not covered.
use go_ssz.Prelude.{ℕ, zero, suc, Bool, true, false, ltb, ◌||◌, List, [], ◌∷◌, Option}
use go_ssz.Prelude.{Result, ok, panic, ◌>>=◌}

-- Go's kinds of numbers and booleans. `float` stands for the floating and complex kinds.
pub data Scalar : Type 0 where
  bool int int8 int16 int32 int64 uint uint8 uint16 uint32 uint64 uintptr float : Scalar

-- reflect.Kind
pub data Kind : Type 0 where
  invalid string slice array struct ptr other : Kind
  scalar : Scalar → Kind

-- The bytes of a Go string.
abbrev pub Text : Type 0
Text = List ℕ

-- A field is exported if its name begins with a capital letter; of those that are not ASCII, none is covered.
-- The mark that reflect sets on the value of an unexported field is modelled in DeepEqual.antt. Elsewhere
-- fields are taken to be exported: `Interface` and the Set methods panic on others.
abbrev pub is_unexported : Text → Bool
is_unexported [] = true
is_unexported (c ∷ cs) = ltb c 65 || ltb 90 c

-- reflect.Type. A field has its name, what `Tag.Lookup` finds under "ssz-size" and "ssz-max",
-- and its type. `other` is a type with no element type, such as an interface or a function.
mutual
  pub data Typ : Type 0 where
    scalar : Scalar → Typ
    string : Typ
    slice : Typ → Typ
    array : ℕ → Typ → Typ
    struct : Fields → Typ
    ptr : Typ → Typ
    other : ℕ → Typ

  pub data Fields : Type 0 where
    end : Fields
    field : Text → Option Text → Option Text → Typ → Fields → Fields

-- reflect.Value. `num k n` holds the bit pattern of a number of kind k; a slice, an array and a
-- nil pointer hold their element type. `invalid` is the zero reflect.Value.
mutual
  pub data Val : Type 0 where
    invalid : Val
    bool : Bool → Val
    num : Scalar → ℕ → Val
    str : Text → Val
    nil_slice : Typ → Val
    slice : Typ → Vals → Val
    array : Typ → Vals → Val
    struct : Fields → Vals → Val
    nil_ptr : Typ → Val
    ptr : Val → Val
    opaque : ℕ → Val

  pub data Vals : Type 0 where
    nil : Vals
    cons : Val → Vals → Vals

-- Type.Kind
unfoldable pub kind : Typ → Kind
kind (scalar s) = Kind.scalar s
kind string = Kind.string
kind (slice t) = Kind.slice
kind (array n t) = Kind.array
kind (struct fs) = Kind.struct
kind (ptr t) = Kind.ptr
kind (other n) = Kind.other

-- Type.Elem
unfoldable pub elem_type : Typ → Result Typ
elem_type (slice t) = ok t
elem_type (array n t) = ok t
elem_type (ptr t) = ok t
elem_type _ = panic

abbrev pub count_vals : Vals → ℕ
count_vals nil = 0
count_vals (cons v vs) = suc (count_vals vs)

abbrev pub repeat_val : ℕ → Val → Vals
repeat_val zero v = nil
repeat_val (suc n) v = cons v (repeat_val n v)

-- Value.Type
unfoldable pub type_of : Val → Result Typ
type_of invalid = panic
type_of (bool b) = ok (scalar Scalar.bool)
type_of (num k n) = ok (scalar k)
type_of (str s) = ok string
type_of (nil_slice t) = ok (slice t)
type_of (slice t vs) = ok (slice t)
type_of (array t vs) = ok (array (count_vals vs) t)
type_of (struct fs vs) = ok (struct fs)
type_of (nil_ptr t) = ok (ptr t)
type_of (ptr v) = type_of v >>= λ t. ok (ptr t)
type_of (opaque n) = ok (other n)

-- Value.Elem
unfoldable pub elem : Val → Result Val
elem (ptr v) = ok v
elem (nil_ptr t) = ok invalid
elem _ = panic

-- The items that Len and Index reach; those of a string are its bytes.
abbrev pub bytes_as_vals : Text → Vals
bytes_as_vals [] = nil
bytes_as_vals (c ∷ cs) = cons (num Scalar.uint8 c) (bytes_as_vals cs)

unfoldable pub items : Val → Result Vals
items (str s) = ok (bytes_as_vals s)
items (nil_slice t) = ok nil
items (slice t vs) = ok vs
items (array t vs) = ok vs
items _ = panic

-- The fields that Value.Field reaches.
unfoldable pub field_vals : Val → Result Vals
field_vals (struct fs vs) = ok vs
field_vals _ = panic

-- reflect.New(typ).Elem(): the zero value of a type.
unfoldable mutual
  pub zero_value : Typ → Val
  zero_value (scalar Scalar.bool) = bool false
  zero_value (scalar k) = num k 0
  zero_value string = str []
  zero_value (slice t) = nil_slice t
  zero_value (array n t) = array t (repeat_val n (zero_value t))
  zero_value (struct fs) = struct fs (zero_fields fs)
  zero_value (ptr t) = nil_ptr t
  zero_value (other n) = opaque n

  pub zero_fields : Fields → Vals
  zero_fields end = nil
  zero_fields (field name size max t fs) = cons (zero_value t) (zero_fields fs)
