-- ===== src/Unmarshal.antt =====
-- structSSZ.Unmarshal (types/struct.go), the dispatch to the Unmarshal of each factory, and the
-- exported Unmarshal (ssz.go).
pub mod Targets
pub mod Rooms
pub mod Reads
pub mod Decodes
pub mod Leaves
pub mod InOrder
pub mod Slices
pub mod Offsets
pub mod Composites
pub mod Places
pub mod Zeros
pub mod FieldSizes
pub mod FieldOffsets
pub mod FieldSteps
pub mod Structs
pub mod StructReads
pub mod RoundTrip
pub mod Exported
pub mod RootArrays
pub mod Plain
pub mod SameValue
pub mod Ends
pub mod OffsetLoops
use go_ssz.Prelude.{ℕ, zero, suc, ◌+◌, ◌-◌, Bool, List, [], ◌∷◌, ◌++◌, Option, none, some}
use go_ssz.Prelude.{if◌then◌else◌, ◌==◌, ltb}
use go_ssz.Prelude.{Result, ok, err, panic, stuck, ◌>>=◌}
use go_ssz.Prelude.{untyped_nil, no_input, not_a_pointer, nil_target, wrong_length}
use go_ssz.Reflect.{
  Typ, Fields, Text, Val, Vals, end, field, nil, cons, elem_type, type_of, field_vals,
}
use go_ssz.Reflect.{zero_value}
use go_ssz.Tags.{is_metadata, determine_field_type, parse_ssz_field_tags, infer_field_type}
use go_ssz.Size.{◌+u64◌, bytes_per_length_offset, is_variable_size_type, determine_fixed_size}
use go_ssz.Size.{determine_size}
use go_ssz.Factory.{Factory, ssz_factory}
use go_ssz.Input.{Input, slice_input, read_le}
use go_ssz.Grow.{is_ptr, instantiate, grow_sizes}
use go_ssz.Decode.{Decoded, Decoder, unmarshal_basic, unmarshal_string, unmarshal_roots_array}
use go_ssz.Decode.{unmarshal_basic_array}
use go_ssz.DecodeSlices.{
  unmarshal_basic_slice, unmarshal_composite_slice, unmarshal_composite_array,
}

-- `numFields`: the fields that are no protobuf metadata.
unfoldable pub count_fields : Fields → ℕ
count_fields end = 0
count_fields (field name size max t fs) =
    if is_metadata name then count_fields fs else suc (count_fields fs)

-- A field that is a pointer gets a target.
unfoldable pub concrete_field : Val → Typ → Result Val
unfolding instantiate
concrete_field v f_type = if is_ptr v then (elem_type f_type >>= λ u. instantiate v u) else ok v

-- `val.Field(i).Kind() == reflect.Slice`
abbrev pub is_slice : Val → Bool
is_slice (Val.nil_slice t) = Bool.true
is_slice (Val.slice t vs) = Bool.true
is_slice _ = Bool.false

-- What a tagged field of fixed size is measured as, and what becomes of it.
unfoldable pub tagged_field : Option (List ℕ) → Typ → Val → Result (Val × Val)
unfolding zero_value
tagged_field none t v = ok (v, v)
tagged_field (some sizes) t v = infer_field_type t sizes >>= λ u.
    (if is_slice v then (type_of v >>= λ w. grow_sizes v w sizes) else ok v) >>= λ grown.
    ok (zero_value u, grown)

-- A field of fixed size: its size, and its value with the targets made.
unfoldable pub sized : ℕ → Option Text → Typ → Typ → Val → Result (ℕ × Val)
unfolding concrete_field tagged_field
sized f size t f_type v = concrete_field v f_type >>= λ v'. parse_ssz_field_tags size >>= λ tags.
    tagged_field tags t v' >>= λ (concrete, grown).
    determine_fixed_size f concrete f_type >>= λ n. ok (n, grown)

-- `fixedSizes`, with `none` for a field of variable size, and the values of the fields. The loop runs
-- over the first `n` fields, metadata or not.
unfoldable pub fixed_sizes : ℕ → ℕ → Fields → Vals → Result (List (Option ℕ) × Vals)
fixed_sizes f zero fs vs = ok ([], vs)
fixed_sizes f (suc n) end vs = panic
fixed_sizes f (suc n) (field name size max t fs) nil = panic
fixed_sizes f (suc n) (field name size max t fs) (cons v vs) =
    let variable_field = fixed_sizes f n fs vs >>= λ (ns, ws). ok (none ∷ ns, cons v ws) in
    let fixed_field = λ (f_type : Typ). sized f size t f_type v >>= λ (m, w).
    fixed_sizes f n fs vs >>= λ (ns, ws). ok (some m ∷ ns, cons w ws) in
    determine_field_type size t >>= λ f_type. is_variable_size_type f f_type >>= λ variable.
    if variable then variable_field else fixed_field f_type

-- `offsets`, but for the end of the input, which the caller appends.
unfoldable pub read_offsets : Input → ℕ → ℕ → List (Option ℕ) → Result (List ℕ)
read_offsets input start counter [] = ok []
read_offsets input start counter (some n ∷ sizes) = read_offsets input start (counter +u64 n) sizes
read_offsets input start counter (none ∷ sizes) =
    let rest = read_offsets input start (counter +u64 bytes_per_length_offset) sizes in
    let read = read_le input counter 4 >>= λ o. rest >>= λ os. ok ((start +u64 o) ∷ os) in
    if ltb input.len (counter +u64 bytes_per_length_offset) then rest else read

-- A field of `m` bytes at `current`. One of no bytes is left as it is.
unfoldable pub unmarshal_fixed : Decoder → ℕ → Val → Typ → Input → ℕ → Decoded
unfolding slice_input
unmarshal_fixed self m v f_type input current =
    let read = slice_input input current (current +u64 m) >>= λ part. self v f_type part 0 in
    if m == 0 then ok (v, current) else read >>= λ (w, index). ok (w, current +u64 m)

-- A field of variable size, between the offsets that are next. One that begins at the end of the
-- input is left as it is, and the offset is kept for the next field.
unfoldable pub unmarshal_variable : Decoder → Val → Typ → Input → List ℕ → Result (Val × List ℕ)
unfolding slice_input
unmarshal_variable self v f_type input [] = panic
unmarshal_variable self v f_type input (o ∷ []) = if o == input.len then ok (v, o ∷ []) else panic
unmarshal_variable self v f_type input (o ∷ o' ∷ os) =
    let read = slice_input input o o' >>= λ part. self v f_type part 0 in
    if o == input.len then ok (v, o ∷ o' ∷ os) else read >>= λ (w, index). ok (w, o' ∷ os)

-- The body of the last loop: the new value, where the next field is or has its offset, and the
-- offsets that are left. `n` is what the field has in fixedSizes.
unfoldable pub unmarshal_place :
    Decoder → Option ℕ → Val → Typ → Input → ℕ → List ℕ → Result (Val × ℕ × List ℕ)
unmarshal_place self (some m) v f_type input current offsets =
    unmarshal_fixed self m v f_type input current >>= λ (w, next). ok (w, next, offsets)
unmarshal_place self none v f_type input current offsets =
    unmarshal_variable self v f_type input offsets >>= λ (w, os).
    ok (w, current +u64 bytes_per_length_offset, os)

-- The last loop. `run` is the Unmarshal of each factory.
unfoldable pub unmarshal_fields :
    ℕ
    → (Factory → Decoder)
    → ℕ
    → Fields
    → Vals
    → List (Option ℕ)
    → Input
    → ℕ
    → List ℕ
    → Result (Vals × ℕ)
unmarshal_fields f run zero fs vs sizes input current offsets = ok (vs, current)
unmarshal_fields f run (suc n) (field name size max t fs) (cons v vs) (m ∷ sizes) input current
      offsets =
    determine_field_type size t >>= λ f_type. concrete_field v f_type >>= λ v'.
    ssz_factory f v' f_type >>= λ factory.
    unmarshal_place (run factory) m v' f_type input current offsets >>= λ (w, next, os).
    unmarshal_fields f run n fs vs sizes input next os >>= λ (ws, last). ok (cons w ws, last)
unmarshal_fields f run (suc n) fs vs sizes input current offsets = panic

-- structSSZ.Unmarshal of a struct value
unfoldable pub unmarshal_struct : ℕ → (Factory → Decoder) → Val → Fields → Input → ℕ → Decoded
unfolding field_vals
unmarshal_struct f run val fs input start = field_vals val >>= λ vs.
    fixed_sizes f (count_fields fs) fs vs >>= λ (sizes, ready).
    read_offsets input start start sizes >>= λ offsets.
    unmarshal_fields f run (count_fields fs) fs ready sizes input start
      (offsets ++ (input.len ∷ []))
    >>= λ (ws, index). ok (Val.struct fs ws, index)

-- The Unmarshal of each factory. A pointer reaches structSSZ only.
unfoldable pub unmarshal_with : ℕ → Factory → Decoder
unmarshal_with zero factory val typ input start = stuck
unmarshal_with (suc f) Factory.basic val typ input start =
    unmarshal_basic f (unmarshal_with f) val typ input start
unmarshal_with (suc f) Factory.string val typ input start = unmarshal_string val input start
unmarshal_with (suc f) Factory.roots_array val typ input start =
    unmarshal_roots_array val input start
unmarshal_with (suc f) Factory.basic_slice val typ input start =
    unmarshal_basic_slice f (unmarshal_with f) val typ input start
unmarshal_with (suc f) Factory.basic_array val typ input start =
    unmarshal_basic_array f (unmarshal_with f) val typ input start
unmarshal_with (suc f) Factory.composite_slice val typ input start =
    unmarshal_composite_slice f (unmarshal_with f) val typ input start
unmarshal_with (suc f) Factory.composite_array val typ input start =
    unmarshal_composite_array f (unmarshal_with f) val typ input start
unmarshal_with (suc f) Factory.struct val (Typ.struct fs) input start =
    unmarshal_struct f (unmarshal_with f) val fs input start
unmarshal_with (suc f) Factory.struct (Val.nil_ptr u) (Typ.ptr t) input start =
    ok (Val.nil_ptr u, start)
unmarshal_with (suc f) Factory.struct (Val.ptr v) (Typ.ptr t) input start =
    unmarshal_with f Factory.struct v t input start >>= λ (w, index). ok (Val.ptr w, index)
unmarshal_with (suc f) Factory.struct val typ input start = panic

-- The check at the end of the exported Unmarshal.
unfoldable pub checked_length : ℕ → Val → Input → Result Val
checked_length f val input =
    determine_size f val >>= λ n. if input.len == n then ok val else err wrong_length

-- The exported Unmarshal, which returns the pointer with the value that it then points to. `none` is
-- an untyped nil.
unfoldable pub unmarshal : ℕ → Input → Option Val → Result Val
unmarshal f input none = err untyped_nil
unmarshal f input (some (Val.ptr v)) =
    let decode = type_of v >>= λ t. ssz_factory f v t >>= λ factory.
    unmarshal_with f factory v t input 0 >>= λ (w, index). checked_length f (Val.ptr w) input in
    if input.len == 0 then err no_input else decode
unmarshal f input (some (Val.nil_ptr t)) = if input.len == 0 then err no_input else err nil_target
unmarshal f input (some Val.invalid) = if input.len == 0 then err no_input else panic
unmarshal f input (some val) = if input.len == 0 then err no_input else err not_a_pointer
