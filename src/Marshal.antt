-- ===== src/Marshal.antt =====
-- Marshal, of every implementation of SSZAble and of the package: the value is written into a
-- buffer of the size that DetermineSize finds. A call returns the buffer and the offset behind
-- what it wrote.
pub mod Layout
pub mod Loops
pub mod Bytes
pub mod Sequences
pub mod Refines
pub mod Exported
use go_ssz.Prelude.{ℕ, zero, suc, ◌+◌, ◌-◌, ◌%◌, ◌^◌, Bool, true, false, Option, none, some}
use go_ssz.Prelude.{[], ◌∷◌, ◌++◌, take, replicate, if◌then◌else◌, ◌==◌}
use go_ssz.Prelude.{Result, ok, err, panic, stuck, ◌>>=◌, not_serializable, not_a_root, untyped_nil}
use go_ssz.Reflect.{Scalar, Typ, Fields, Val, Vals, end, field, nil, cons}
use go_ssz.Reflect.{kind, elem_type, type_of, items, field_vals, zero_value, count_vals}
use go_ssz.Tags.{is_metadata, determine_field_type}
use go_ssz.Size.{◌+u64◌, ◌*u64◌, bytes_per_length_offset, is_basic_type, is_uint8}
use go_ssz.Size.{is_variable_size_type, determine_fixed_size, determine_size}
use go_ssz.Factory.{Factory, ssz_factory}
use go_ssz.Buffer.{Buf, le_bytes, put_bytes, copy_bytes}

-- What a Marshal method returns, and the method itself.
abbrev pub Written : Type 0
Written = Result (Buf × ℕ)

abbrev pub Marshaler : Type 0
Marshaler = Val → Typ → Buf → ℕ → Written

pub Scalar-discrete : Discrete Scalar
Scalar-discrete = hlevel

-- A type assertion such as `val.Interface().(uint16)`. No value is one of an unexported field, where
-- Interface panics.
unfoldable pub as_num : Scalar → Val → Result ℕ
unfolding Scalar-discrete
as_num k (Val.num j n) = elim (Scalar-discrete k j) [ yes p ↦ ok n | no p ↦ panic ]
as_num k _ = panic

unfoldable pub marshal_bool : Val → Buf → ℕ → Written
unfolding put_bytes
marshal_bool (Val.bool b) buf off =
    put_bytes buf off ((if b then 1 else 0) ∷ []) >>= λ buf'. ok (buf', off +u64 1)
marshal_bool val buf off = panic

-- marshalUint8, marshalUint16, marshalInt32, marshalUint32 and marshalUint64: kind and width
unfoldable pub marshal_num : Scalar → ℕ → Val → Buf → ℕ → Written
unfolding as_num put_bytes le_bytes
marshal_num k width val buf off =
    as_num k val >>= λ n. put_bytes buf off (le_bytes width n) >>= λ buf'. ok (buf', off +u64 width)

abbrev pub marshal_uint8 : Val → Buf → ℕ → Written
marshal_uint8 = marshal_num Scalar.uint8 1

abbrev pub marshal_uint16 : Val → Buf → ℕ → Written
marshal_uint16 = marshal_num Scalar.uint16 2

-- The cast of an int32 to uint32 keeps the bit pattern.
abbrev pub marshal_int32 : Val → Buf → ℕ → Written
marshal_int32 = marshal_num Scalar.int32 4

abbrev pub marshal_uint32 : Val → Buf → ℕ → Written
marshal_uint32 = marshal_num Scalar.uint32 4

abbrev pub marshal_uint64 : Val → Buf → ℕ → Written
marshal_uint64 = marshal_num Scalar.uint64 8

-- `uint8(v.Uint())`
unfoldable pub byte_of : Val → Result ℕ
byte_of (Val.num Scalar.uint8 n) = ok (n % 256)
byte_of (Val.num Scalar.uint16 n) = ok (n % 256)
byte_of (Val.num Scalar.uint32 n) = ok (n % 256)
byte_of (Val.num Scalar.uint64 n) = ok (n % 256)
byte_of (Val.num Scalar.uint n) = ok (n % 256)
byte_of (Val.num Scalar.uintptr n) = ok (n % 256)
byte_of _ = panic

-- `buf[off+i] = uint8(val.Index(i).Uint())` for each i
unfoldable pub write_bytes : Vals → Buf → ℕ → Result Buf
unfolding byte_of put_bytes
write_bytes nil buf off = ok buf
write_bytes (cons v vs) buf off =
    byte_of v >>= λ b. put_bytes buf off (b ∷ []) >>= λ buf'. write_bytes vs buf' (off + 1)

-- Value.Bytes: the items of a byte slice.
unfoldable pub bytes_of : Vals → Result Buf
bytes_of nil = ok []
bytes_of (cons (Val.num Scalar.uint8 n) vs) = bytes_of vs >>= λ bs. ok (n ∷ bs)
bytes_of (cons _ vs) = panic

-- `n` is typ.Len().
unfoldable pub marshal_byte_array : ℕ → Val → Buf → ℕ → Written
unfolding write_bytes bytes_of copy_bytes
marshal_byte_array n (Val.array t vs) buf off =
    write_bytes vs buf off >>= λ buf'. ok (buf', off +u64 count_vals vs)
marshal_byte_array n (Val.nil_slice t) buf off =
    copy_bytes buf off (replicate n 0) >>= λ buf'. ok (buf', off +u64 n)
marshal_byte_array n (Val.slice t vs) buf off =
    bytes_of vs >>= λ bs. copy_bytes buf off bs >>= λ buf'. ok (buf', off +u64 count_vals vs)
marshal_byte_array n val buf off = panic

-- `index, err = factory.Marshal(val.Index(i), typ.Elem(), buf, index)` for each i
unfoldable pub marshal_in_order : (Val → Buf → ℕ → Written) → Vals → Buf → ℕ → Written
marshal_in_order self nil buf index = ok (buf, index)
marshal_in_order self (cons v vs) buf index =
    self v buf index >>= λ (buf', index'). marshal_in_order self vs buf' index'

-- basicSSZ.Marshal, with marshalBasicArray
unfoldable pub marshal_basic : Marshaler
unfolding marshal_bool marshal_num marshal_byte_array marshal_in_order items is_basic_type kind
marshal_basic val (Typ.scalar Scalar.bool) = marshal_bool val
marshal_basic val (Typ.scalar Scalar.uint8) = marshal_uint8 val
marshal_basic val (Typ.scalar Scalar.uint16) = marshal_uint16 val
marshal_basic val (Typ.scalar Scalar.int32) = marshal_int32 val
marshal_basic val (Typ.scalar Scalar.uint32) = marshal_uint32 val
marshal_basic val (Typ.scalar Scalar.uint64) = marshal_uint64 val
marshal_basic val (Typ.array n t) = λ buf off.
    let loop = items val >>= λ vs. marshal_in_order (λ v. marshal_basic v t) vs buf off in
    if is_uint8 t
    then marshal_byte_array n val buf off
    else if is_basic_type (kind t)
    then loop
    else err not_serializable
marshal_basic val _ = λ buf off. err not_serializable

-- stringSSZ.Marshal
unfoldable pub marshal_string : Val → Buf → ℕ → Written
unfolding items write_bytes
marshal_string val buf off =
    items val >>= λ vs. write_bytes vs buf off >>= λ buf'. ok (buf', off +u64 count_vals vs)

unfoldable pub to_bytes32 : Buf → Buf
to_bytes32 bs = take 32 (bs ++ replicate 32 0)

-- An item of a roots array: `[32]byte` or `[]byte`.
unfoldable pub root_bytes : Val → Result Buf
unfolding bytes_of to_bytes32
root_bytes (Val.array (Typ.scalar Scalar.uint8) vs) =
    if count_vals vs == 32 then bytes_of vs else err not_a_root
root_bytes (Val.slice (Typ.scalar Scalar.uint8) vs) = bytes_of vs >>= λ bs. ok (to_bytes32 bs)
root_bytes (Val.nil_slice (Typ.scalar Scalar.uint8)) = ok (to_bytes32 [])
root_bytes _ = err not_a_root

unfoldable pub marshal_root : Val → Buf → ℕ → Written
unfolding root_bytes put_bytes
marshal_root v buf index =
    root_bytes v >>= λ bs. put_bytes buf index bs >>= λ buf'. ok (buf', index +u64 32)

-- `uint32(currentOffsetIndex-startOffset)`, written at `buf[fixedIndex:fixedIndex+4]`
unfoldable pub write_offset : Buf → ℕ → ℕ → ℕ → Result Buf
unfolding put_bytes le_bytes
write_offset buf fixed current start =
    put_bytes buf fixed (le_bytes 4 ((current + 2 ^ 64 - start) % 2 ^ 64 % 2 ^ 32))

-- The loop over items of variable size, of slices and of arrays: each is written at `current`
-- and its offset at `fixed`.
unfoldable pub marshal_offsets : (Val → Buf → ℕ → Written) → ℕ → Vals → Buf → ℕ → ℕ → Written
unfolding write_offset
marshal_offsets self start nil buf fixed current = ok (buf, current)
marshal_offsets self start (cons v vs) buf fixed current = self v buf current >>= λ (buf', next).
    write_offset buf' fixed current start >>= λ buf''.
    marshal_offsets self start vs buf'' (fixed +u64 bytes_per_length_offset) next

-- The first loop of structSSZ.Marshal.
unfoldable pub fixed_length : ℕ → Fields → Vals → ℕ → Result ℕ
fixed_length f end vs total = ok total
fixed_length f (field name size max t fs) nil total = panic
fixed_length f (field name size max t fs) (cons v vs) total =
    let skip = fixed_length f fs vs total in
    let here = determine_field_type size t >>= λ f_type.
    is_variable_size_type f f_type >>= λ variable.
    (if variable then ok bytes_per_length_offset else determine_fixed_size f v f_type) >>= λ n.
    fixed_length f fs vs (total +u64 n) in
    if is_metadata name then skip else here

-- Its second loop. `find` is SSZFactory with the Marshal of what it finds.
unfoldable pub marshal_fields : ℕ → Marshaler → ℕ → Fields → Vals → Buf → ℕ → ℕ → Written
unfolding write_offset
marshal_fields f find start end vs buf fixed current = ok (buf, current)
marshal_fields f find start (field name size max t fs) nil buf fixed current = panic
marshal_fields f find start (field name size max t fs) (cons v vs) buf fixed current =
    let skip = marshal_fields f find start fs vs buf fixed current in
    let here = determine_field_type size t >>= λ f_type.
    is_variable_size_type f f_type >>= λ variable.
    let in_place = find v f_type buf fixed >>= λ (buf', fixed').
    marshal_fields f find start fs vs buf' fixed' current in
    let with_offset = find v f_type buf current >>= λ (buf', next).
    write_offset buf' fixed current start >>= λ buf''.
    marshal_fields f find start fs vs buf'' (fixed +u64 bytes_per_length_offset) next in
    if variable then with_offset else in_place in
    if is_metadata name then skip else here

-- compositeSliceSSZ.Marshal and compositeArraySSZ.Marshal, and basicSliceSSZ.Marshal and
-- basicArraySSZ.Marshal without `composite`; all find the factory at the first item.
unfoldable pub marshal_items : ℕ → (Factory → Marshaler) → Bool → Val → Typ → Buf → ℕ → Written
marshal_items f run composite val t buf start = items val >>= λ vs. elim vs [
  | nil ↦ ok (buf, start)
  | cons v rest ↦ ssz_factory f v t >>= λ factory.
      (if composite then is_variable_size_type f t else ok false) >>= λ variable.
      if variable
      then marshal_offsets (λ w. run factory w t) start (cons v rest) buf start
          (start +u64 count_vals (cons v rest) *u64 bytes_per_length_offset)
      else marshal_in_order (λ w. run factory w t) (cons v rest) buf start
]

-- basicSliceSSZ.Marshal
abbrev pub marshal_basic_slice : ℕ → (Factory → Marshaler) → Marshaler
marshal_basic_slice f run val typ buf start =
    elem_type typ >>= λ t. marshal_items f run false val t buf start

-- basicArraySSZ.Marshal
abbrev pub marshal_basic_array : ℕ → (Factory → Marshaler) → Marshaler
marshal_basic_array f run val typ buf start =
    elem_type typ >>= λ t. marshal_items f run false val t buf start

-- compositeSliceSSZ.Marshal
abbrev pub marshal_composite_slice : ℕ → (Factory → Marshaler) → Marshaler
marshal_composite_slice f run val typ buf start =
    elem_type typ >>= λ t. marshal_items f run true val t buf start

-- compositeArraySSZ.Marshal
abbrev pub marshal_composite_array : ℕ → (Factory → Marshaler) → Marshaler
marshal_composite_array f run val typ buf start =
    elem_type typ >>= λ t. marshal_items f run true val t buf start

-- rootsArraySSZ.Marshal
abbrev pub marshal_roots_array : Marshaler
marshal_roots_array val typ buf start =
    items val >>= λ vs. marshal_in_order marshal_root vs buf start

-- structSSZ.Marshal of a struct value; the length that the first loop adds up is where the second
-- section begins.
abbrev pub marshal_struct : ℕ → Marshaler → Val → Fields → Buf → ℕ → Written
marshal_struct f find val fs buf start = field_vals val >>= λ vs.
    fixed_length f fs vs 0 >>= λ fixed.
    marshal_fields f find start fs vs buf start (start +u64 fixed)

-- The Marshal of each factory. A pointer reaches structSSZ only.
unfoldable pub marshal_with : ℕ → Factory → Marshaler
unfolding elem_type field_vals items
marshal_with zero factory val typ buf start = stuck
marshal_with (suc f) Factory.basic val typ buf start = marshal_basic val typ buf start
marshal_with (suc f) Factory.string val typ buf start = marshal_string val buf start
marshal_with (suc f) Factory.roots_array val typ buf start = marshal_roots_array val typ buf start
marshal_with (suc f) Factory.basic_slice val typ buf start =
    marshal_basic_slice f (marshal_with f) val typ buf start
marshal_with (suc f) Factory.basic_array val typ buf start =
    marshal_basic_array f (marshal_with f) val typ buf start
marshal_with (suc f) Factory.composite_slice val typ buf start =
    marshal_composite_slice f (marshal_with f) val typ buf start
marshal_with (suc f) Factory.composite_array val typ buf start =
    marshal_composite_array f (marshal_with f) val typ buf start
marshal_with (suc f) Factory.struct val (Typ.struct fs) buf start =
    marshal_struct f
      (λ v t buf' off. ssz_factory f v t >>= λ factory. marshal_with f factory v t buf' off) val fs
      buf start
marshal_with (suc f) Factory.struct (Val.nil_ptr u) (Typ.ptr t) buf start =
    marshal_with f Factory.struct (zero_value t) t buf start
marshal_with (suc f) Factory.struct (Val.ptr v) (Typ.ptr t) buf start =
    marshal_with f Factory.struct v t buf start
marshal_with (suc f) Factory.struct val typ buf start = panic

-- What the exported Marshal does once it has the value's type and its factory.
unfoldable pub marshal_typed : ℕ → Val → Typ → Factory → Buf → Written
marshal_typed f (Val.nil_ptr u) typ factory buf = ok (buf, 0)
marshal_typed f (Val.ptr v) typ factory buf =
    elem_type typ >>= λ t. marshal_with f factory v t buf 0
marshal_typed f val typ factory buf = marshal_with f factory val typ buf 0

-- The exported Marshal; `none` is an untyped nil.
unfoldable pub marshal : ℕ → Option Val → Result Buf
marshal f none = err untyped_nil
marshal f (some val) = determine_size f val >>= λ n. type_of val >>= λ typ.
    ssz_factory f val typ >>= λ factory.
    marshal_typed f val typ factory (replicate n 0) >>= λ (buf, off). ok buf
