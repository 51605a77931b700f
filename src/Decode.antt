-- ===== src/Decode.antt =====
-- The Unmarshal methods of types/basic.go, types/string.go, types/array_basic.go and
-- types/array_roots.go. A call takes the value that it writes to, and returns the value that it leaves
-- and the index behind what it read; what a failed call leaves is not modelled.
use go_ssz.Prelude.{ℕ, zero, suc, ◌%◌, ◌^◌, true, false, if◌then◌else◌, leb}
use go_ssz.Prelude.{Result, ok, err, panic, ◌>>=◌, not_serializable, past_end, not_a_bool}
use go_ssz.Reflect.{Scalar, Typ, Val, Vals, Text, nil, cons, kind, elem_type, items, bytes_as_vals}
use go_ssz.Size.{◌+u64◌, is_basic_type, is_uint8}
use go_ssz.Factory.{Factory, ssz_factory}
use go_ssz.Buffer.{Buf}
use go_ssz.Input.{Input, slice_input, byte_at, read_le, shown}
use go_ssz.Grow.{is_ptr, instantiate}

abbrev pub Decoded : Type 0
Decoded = Result (Val × ℕ)

-- An Unmarshal method: the value, its type, the input and the index to start at.
abbrev pub Decoder : Type 0
Decoder = Val → Typ → Input → ℕ → Decoded

-- Value.SetBool, SetUint, SetInt, SetString and SetBytes panic on values of other kinds. A number is
-- cut to the width of its kind.
unfoldable pub set_bool : Val → ℕ → Result Val
set_bool (Val.bool b) zero = ok (Val.bool false)
set_bool (Val.bool b) (suc n) = ok (Val.bool true)
set_bool val n = panic

unfoldable pub set_uint : Val → ℕ → Result Val
set_uint (Val.num Scalar.uint8 m) n = ok (Val.num Scalar.uint8 (n % 2 ^ 8))
set_uint (Val.num Scalar.uint16 m) n = ok (Val.num Scalar.uint16 (n % 2 ^ 16))
set_uint (Val.num Scalar.uint32 m) n = ok (Val.num Scalar.uint32 (n % 2 ^ 32))
set_uint (Val.num Scalar.uint64 m) n = ok (Val.num Scalar.uint64 (n % 2 ^ 64))
set_uint (Val.num Scalar.uint m) n = ok (Val.num Scalar.uint (n % 2 ^ 64))
set_uint (Val.num Scalar.uintptr m) n = ok (Val.num Scalar.uintptr (n % 2 ^ 64))
set_uint val n = panic

-- SetInt of a number that is not negative.
unfoldable pub set_int : Val → ℕ → Result Val
set_int (Val.num Scalar.int8 m) n = ok (Val.num Scalar.int8 (n % 2 ^ 8))
set_int (Val.num Scalar.int16 m) n = ok (Val.num Scalar.int16 (n % 2 ^ 16))
set_int (Val.num Scalar.int32 m) n = ok (Val.num Scalar.int32 (n % 2 ^ 32))
set_int (Val.num Scalar.int64 m) n = ok (Val.num Scalar.int64 (n % 2 ^ 64))
set_int (Val.num Scalar.int m) n = ok (Val.num Scalar.int (n % 2 ^ 64))
set_int val n = panic

unfoldable pub set_string : Val → Text → Result Val
set_string (Val.str s) cs = ok (Val.str cs)
set_string val cs = panic

unfoldable pub set_bytes : Val → Buf → Result Val
set_bytes (Val.slice t vs) bs = if is_uint8 t then ok (Val.slice t (bytes_as_vals bs)) else panic
set_bytes (Val.nil_slice t) bs = if is_uint8 t then ok (Val.slice t (bytes_as_vals bs)) else panic
set_bytes val bs = panic

unfoldable pub unmarshal_bool : Val → Input → ℕ → Decoded
unfolding set_bool byte_at
unmarshal_bool val input start = byte_at input start >>= λ v.
    if leb v 1 then (set_bool val v >>= λ new_val. ok (new_val, start +u64 1)) else err not_a_bool

unfoldable pub unmarshal_uint8 : Val → Input → ℕ → Decoded
unfolding set_uint byte_at
unmarshal_uint8 val input start =
    byte_at input start >>= λ v. set_uint val v >>= λ new_val. ok (new_val, start +u64 1)

-- unmarshalUint16, unmarshalInt32, unmarshalUint32 and unmarshalUint64: the setter and the width
unfoldable pub unmarshal_num : (Val → ℕ → Result Val) → ℕ → Val → Input → ℕ → Decoded
unfolding read_le
unmarshal_num set width val input start =
    read_le input start width >>= λ n. set val n >>= λ new_val. ok (new_val, start +u64 width)

abbrev pub unmarshal_uint16 : Val → Input → ℕ → Decoded
unfolding set_uint
unmarshal_uint16 = unmarshal_num set_uint 2

abbrev pub unmarshal_int32 : Val → Input → ℕ → Decoded
unfolding set_int
unmarshal_int32 = unmarshal_num set_int 4

abbrev pub unmarshal_uint32 : Val → Input → ℕ → Decoded
unfolding set_uint
unmarshal_uint32 = unmarshal_num set_uint 4

abbrev pub unmarshal_uint64 : Val → Input → ℕ → Decoded
unfolding set_uint
unmarshal_uint64 = unmarshal_num set_uint 8

unfoldable pub unmarshal_byte_array : Val → Input → ℕ → Decoded
unfolding set_bytes slice_input
unmarshal_byte_array val input start = slice_input input start (start +u64 input.len) >>= λ s.
    set_bytes val (shown s) >>= λ new_val. ok (new_val, start +u64 input.len)

-- stringSSZ.Unmarshal
unfoldable pub unmarshal_string : Val → Input → ℕ → Decoded
unfolding set_string slice_input
unmarshal_string val input start = slice_input input start (start +u64 input.len) >>= λ s.
    set_string val (shown s) >>= λ new_val. ok (new_val, start +u64 input.len)

-- A slice or an array with other items.
abbrev pub with_items : Val → Vals → Val
with_items (Val.slice t ws) vs = Val.slice t vs
with_items (Val.array t ws) vs = Val.array t vs
with_items val vs = val

-- The body of the loop of basicArraySSZ.Unmarshal. `run` is the Unmarshal of each factory.
unfoldable pub unmarshal_array_item : ℕ → (Factory → Decoder) → Decoder
unmarshal_array_item f run v t input index =
    if is_ptr v
    then (elem_type t >>= λ u. instantiate v u >>= λ new_v.
        ssz_factory f new_v u >>= λ factory. run factory new_v t input index)
    else ssz_factory f v t >>= λ factory. run factory v t input index

-- One item behind the other.
unfoldable pub unmarshal_in_order :
    (Val → Input → ℕ → Decoded) → Vals → Input → ℕ → Result (Vals × ℕ)
unmarshal_in_order self nil input index = ok (nil, index)
unmarshal_in_order self (cons v vs) input index = self v input index >>= λ (w, index').
    unmarshal_in_order self vs input index' >>= λ (ws, end). ok (cons w ws, end)

-- basicArraySSZ.Unmarshal
unfoldable pub unmarshal_basic_array : ℕ → (Factory → Decoder) → Decoder
unfolding unmarshal_array_item unmarshal_in_order items
unmarshal_basic_array f run val typ input start = items val >>= λ vs. elem_type typ >>= λ t.
    unmarshal_in_order (λ v. unmarshal_array_item f run v t) vs input start >>= λ (ws, index).
    ok (with_items val ws, index)

-- One item of rootsArraySSZ.Unmarshal
unfoldable pub unmarshal_root : Val → Input → ℕ → Decoded
unfolding set_bytes slice_input
unmarshal_root v input index = slice_input input index (index +u64 32) >>= λ s.
    set_bytes v (shown s) >>= λ new_v. ok (new_v, index +u64 32)

-- rootsArraySSZ.Unmarshal
unfoldable pub unmarshal_roots_array : Val → Input → ℕ → Decoded
unfolding unmarshal_root unmarshal_in_order items
unmarshal_roots_array val input start = items val >>= λ vs.
    unmarshal_in_order unmarshal_root vs input start >>= λ (ws, index).
    ok (with_items val ws, index)

-- What basicSSZ.Unmarshal does once it has looked at the index.
unfoldable pub unmarshal_kind : ℕ → (Factory → Decoder) → Decoder
unfolding unmarshal_bool unmarshal_uint8 unmarshal_num unmarshal_byte_array unmarshal_basic_array
unmarshal_kind f run val (Typ.scalar Scalar.bool) = unmarshal_bool val
unmarshal_kind f run val (Typ.scalar Scalar.uint8) = unmarshal_uint8 val
unmarshal_kind f run val (Typ.scalar Scalar.uint16) = unmarshal_uint16 val
unmarshal_kind f run val (Typ.scalar Scalar.int32) = unmarshal_int32 val
unmarshal_kind f run val (Typ.scalar Scalar.uint32) = unmarshal_uint32 val
unmarshal_kind f run val (Typ.scalar Scalar.uint64) = unmarshal_uint64 val
unmarshal_kind f run val (Typ.slice t) =
    λ input start. if is_uint8 t then unmarshal_byte_array val input start else err not_serializable
unmarshal_kind f run val (Typ.array n t) = λ input start.
    if is_basic_type (kind t)
    then unmarshal_basic_array f run val (Typ.array n t) input start
    else err not_serializable
unmarshal_kind f run val _ = λ input start. err not_serializable

-- basicSSZ.Unmarshal
unfoldable pub unmarshal_basic : ℕ → (Factory → Decoder) → Decoder
unfolding unmarshal_kind is_basic_type
unmarshal_basic f run val typ input start =
    if leb input.len start then err past_end else unmarshal_kind f run val typ input start
