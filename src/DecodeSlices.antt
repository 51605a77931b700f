-- ===== src/DecodeSlices.antt =====
-- The Unmarshal methods of types/slice_basic.go, types/slice_composite.go and
-- types/array_composite.go.
use go_ssz.Prelude.{ℕ, zero, suc, ◌+◌, ◌-◌, ◌/◌, ◌%◌, ◌^◌, List, [], ◌∷◌, true, false}
use go_ssz.Prelude.{if◌then◌else◌, ◌==◌, ltb, length, Bool}
use go_ssz.Prelude.{Result, ok, panic, stuck, ◌>>=◌}
use go_ssz.Reflect.{Typ, Val, nil, elem_type, type_of, items, zero_value, repeat_val}
use go_ssz.Size.{◌+u64◌, bytes_per_length_offset}
use go_ssz.Factory.{Factory, ssz_factory}
use go_ssz.Input.{Input, slice_input, read_le}
use go_ssz.Equal.{same_type}
use go_ssz.Grow.{
  is_ptr, instantiate, assign, index_of, set_index, copy_vals, grow_slice, grow_sizes,
}
use go_ssz.Decode.{Decoded, Decoder, with_items}

-- `reflect.MakeSlice(val.Type(), 0, 0)`, which `val` is set to
unfoldable pub emptied : Val → Result Val
unfolding type_of
emptied val = type_of val >>= λ u. elem_type u >>= λ t. assign val (Val.slice t nil)

-- `sizes`: how the items of a tagged slice are made, 0 for a slice and the length for an array.
unfoldable pub inner_sizes : Typ → List ℕ
inner_sizes (Typ.slice t) = 0 ∷ inner_sizes t
inner_sizes (Typ.array n t) = n ∷ inner_sizes t
inner_sizes _ = []

-- growSliceFromSizeTags, with the old items copied over
unfoldable pub regrow : Val → List ℕ → Result Val
unfolding copy_vals items
regrow val sizes = type_of val >>= λ u. grow_sizes val u sizes >>= λ result.
    items result >>= λ ws. items val >>= λ vs. ok (with_items result (copy_vals ws vs))

-- Room for `n` items: a slice at its own type is grown by growConcreteSliceType, one that a struct tag
-- gives another type by growSliceFromSizeTags.
unfoldable pub make_room : Bool → Val → Typ → ℕ → Result Val
make_room tagged val t n =
    if tagged then regrow val (n ∷ inner_sizes t) else type_of val >>= λ u. grow_slice val u n

-- The Unmarshal of `val.Index(i)`
unfoldable pub unmarshal_index : Decoder → Val → ℕ → Typ → Input → ℕ → Decoded
unfolding items
unmarshal_index self val i t input start = items val >>= λ vs. index_of vs i >>= λ v.
    self v t input start >>= λ (w, index). ok (with_items val (set_index vs i w), index)

-- The loop of basicSliceSSZ.Unmarshal over the items behind the first, `rounds` of them.
unfoldable pub unmarshal_rest : ℕ → Bool → Decoder → Val → ℕ → Typ → Input → ℕ → Decoded
unmarshal_rest zero tagged self val i t input index = ok (val, index)
unmarshal_rest (suc rounds) tagged self val i t input index =
    (if tagged then ok val else type_of val >>= λ u. grow_slice val u (i + 1)) >>= λ grown.
    unmarshal_index self grown i t input index >>= λ (val', index').
    unmarshal_rest rounds tagged self val' (i + 1) t input index'

-- basicSliceSSZ.Unmarshal behind its first item, of `size` bytes; a division by zero panics.
unfoldable pub unmarshal_behind : Bool → Decoder → Val → Typ → Input → ℕ → ℕ → Decoded
unmarshal_behind tagged self val t input zero index = panic
unmarshal_behind tagged self val t input (suc size) index =
    (if tagged then make_room true val t (input.len / suc size) else ok val) >>= λ grown.
    unmarshal_rest (input.len / suc size - 1) tagged self grown 1 t input index

-- basicSliceSSZ.Unmarshal of an input that is not empty
unfoldable pub unmarshal_filled : ℕ → (Factory → Decoder) → Bool → Val → Typ → Input → ℕ → Decoded
unfolding items
unmarshal_filled f run tagged val t input start = make_room tagged val t 1 >>= λ grown.
    items grown >>= λ vs. index_of vs 0 >>= λ v. ssz_factory f v t >>= λ factory.
    unmarshal_index (run factory) grown 0 t input start >>= λ (val', index).
    unmarshal_behind tagged (run factory) val' t input ((index + 2 ^ 64 - start) % 2 ^ 64) index

-- basicSliceSSZ.Unmarshal
unfoldable pub unmarshal_basic_slice : ℕ → (Factory → Decoder) → Decoder
unmarshal_basic_slice f run val typ input start =
    if input.len == 0
    then (emptied val >>= λ empty. ok (empty, 0))
    else type_of val >>= λ u. elem_type typ >>= λ t.
        unmarshal_filled f run (if same_type u typ then false else true) val t input start

-- Where the item that begins at `current` ends: at the offset behind its own, or with the input.
unfoldable pub next_offset : Input → ℕ → ℕ → ℕ → Result ℕ
next_offset input start next first =
    let offset = read_le input next 4 >>= λ o. ok (start +u64 o) in
    if next == first then ok input.len else offset

-- The loop of compositeSliceSSZ.Unmarshal, on fuel.
unfoldable pub unmarshal_offsets :
    ℕ → ℕ → (Factory → Decoder) → Val → Typ → Typ → ℕ → Input → ℕ → ℕ → ℕ → ℕ → Decoded
unfolding items
unmarshal_offsets zero f run val typ t i input start first index current = stuck
unmarshal_offsets (suc rounds) f run val typ t i input start first index current =
    let next = index +u64 bytes_per_length_offset in
    let more = λ (end : ℕ). grow_slice val typ (i + 1) >>= λ grown. items grown >>= λ vs.
    index_of vs i >>= λ v. ssz_factory f v t >>= λ factory.
    slice_input input current end >>= λ part.
    unmarshal_index (run factory) grown i t part 0 >>= λ (val', read).
    unmarshal_offsets rounds f run val' typ t (i + 1) input start first next end in
    let round : Decoded = next_offset input start next first >>= λ end.
    if ltb end current then ok (val, index) else more end in
    if ltb index first then round else ok (val, index)

-- compositeSliceSSZ.Unmarshal; its loop has a round for each four bytes.
unfoldable pub unmarshal_composite_slice : ℕ → (Factory → Decoder) → Decoder
unmarshal_composite_slice f run val typ input start =
    if input.len == 0
    then (emptied val >>= λ empty. ok (empty, 0))
    else grow_slice val typ 1 >>= λ grown. elem_type typ >>= λ t. read_le input start 4 >>= λ o.
        unmarshal_offsets (suc (length input.bytes)) f run grown typ t 0 input start (start +u64 o)
          start (start +u64 o)

-- `val.Index(i)`, given a target if it is a pointer
unfoldable pub with_target : Val → ℕ → Typ → Result Val
unfolding items
with_target val i t = items val >>= λ vs. index_of vs i >>= λ v.
    if is_ptr v
    then (elem_type t >>= λ u. instantiate v u >>= λ w. ok (with_items val (set_index vs i w)))
    else ok val

-- The loop of compositeArraySSZ.Unmarshal, on fuel.
unfoldable pub unmarshal_places : ℕ → Decoder → Val → Typ → ℕ → Input → ℕ → ℕ → ℕ → ℕ → Decoded
unmarshal_places zero self val t i input start first index current = stuck
unmarshal_places (suc rounds) self val t i input start first index current =
    let next = index +u64 bytes_per_length_offset in
    let round = next_offset input start next first >>= λ end. with_target val i t >>= λ ready.
    slice_input input current end >>= λ part.
    unmarshal_index self ready i t part 0 >>= λ (val', read).
    unmarshal_places rounds self val' t (i + 1) input start first next end in
    if ltb index first then round else ok (val, index)

-- A slice that stands for an array gets its items.
unfoldable pub array_of : Val → Typ → Result Val
unfolding zero_value
array_of (Val.slice t vs) (Typ.array n u) = ok (Val.slice t (repeat_val n (zero_value t)))
array_of (Val.nil_slice t) (Typ.array n u) = ok (Val.slice t (repeat_val n (zero_value t)))
array_of (Val.slice t vs) typ = panic
array_of (Val.nil_slice t) typ = panic
array_of val typ = ok val

-- compositeArraySSZ.Unmarshal
unfoldable pub unmarshal_composite_array : ℕ → (Factory → Decoder) → Decoder
unfolding items
unmarshal_composite_array f run val typ input start = read_le input start 4 >>= λ o.
    array_of val typ >>= λ ready. elem_type typ >>= λ t. items ready >>= λ vs.
    index_of vs 0 >>= λ v. ssz_factory f v t >>= λ factory.
    unmarshal_places (suc (length input.bytes)) (run factory) ready t 0 input start (start +u64 o)
      start (start +u64 o)
