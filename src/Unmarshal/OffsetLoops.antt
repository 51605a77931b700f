-- ===== src/Unmarshal/OffsetLoops.antt =====
-- compositeArraySSZ.Unmarshal and compositeSliceSSZ.Unmarshal end, whatever the input says.
use go_ssz.Prelude.{ℕ, zero, suc, ◌+◌, ◌^◌, ◌<◌, ◌≡◌, arith, false, ◌==◌, ltb}
use go_ssz.Prelude.{ok, Bool-cases, inl, inr, length}
use go_ssz.Reflect.{Typ, Val, Vals, nil, cons, items, elem_type, zero_value, repeat_val, type_of}
use go_ssz.Size.{◌+u64◌}
use go_ssz.Factory.{Factory, ssz_factory}
use go_ssz.Input.{Input, slice_input, read_le}
use go_ssz.Grow.{is_ptr, assign, instantiate, index_of, instantiate_last, copy_vals, grow_slice}
use go_ssz.Decode.{Decoder}
use go_ssz.DecodeSlices.{
  next_offset, unmarshal_index, unmarshal_composite_array, array_of, unmarshal_offsets,
  unmarshal_composite_slice, emptied,
}
use go_ssz.Unmarshal.Ends.{
  Ends, bind-Ends, items-Ends, elem_type-Ends, index_of-Ends, assign-Ends, instantiate-Ends,
  type_of-Ends, slice_input-Ends, read_le-Ends, read_le-bound, next_offset-Ends, SelfEnds,
  unmarshal_index-Ends, Within, Within-next, places-Ends,
}

-- SSZFactory finds a factory of an item, or ends otherwise, and its Unmarshal ends.
abbrev pub ItemEnds : ℕ → (Factory → Decoder) → Typ → Type 0
ItemEnds f run t =
    (v : Val)
    → Ends (ssz_factory f v t)
      × ((factory : Factory) → ssz_factory f v t ≡ ok factory → SelfEnds (run factory) t)

array_of-Ends : (val : Val) (n : ℕ) (t : Typ) → Ends (array_of val (Typ.array n t))
unfolding array_of
array_of-Ends (Val.slice u vs) n t = λ p. cc
array_of-Ends (Val.nil_slice u) n t = λ p. cc
array_of-Ends _ n t = λ p. cc

first_Within :
    (input : Input) (start first o : ℕ)
    → read_le input start 4 ≡ ok o
    → Within input first start (suc (length input.bytes))
first_Within input start first o e =
    let (a, b) = read_le-bound input start 4 o e in inr (omega (arith, a, b), omega arith)

-- The Unmarshal of compositeArraySSZ ends with a value, an error or a panic for every value, input and
-- index, if the capacity of the input is below 2^64 and for the items, at the type that the array
-- has for them, SSZFactory ends and so does the Unmarshal that it finds.
pub unmarshal_composite_array-Ends :
    (f : ℕ) (run : Factory → Decoder) (val : Val) (n : ℕ) (t : Typ) (input : Input) (start : ℕ)
    → ItemEnds f run t
    → length input.bytes < 2 ^ 64
    → Ends (unmarshal_composite_array f run val (Typ.array n t) input start)
unfolding unmarshal_composite_array elem_type
unmarshal_composite_array-Ends f run val n t input start h b =
    bind-Ends (read_le input start 4) _ (read_le-Ends input start 4) (λ o e.
      bind-Ends (array_of val (Typ.array n t)) _ (array_of-Ends val n t) (λ ready d.
        bind-Ends (items ready) _ (items-Ends ready) (λ vs c.
          bind-Ends (index_of vs 0) _ (index_of-Ends vs 0) (λ v a.
            bind-Ends (ssz_factory f v t) _ ((h v).0) (λ factory g.
              places-Ends (suc (length input.bytes)) (run factory) ready t 0 input start
                (start +u64 o) start (start +u64 o) ((h v).1 factory g) b
                (first_Within input start (start +u64 o) o e))))))

instantiate_last-Ends : (t : Typ) (vs : Vals) → Ends (instantiate_last t vs)
unfolding instantiate_last
instantiate_last-Ends t nil = λ p. cc
instantiate_last-Ends t (cons v nil) = elim (Bool-cases (is_ptr v)) [
  | inl z ↦ rw z (
      bind-Ends (elem_type t) _ (elem_type-Ends t)
        (λ u e. bind-Ends (instantiate v u) _ (instantiate-Ends v u) (λ w d. λ p. cc)))
  | inr z ↦ rw z (λ p. cc)
]
instantiate_last-Ends t (cons v (cons w vs)) =
    bind-Ends (instantiate_last t (cons w vs)) _ (instantiate_last-Ends t (cons w vs))
      (λ ws e. λ p. cc)

grow_slice-Ends : (val : Val) (t : Typ) (n : ℕ) → Ends (grow_slice val (Typ.slice t) n)
unfolding grow_slice
grow_slice-Ends val t n = bind-Ends (items val) _ (items-Ends val) (λ vs e.
    bind-Ends (assign val (Val.slice t nil)) _ (assign-Ends val (Val.slice t nil)) (λ same d.
      bind-Ends (instantiate_last t (copy_vals (repeat_val n (zero_value t)) vs)) _
        (instantiate_last-Ends t (copy_vals (repeat_val n (zero_value t)) vs)) (λ ws c. λ p. cc)))

offsets-Ends :
    (rounds f : ℕ) (run : Factory → Decoder) (val : Val) (t : Typ) (i : ℕ) (input : Input)
    (start first index current : ℕ)
    → ItemEnds f run t
    → length input.bytes < 2 ^ 64
    → Within input first index rounds
    → Ends (unmarshal_offsets rounds f run val (Typ.slice t) t i input start first index current)
unfolding unmarshal_offsets
offsets-Ends zero f run val t i input start first index current h b (inl (e, p)) =
    absurd (omega (arith, p))
offsets-Ends zero f run val t i input start first index current h b (inr (l, m)) =
    absurd (omega (arith, l, m))
offsets-Ends (suc rounds) f run val t i input start first index current h b (inl (e, p)) =
    let z : ltb index first ≡ false = ground (arith, e) in rw z (λ q. cc)
offsets-Ends (suc rounds) f run val t i input start first index current h b (inr w) =
    let next = index +u64 4 in
    elim (Bool-cases (ltb index first)) [
      | inr z ↦ rw z (λ q. cc)
      | inl z ↦ rw z (
          bind-Ends (next_offset input start next first) _ (next_offset-Ends input start next first)
            (λ end e.
              let within = Within-next input start first index rounds end b w e in
              elim (Bool-cases (ltb end current)) [
                | inl y ↦ rw y (λ q. cc)
                | inr y ↦ rw y (
                    bind-Ends (grow_slice val (Typ.slice t) (i + 1)) _
                      (grow_slice-Ends val t (i + 1))
                      (λ grown d. bind-Ends (items grown) _ (items-Ends grown) (λ vs c.
                        bind-Ends (index_of vs i) _ (index_of-Ends vs i) (λ v a.
                          bind-Ends (ssz_factory f v t) _ ((h v).0) (λ factory g.
                            bind-Ends (slice_input input current end) _
                              (slice_input-Ends input current end)
                              (λ part k.
                                bind-Ends (unmarshal_index (run factory) grown i t part 0) _
                                  (unmarshal_index-Ends (run factory) grown i t part 0
                                    ((h v).1 factory g))
                                  (λ (val', read) l.
                                    offsets-Ends rounds f run val' t (i + 1) input start first next
                                      end h b within)))))))
              ]))
    ]

emptied-Ends : (val : Val) → Ends (emptied val)
unfolding emptied
emptied-Ends val =
    bind-Ends (type_of val) _ (type_of-Ends val) (λ u e.
      bind-Ends (elem_type u) _ (elem_type-Ends u) (λ t d. assign-Ends val (Val.slice t nil)))

-- The Unmarshal of compositeSliceSSZ ends with a value, an error or a panic for every value, input and
-- index, if the capacity of the input is below 2^64 and for the items, at the type that the slice
-- has for them, SSZFactory ends and so does the Unmarshal that it finds.
pub unmarshal_composite_slice-Ends :
    (f : ℕ) (run : Factory → Decoder) (val : Val) (t : Typ) (input : Input) (start : ℕ)
    → ItemEnds f run t
    → length input.bytes < 2 ^ 64
    → Ends (unmarshal_composite_slice f run val (Typ.slice t) input start)
unfolding unmarshal_composite_slice elem_type
unmarshal_composite_slice-Ends f run val t input start h b = elim (Bool-cases (input.len == 0)) [
  | inl z ↦ rw z (bind-Ends (emptied val) _ (emptied-Ends val) (λ empty e. λ p. cc))
  | inr z ↦ rw z (
      bind-Ends (grow_slice val (Typ.slice t) 1) _ (grow_slice-Ends val t 1) (λ grown d.
        bind-Ends (read_le input start 4) _ (read_le-Ends input start 4) (λ o e.
          offsets-Ends (suc (length input.bytes)) f run grown t 0 input start (start +u64 o) start
            (start +u64 o) h b (first_Within input start (start +u64 o) o e))))
]
