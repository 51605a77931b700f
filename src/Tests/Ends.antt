-- ===== src/Tests/Ends.antt =====
-- The loops over offsets at sequences of strings.
use go_ssz.Prelude.{ℕ, ◌≡◌, ◌≢◌, List, [], ◌∷◌, ok, stuck, arith}
use go_ssz.Size.{◌+u64◌}
use go_ssz.Reflect.{Typ, Val}
use go_ssz.Factory.{Factory, ssz_factory}
use go_ssz.Input.{Input, slice_input, shown}
use go_ssz.Decode.{set_string, unmarshal_string}
use go_ssz.DecodeSlices.{unmarshal_composite_array, unmarshal_composite_slice}
use go_ssz.Unmarshal.{unmarshal_with}
use go_ssz.Unmarshal.Reads.{input_of}
use go_ssz.Unmarshal.Ends.{Ends, bind-Ends, slice_input-Ends, SelfEnds}
use go_ssz.Unmarshal.OffsetLoops.{
  ItemEnds, unmarshal_composite_array-Ends, unmarshal_composite_slice-Ends,
}

set_string-Ends : (v : Val) (cs : List ℕ) → Ends (set_string v cs)
unfolding set_string
set_string-Ends (Val.str s) cs = λ p. cc
set_string-Ends _ cs = λ p. cc

unmarshal_string-Ends :
    (v : Val) (input : Input) (start : ℕ) → Ends (unmarshal_string v input start)
unfolding unmarshal_string
unmarshal_string-Ends v input start =
    bind-Ends (slice_input input start (start +u64 input.len)) _
      (slice_input-Ends input start (start +u64 input.len))
      (λ s e. bind-Ends (set_string v (shown s)) _ (set_string-Ends v (shown s)) (λ w d. λ p. cc))

found_string :
    (factory : Factory)
    → ok Factory.string ≡ ok factory
    → SelfEnds (unmarshal_with 3 factory) Typ.string
unfolding unmarshal_with
found_string factory e =
    let q : factory ≡ Factory.string = cc in
    rw q (λ v input start. unmarshal_string-Ends v input start)

unmarshal_with-ItemEnds : ItemEnds 3 (unmarshal_with 3) Typ.string
unfolding ssz_factory
unmarshal_with-ItemEnds v = (λ p. cc, λ factory e. found_string factory e)

-- Offsets that decrease, and an item that would begin behind the end.
abbrev hostile : Input
hostile = input_of (8 ∷ 0 ∷ 0 ∷ 0 ∷ 1 ∷ 0 ∷ 0 ∷ 0 ∷ 97 ∷ []) 9

unmarshal_composite_array-Ends_example :
    unmarshal_composite_array 3
      (unmarshal_with 3)
      (Val.nil_slice Typ.string)
      (Typ.array 2 Typ.string)
      hostile
      0
    ≢ stuck
unmarshal_composite_array-Ends_example =
    unmarshal_composite_array-Ends 3 (unmarshal_with 3) (Val.nil_slice Typ.string) 2 Typ.string
      hostile 0 unmarshal_with-ItemEnds (omega arith)

unmarshal_composite_slice-Ends_example :
    unmarshal_composite_slice 3
      (unmarshal_with 3)
      (Val.nil_slice Typ.string)
      (Typ.slice Typ.string)
      hostile
      0
    ≢ stuck
unmarshal_composite_slice-Ends_example =
    unmarshal_composite_slice-Ends 3 (unmarshal_with 3) (Val.nil_slice Typ.string) Typ.string
      hostile 0 unmarshal_with-ItemEnds (omega arith)
