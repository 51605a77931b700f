-- ===== src/Unmarshal/RootArrays.antt =====
-- The exported Unmarshal into an array of roots.
use go_ssz.Prelude.{ℕ, zero, suc, ◌≤◌, ◌<◌, ◌≡◌, refl, arith, false, panic, some}
use go_ssz.Prelude.{◌==◌, Bool-cases, inl, inr, ◌&&◌, leb, length}
use go_ssz.Reflect.{Typ, Val, Vals, zero_value, items, repeat_val, kind}
use go_ssz.Size.{◌+u64◌, is_basic_type}
use go_ssz.Factory.{Factory}
use go_ssz.Input.{Input, slice_input}
use go_ssz.Decode.{unmarshal_root, unmarshal_roots_array, unmarshal_in_order, set_bytes}
use go_ssz.Ssz.{depth, Schema}
use go_ssz.Represents.{TypeRep, byte_typ, byte_schema}
use go_ssz.Represents.Factory.{choice, array_choice}
use go_ssz.Unmarshal.{unmarshal, unmarshal_with}
use go_ssz.Unmarshal.Targets.{IsFresh, ssz_factory-fresh, type_of-zero_value}

-- `[n][32]byte`
abbrev pub roots_typ : ℕ → Typ
roots_typ n = Typ.array n (Typ.array 32 byte_typ)

-- SetBytes is no way to write to an array.
unmarshal_root_array :
    (t : Typ) (vs : Vals) (input : Input) (index : ℕ)
    → unmarshal_root (Val.array t vs) input index ≡ panic
unfolding unmarshal_root slice_input set_bytes
unmarshal_root_array t vs input index =
    elim (Bool-cases (leb index (index +u64 32) && leb (index +u64 32) (length input.bytes))) [
      | inl z ↦ rw z refl
      | inr z ↦ rw z refl
    ]

run_panics :
    (f n : ℕ) (input : Input)
    → unmarshal_with
        (suc f)
        Factory.roots_array
        (zero_value (roots_typ (suc n)))
        (roots_typ (suc n))
        input
        0
      ≡ panic
unfolding unmarshal_with unmarshal_roots_array unmarshal_in_order zero_value items
run_panics f n input =
    rw (unmarshal_root_array byte_typ (repeat_val 32 (zero_value byte_typ)) input 0) refl

-- The exported Unmarshal panics at every input that is not empty when the target is a pointer to
-- a fresh array of arrays of 32 bytes, `[n][32]byte` with n above 0, if the model is given eight units of
-- fuel.
pub unmarshal-roots_array :
    (n f : ℕ) (input : Input)
    → 0 < input.len
    → 8 ≤ f
    → unmarshal f input (some (Val.ptr (zero_value (roots_typ (suc n))))) ≡ panic
unfolding unmarshal choice array_choice depth unmarshal_with is_basic_type kind
unmarshal-roots_array n zero input p h = absurd (omega (arith, h))
unmarshal-roots_array n (suc f) input p h =
    let z : (input.len == 0) ≡ false = ground (arith, p) in
    let r : TypeRep (roots_typ (suc n)) (Schema.vector (suc n) (Schema.vector 32 byte_schema)) =
      TypeRep.array (TypeRep.array (TypeRep.uint refl)) in
    rw
      (
        z,
        type_of-zero_value (roots_typ (suc n)),
        ssz_factory-fresh (IsFresh.untouched (roots_typ (suc n))) r (suc f) (omega (arith, h)),
        run_panics f n input,
      )
      refl
