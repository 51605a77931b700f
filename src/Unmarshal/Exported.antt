-- ===== src/Unmarshal/Exported.antt =====
-- The exported Unmarshal.
use go_ssz.Prelude.{
  ℕ, zero, suc, ◌+◌, ◌*◌, ◌^◌, ◌≤◌, ◌<◌, ◌≡◌, refl, arith, true, false, ok, Result, err, bind_ok,
  wrong_length, no_input,
}
use go_ssz.Prelude.{◌++◌, [], length, append-nil, some, if◌then◌else◌, ◌==◌, Bool-cases, inl, inr}
use go_ssz.Buffer.{Buf}
use go_ssz.Reflect.{Typ, Val, type_of}
use go_ssz.Size.{determine_size}
use go_ssz.Factory.{ssz_factory}
use go_ssz.Input.{Input}
use go_ssz.Grow.{is_ptr}
use go_ssz.Marshal.{marshal}
use go_ssz.Marshal.Exported.{marshal-serialize, is_nil_ptr}
use go_ssz.Ssz.{Schema, Item, serialize, depth}
use go_ssz.Represents.{ValRep}
use go_ssz.Represents.Size.{determine_size-serialize}
use go_ssz.Unmarshal.{unmarshal, unmarshal_with, checked_length}
use go_ssz.Unmarshal.Targets.{target, type_of-target, IsFresh-target, ssz_factory-fresh}
use go_ssz.Unmarshal.Reads.{input_of}
use go_ssz.Unmarshal.Decodes.{Decodes, Decodes-TypeRep}
use go_ssz.Unmarshal.Composites.{item_read}
use go_ssz.Unmarshal.RoundTrip.{back, Whole}
use go_ssz.Unmarshal.Plain.{IsPlain-type_of}

checked_length-determine_size :
    (f : ℕ) (v : Val) (bytes : Buf) (n : ℕ)
    → determine_size f v ≡ ok n
    → checked_length (suc f) (Val.ptr v) (input_of bytes n) ≡ ok (Val.ptr v)
unfolding checked_length determine_size
checked_length-determine_size f v bytes n e =
    let p : (n == n) ≡ true = ground arith in rw (e, p) refl

-- The exported Unmarshal of the serialization that the format specifies, into a pointer to a fresh
-- target, succeeds with a value of the target's type that stands for the item and has no nil pointers,
-- and zero values in protobuf metadata, whatever bytes follow in the capacity of the input, if
-- Unmarshal decodes the item's type at the schema (`Decodes`), the serialization is not empty and has
-- less than 2^32 bytes, the capacity is below 2^64, and the model is given the fuel that the depth
-- of the schema asks for.
pub unmarshal-serialize :
    {t : Typ} {s : Schema} {x : Item}
    → Decodes t s x
    → 0 < length (serialize s x)
    → length (serialize s x) < 2 ^ 32
    → (post : Buf) → length (serialize s x ++ post) < 2 ^ 64
    → (f : ℕ) → 8 * depth s + 4 ≤ f
    → (v : Val) × Whole v t s x
      × (unmarshal f
            (input_of (serialize s x ++ post) (length (serialize s x)))
            (some (Val.ptr (target t)))
          ≡ ok (Val.ptr v))
unfolding unmarshal
unmarshal-serialize d p c post b zero h = absurd (omega (arith, h))
unmarshal-serialize {t} {s} {x} d p c post b (suc f) h =
    let bytes = serialize s x ++ post in
    let n = length (serialize s x) in
    let (v, (r, e), read) = back d (suc f) (omega (arith, h)) in
    let (index, i) = item_read (suc f) v t s x post read b c in
    let z : (n == 0) ≡ false = ground (arith, p) in
    let size =
      determine_size-serialize r (IsPlain-type_of e) (omega (arith, c)) f (omega (arith, h)) in
    (
      v,
      (r, e),
      rw
          (
            z,
            type_of-target t,
            ssz_factory-fresh (IsFresh-target t) (Decodes-TypeRep d) (suc f) (omega (arith, h)),
            i,
          )
          (checked_length-determine_size f v bytes n size),
    )

-- What the exported Marshal returns for a value that stands for an item at its own type and is no
-- nil pointer, Unmarshal turns back into a value of that type that stands for the same item and has
-- no nil pointers, and zero values in protobuf metadata, under the conditions of
-- `unmarshal-serialize` on the item and on the fuel.
pub unmarshal-marshal :
    {v : Val} {t : Typ} {s : Schema} {x : Item}
    → ValRep v t s x
    → type_of v ≡ ok t
    → is_nil_ptr v ≡ false
    → Decodes t s x
    → 0 < length (serialize s x)
    → length (serialize s x) < 2 ^ 32
    → (f : ℕ) → 8 * depth s + 4 ≤ f
    → (bytes : Buf) × (marshal f (some v) ≡ ok bytes)
      × (w : Val) × (unmarshal f (input_of bytes (length bytes)) (some (Val.ptr (target t)))
          ≡ ok (Val.ptr w))
      × Whole w t s x
unmarshal-marshal {s = s} {x = x} r e q d p c f h =
    let b : length (serialize s x ++ []) < 2 ^ 64 = rw append-nil (omega (arith, c)) in
    let (w, stands, back) = unmarshal-serialize d p c [] b f h in
    (
      serialize s x,
      marshal-serialize r e q (omega (arith, c)) f (omega (arith, h)),
      w,
      rw append-nil at back,
      stands,
    )

-- What a check says of a number, it says of the number's other name.
guarded :
    (a b : ℕ) (val : Val) {r : Val}
    → (if a == b then ok val else err wrong_length) ≡ ok r
    → (a ≡ b) × (r ≡ val)
guarded a b val e = elim (Bool-cases (a == b)) [
  | inl z ↦ let k = rw z at e in (ground (arith, z), cc)
  | inr z ↦ let k = rw z at e in cc
]

checked_length-ok :
    (f : ℕ) (val : Val) (input : Input) {r : Val}
    → checked_length f val input ≡ ok r
    → determine_size f r ≡ ok input.len
unfolding checked_length
checked_length-ok f val input e =
    let (n, p, q) = bind_ok (determine_size f val) _ e in
    let (k, m) = guarded input.len n val q in rw (m, k) p

filled_only :
    (n : ℕ) (m : Result Val) {r : Val}
    → (if n == 0 then err no_input else m) ≡ ok r
    → (0 < n) × (m ≡ ok r)
filled_only n m e = elim (Bool-cases (n == 0)) [
  | inl z ↦ let k = rw z at e in cc
  | inr z ↦ (ground (arith, z), rw z at e)
]

-- When the exported Unmarshal succeeds, the input was not empty, the target was a pointer that was
-- not nil, and DetermineSize finds that the pointer that is left takes the length of the input
-- exactly.
pub unmarshal-determine_size :
    (f : ℕ) (input : Input) (v r : Val)
    → unmarshal f input (some v) ≡ ok r
    → (0 < input.len)
      × (is_nil_ptr v ≡ false)
      × (is_ptr v ≡ true)
      × (determine_size f r ≡ ok input.len)
unfolding unmarshal
unmarshal-determine_size f input (Val.ptr v) r e =
    let (p, d) = filled_only input.len _ e in
    let (t, a, b) = bind_ok (type_of v) _ d in
    let (factory, g, h) = bind_ok (ssz_factory f v t) _ b in
    let ((w, index), i, j) = bind_ok (unmarshal_with f factory v t input 0) _ h in
    (p, refl, refl, checked_length-ok f (Val.ptr w) input j)
unmarshal-determine_size f input (Val.nil_ptr t) r e = let (p, d) = filled_only input.len _ e in cc
unmarshal-determine_size f input Val.invalid r e = let (p, d) = filled_only input.len _ e in cc
unmarshal-determine_size f input _ r e = let (p, d) = filled_only input.len _ e in cc
