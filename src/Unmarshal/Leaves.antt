-- ===== src/Unmarshal/Leaves.antt =====
-- The Unmarshal of booleans, numbers and strings.
use go_ssz.Prelude.{ℕ, suc, ◌+◌, ◌%◌, ◌^◌, ◌<◌, ◌≡◌, refl, ap, arith, Bool, true, false}
use go_ssz.Prelude.{some, ◌++◌, length, ok, leb, if◌then◌else◌, take-append, subst, Result}
use go_ssz.Buffer.{Buf, le_bytes}
use go_ssz.Buffer.Writes.{lengths}
use go_ssz.Reflect.{Scalar, Typ, Val, type_of, zero_value, bytes_as_vals}
use go_ssz.Size.{◌+u64◌}
use go_ssz.Input.{Input}
use go_ssz.Decode.{
  set_uint, set_int, unmarshal_num, unmarshal_string, unmarshal_basic, unmarshal_kind,
}
use go_ssz.Unmarshal.{unmarshal_with}
use go_ssz.Marshal.Loops.{concat, join-concat}
use go_ssz.Ssz.{Schema, Item, Items, is_variable, serialize}
use go_ssz.Ssz.Parts.{length-le_bytes}
use go_ssz.Represents.{ValRep, ValsRep, uint_width, byte_typ, byte_schema}
use go_ssz.Represents.Factory.{choice}
use go_ssz.Unmarshal.Reads.{input_of, slice_input-append, byte_at-append, read_le-append}
use go_ssz.Unmarshal.Decodes.{Decodes, DecodesAll, Stands, Reads}

pub bool-Reads :
    (b : Bool) (f : ℕ)
    → Reads
        (suc f)
        (Val.bool b)
        (Typ.scalar Scalar.bool)
        Schema.boolean
        (Item.num (if b then 1 else 0))
unfolding unmarshal_with unmarshal_basic unmarshal_kind choice zero_value serialize
bool-Reads true f pre post len l k c d =
    let p : leb len (length pre) ≡ false = ground (arith, l) in
    (
      (length pre + 1) % 2 ^ 64,
      rw (p, byte_at-append pre 1 post len (omega (arith, l))) refl,
      λ z. omega (lengths, c),
    )
bool-Reads false f pre post len l k c d =
    let p : leb len (length pre) ≡ false = ground (arith, l) in
    (
      (length pre + 1) % 2 ^ 64,
      rw (p, byte_at-append pre 0 post len (omega (arith, l))) refl,
      λ z. omega (lengths, c),
    )

uint8-Reads :
    (n f : ℕ)
    → n < 256
    → Reads (suc f) (Val.num Scalar.uint8 n) (Typ.scalar Scalar.uint8) (Schema.uint 1) (Item.num n)
unfolding unmarshal_with unmarshal_basic unmarshal_kind choice zero_value serialize
uint8-Reads n f h pre post len l k c d =
    let p : leb len (length pre) ≡ false = ground (arith, l) in
    let q : n % 256 ≡ n = omega (arith, h) in
    let b : (n % 256) % 2 ^ 8 ≡ n = omega (arith, h) in
    (
      (length pre + 1) % 2 ^ 64,
      rw (p, byte_at-append pre (n % 256) post len (omega (arith, l)), b) refl,
      λ z. omega (lengths, c),
    )

-- A number of more than one byte
num_lem :
    (set : Val → ℕ → Result Val) (val new_val : Val) (w n : ℕ) (pre post : Buf) (len : ℕ)
    → n < 256 ^ w
    → set val n ≡ ok new_val
    → length (pre ++ (le_bytes w n ++ post)) < 2 ^ 64
    → unmarshal_num set w val (input_of (pre ++ (le_bytes w n ++ post)) len) (length pre)
      ≡ ok (new_val, length pre + length (le_bytes w n))
unfolding unmarshal_num
num_lem set val new_val w n pre post len h e b =
    let l = length-le_bytes w n in
    let s : length pre +u64 w ≡ length pre + length (le_bytes w n) = omega (lengths, l, b) in
    rw (read_le-append pre post w n len (length pre) h refl b, e, s) refl

wide-Reads :
    (k : Scalar) (w n f : ℕ) (set : Val → ℕ → Result Val)
    → 0 < w
    → ((input : Input) (start : ℕ)
        → unmarshal_kind f (unmarshal_with f) (zero_value (Typ.scalar k)) (Typ.scalar k) input start
          ≡ unmarshal_num set w (zero_value (Typ.scalar k)) input start)
    → set (zero_value (Typ.scalar k)) n ≡ ok (Val.num k n)
    → n < 256 ^ w
    → Reads (suc f) (Val.num k n) (Typ.scalar k) (Schema.uint w) (Item.num n)
unfolding unmarshal_with unmarshal_basic choice serialize
wide-Reads k w n f set o u e h pre post len l k' c d =
    let s = length-le_bytes w n in
    let p : leb len (length pre) ≡ false = ground (arith, l, s) in
    let bytes = input_of (pre ++ (le_bytes w n ++ post)) len in
    (
      length pre + length (le_bytes w n),
      rw (p, u bytes (length pre))
          (num_lem set (zero_value (Typ.scalar k)) (Val.num k n) w n pre post len h e c),
      λ z. refl,
    )

uint_at :
    (k : Scalar) (w' n f : ℕ) {w : ℕ}
    → (n < 256 ^ w' → Reads (suc f) (Val.num k n) (Typ.scalar k) (Schema.uint w') (Item.num n))
    → some w' ≡ some w
    → n < 256 ^ w
    → Reads (suc f) (Val.num k n) (Typ.scalar k) (Schema.uint w) (Item.num n)
uint_at k w' n f {w} r e h =
    let p : w' ≡ w = cc in
    subst
      (λ (m : ℕ).
        n < 256 ^ m → Reads (suc f) (Val.num k n) (Typ.scalar k) (Schema.uint m) (Item.num n))
      p r h

pub uint-Reads :
    (k : Scalar) (w n f : ℕ)
    → uint_width k ≡ some w
    → n < 256 ^ w
    → Reads (suc f) (Val.num k n) (Typ.scalar k) (Schema.uint w) (Item.num n)
unfolding unmarshal_kind zero_value set_int
uint-Reads Scalar.uint8 w n f e h =
    uint_at Scalar.uint8 1 n f (λ b. uint8-Reads n f (omega (arith, b))) e h
uint-Reads Scalar.uint16 w n f e h =
    uint_at Scalar.uint16 2 n f
      (λ b.
        let q : n % 2 ^ 16 ≡ n = omega (arith, b) in
        wide-Reads Scalar.uint16 2 n f set_uint (omega arith) (λ input start. refl) (rw q refl) b)
      e h
uint-Reads Scalar.int32 w n f e h =
    uint_at Scalar.int32 4 n f
      (λ b.
        let q : n % 2 ^ 32 ≡ n = omega (arith, b) in
        wide-Reads Scalar.int32 4 n f set_int (omega arith) (λ input start. refl) (rw q refl) b)
      e h
uint-Reads Scalar.uint32 w n f e h =
    uint_at Scalar.uint32 4 n f
      (λ b.
        let q : n % 2 ^ 32 ≡ n = omega (arith, b) in
        wide-Reads Scalar.uint32 4 n f set_uint (omega arith) (λ input start. refl) (rw q refl) b)
      e h
uint-Reads Scalar.uint64 w n f e h =
    uint_at Scalar.uint64 8 n f
      (λ b.
        let q : n % 2 ^ 64 ≡ n = omega (arith, b) in
        wide-Reads Scalar.uint64 8 n f set_uint (omega arith) (λ input start. refl) (rw q refl) b)
      e h
uint-Reads _ w n f e h = cc

-- The bytes of a string, decoded one by one.
concat-ValsRep :
    {xs : Items}
    → DecodesAll byte_typ byte_schema xs
    → ValsRep (bytes_as_vals (concat byte_schema xs)) byte_typ byte_schema xs
unfolding serialize
concat-ValsRep DecodesAll.no_items = ValsRep.no_vals
concat-ValsRep (DecodesAll.each (Decodes.uint {n = n} e h) ds) =
    let q : n % 256 ≡ n = omega (arith, h) in
    rw q (ValsRep.each (ValRep.uint e h) (concat-ValsRep ds))

pub string-Stands :
    {xs : Items}
    → DecodesAll byte_typ byte_schema xs
    → Stands
        (Val.str (serialize (Schema.list byte_schema) (Item.seq xs)))
        Typ.string
        (Schema.list byte_schema)
        (Item.seq xs)
unfolding serialize type_of
string-Stands {xs} d =
    (ValRep.string (rw (join-concat byte_schema xs refl) (concat-ValsRep d)), refl)

pub string-Reads :
    (xs : Items) (f : ℕ)
    → Reads
        (suc f)
        (Val.str (serialize (Schema.list byte_schema) (Item.seq xs)))
        Typ.string
        (Schema.list byte_schema)
        (Item.seq xs)
unfolding unmarshal_with unmarshal_string choice zero_value is_variable
string-Reads xs f pre post len l k c d =
    let bs = serialize (Schema.list byte_schema) (Item.seq xs) in
    let (p, q) = k refl in
    let e : length pre ≡ 0 = ap length p in
    let s : length pre +u64 len ≡ length pre + length bs = omega (lengths, c, q, e) in
    (
      length pre +u64 len,
      rw
          (
            slice_input-append pre bs post len (length pre) (length pre +u64 len) refl s,
            take-append bs post,
          )
          refl,
      λ z. cc,
    )
