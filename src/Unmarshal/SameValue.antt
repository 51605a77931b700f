-- ===== src/Unmarshal/SameValue.antt =====
-- DeepEqual behind Unmarshal behind Marshal.
use go_ssz.Prelude.{
  ℕ, zero, suc, ◌+◌, ◌*◌, ◌^◌, ◌≤◌, ◌<◌, ◌≡◌, refl, ap, ◌∙◌, sym, true, false, ok, some, Option,
  length,
}
use go_ssz.Buffer.{Buf}
use go_ssz.Reflect.{
  is_unexported, Scalar, Text, Typ, Fields, Val, Vals, zero_value, zero_fields, repeat_val,
}
use go_ssz.Marshal.{marshal}
use go_ssz.Marshal.Exported.{is_nil_ptr}
use go_ssz.Ssz.{Schema, Item, serialize, depth}
use go_ssz.Represents.{ValRep, uint_width}
use go_ssz.DeepEqual.{deep_equal, is_compared}
use go_ssz.DeepEqual.Canon.{HasType, AllHaveType, FieldsHaveType, deep_equal-canon}
use go_ssz.Unmarshal.{unmarshal}
use go_ssz.Unmarshal.Targets.{target, count_vals-repeat_val}
use go_ssz.Unmarshal.Reads.{input_of}
use go_ssz.Unmarshal.Decodes.{Decodes}
use go_ssz.Unmarshal.Plain.{IsPlain, AllPlain, FieldsPlain, IsPlain-type_of, canon-build}
use go_ssz.Unmarshal.Exported.{unmarshal-marshal}

-- Types of which DeepEqual compares every part, protobuf metadata too: it panics on unexported fields.
mutual
  pub data IsComparable : Typ → Type 0 where
    boolean : IsComparable (Typ.scalar Scalar.bool)
    number : (k : Scalar) → is_compared k ≡ true → IsComparable (Typ.scalar k)
    string : IsComparable Typ.string
    slice : {t : Typ} → IsComparable t → IsComparable (Typ.slice t)
    array : {n : ℕ} {t : Typ} → IsComparable t → IsComparable (Typ.array n t)
    struct : {fs : Fields} → FieldsComparable fs → IsComparable (Typ.struct fs)
    ptr : {t : Typ} → IsComparable t → IsComparable (Typ.ptr t)

  pub data FieldsComparable : Fields → Type 0 where
    no_fields : FieldsComparable Fields.end
    keep :
        {name : Text} {size max : Option Text} {t : Typ} {fs : Fields}
        → is_unexported name ≡ false
        → IsComparable t
        → FieldsComparable fs
        → FieldsComparable (Fields.field name size max t fs)

zero_compared :
    (k : Scalar) → is_compared k ≡ true → HasType (zero_value (Typ.scalar k)) (Typ.scalar k)
unfolding zero_value
zero_compared Scalar.bool e = cc
zero_compared k e = HasType.number k 0 e

uint_width-is_compared : (k : Scalar) {w : ℕ} → uint_width k ≡ some w → is_compared k ≡ true
uint_width-is_compared Scalar.uint8 e = refl
uint_width-is_compared Scalar.uint16 e = refl
uint_width-is_compared Scalar.int32 e = refl
uint_width-is_compared Scalar.uint32 e = refl
uint_width-is_compared Scalar.uint64 e = refl
uint_width-is_compared _ e = cc

repeat-AllHaveType : {t : Typ} {v : Val} (n : ℕ) → HasType v t → AllHaveType (repeat_val n v) t
repeat-AllHaveType zero h = AllHaveType.no_vals
repeat-AllHaveType (suc n) h = AllHaveType.each h (repeat-AllHaveType n h)

mutual
  unfolding zero_value

  zero-HasType : {t : Typ} → IsComparable t → HasType (zero_value t) t
  zero-HasType IsComparable.boolean = HasType.boolean false
  zero-HasType (IsComparable.number k e) = zero_compared k e
  zero-HasType IsComparable.string = HasType.string _
  zero-HasType (IsComparable.slice {t = t} c) = HasType.nil_slice t
  zero-HasType (IsComparable.array {n = n} {t = t} c) =
      HasType.array (count_vals-repeat_val n (zero_value t)) (repeat-AllHaveType n (zero-HasType c))
  zero-HasType (IsComparable.struct c) = HasType.struct (zero_fields-HaveType c)
  zero-HasType (IsComparable.ptr {t = t} c) = HasType.nil_ptr t

  zero_fields-HaveType : {fs : Fields} → FieldsComparable fs → FieldsHaveType (zero_fields fs) fs
  zero_fields-HaveType FieldsComparable.no_fields = FieldsHaveType.no_fields
  zero_fields-HaveType (FieldsComparable.keep e c cs) =
      FieldsHaveType.keep e (zero-HasType c) (zero_fields-HaveType cs)

mutual
  IsPlain-HasType : {v : Val} {t : Typ} → IsPlain v t → IsComparable t → HasType v t
  IsPlain-HasType (IsPlain.boolean b) c = HasType.boolean b
  IsPlain-HasType (IsPlain.number k n e) c = HasType.number k n (uint_width-is_compared k e)
  IsPlain-HasType (IsPlain.string s) c = HasType.string s
  IsPlain-HasType (IsPlain.nil_slice t) c = HasType.nil_slice t
  IsPlain-HasType (IsPlain.slice h) (IsComparable.slice c) = HasType.slice (AllPlain-HaveType h c)
  IsPlain-HasType (IsPlain.array d h) (IsComparable.array c) =
      HasType.array d (AllPlain-HaveType h c)
  IsPlain-HasType (IsPlain.struct h) (IsComparable.struct c) =
      HasType.struct (FieldsPlain-HaveType h c)
  IsPlain-HasType (IsPlain.ptr h) (IsComparable.ptr c) = HasType.ptr (IsPlain-HasType h c)

  AllPlain-HaveType : {vs : Vals} {t : Typ} → AllPlain vs t → IsComparable t → AllHaveType vs t
  AllPlain-HaveType AllPlain.no_vals c = AllHaveType.no_vals
  AllPlain-HaveType (AllPlain.each h hs) c =
      AllHaveType.each (IsPlain-HasType h c) (AllPlain-HaveType hs c)

  FieldsPlain-HaveType :
      {vs : Vals} {fs : Fields} → FieldsPlain vs fs → FieldsComparable fs → FieldsHaveType vs fs
  FieldsPlain-HaveType FieldsPlain.no_fields FieldsComparable.no_fields = FieldsHaveType.no_fields
  FieldsPlain-HaveType (FieldsPlain.keep m h hs) (FieldsComparable.keep e c cs) =
      FieldsHaveType.keep e (IsPlain-HasType h c) (FieldsPlain-HaveType hs cs)
  FieldsPlain-HaveType (FieldsPlain.skip m hs) (FieldsComparable.keep e c cs) =
      FieldsHaveType.keep e (zero-HasType c) (FieldsPlain-HaveType hs cs)

is_nil_ptr-IsPlain : {v : Val} {t : Typ} → IsPlain v t → is_nil_ptr v ≡ false
is_nil_ptr-IsPlain (IsPlain.boolean b) = refl
is_nil_ptr-IsPlain (IsPlain.number k n e) = refl
is_nil_ptr-IsPlain (IsPlain.string s) = refl
is_nil_ptr-IsPlain (IsPlain.nil_slice t) = refl
is_nil_ptr-IsPlain (IsPlain.slice h) = refl
is_nil_ptr-IsPlain (IsPlain.array c h) = refl
is_nil_ptr-IsPlain (IsPlain.struct h) = refl
is_nil_ptr-IsPlain (IsPlain.ptr h) = refl

-- What Unmarshal makes, in a fresh target, of the bytes that Marshal returns for a value is
-- equal to the value for DeepEqual, if the value stands for an item at its own type and has no nil
-- pointers, and zero values in protobuf metadata, DeepEqual compares every part of the type, and the
-- conditions of `unmarshal-serialize` on the item and on the fuel hold.
pub deep_equal-unmarshal :
    {v : Val} {t : Typ} {s : Schema} {x : Item}
    → ValRep v t s x
    → IsPlain v t
    → IsComparable t
    → Decodes t s x
    → 0 < length (serialize s x)
    → length (serialize s x) < 2 ^ 32
    → (f : ℕ) → 8 * depth s + 4 ≤ f
    → (bytes : Buf) × (marshal f (some v) ≡ ok bytes)
      × (w : Val) × (unmarshal f (input_of bytes (length bytes)) (some (Val.ptr (target t)))
          ≡ ok (Val.ptr w))
      × (deep_equal (some v) (some w) ≡ ok true)
deep_equal-unmarshal r p c d l b f h =
    let (bytes, m, w, u, (r', p')) =
      unmarshal-marshal r (IsPlain-type_of p) (is_nil_ptr-IsPlain p) d l b f h in
    let (same, e, (to, from)) = deep_equal-canon (IsPlain-HasType p c) (IsPlain-HasType p' c) in
    (bytes, m, w, u, e ∙ ap ok (from (canon-build r p ∙ sym (canon-build r' p'))))
