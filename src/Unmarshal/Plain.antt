-- ===== src/Unmarshal/Plain.antt =====
-- The values that Unmarshal can give back as they were, up to nil slices, and what they are by the item.
use go_ssz.Prelude.{
  ℕ, subst, ◌≡◌, refl, ap, ◌∙◌, sym, Bool, true, false, if◌then◌else◌, ok, some, none, Option, [],
}
use go_ssz.Prelude.{◌∷◌, ◌==◌}
use go_ssz.Reflect.{
  Scalar, Text, Typ, Fields, Val, Vals, nil, cons, type_of, zero_value, items, count_vals,
  bytes_as_vals,
}
use go_ssz.Tags.{is_metadata, determine_field_type}
use go_ssz.Ssz.{Schema, Schemas, Item, Items}
use go_ssz.Represents.{ValRep, ValsRep, FieldsRep, uint_width, byte_typ, byte_schema}
use go_ssz.DeepEqual.Canon.{canon, canon_all}

-- No nil pointers, and zero values in protobuf metadata.
mutual
  pub data IsPlain : Val → Typ → Type 0 where
    boolean : (b : Bool) → IsPlain (Val.bool b) (Typ.scalar Scalar.bool)
    number :
        (k : Scalar) (n : ℕ) {w : ℕ} → uint_width k ≡ some w → IsPlain (Val.num k n) (Typ.scalar k)
    string : (s : Text) → IsPlain (Val.str s) Typ.string
    nil_slice : (t : Typ) → IsPlain (Val.nil_slice t) (Typ.slice t)
    slice : {t : Typ} {vs : Vals} → AllPlain vs t → IsPlain (Val.slice t vs) (Typ.slice t)
    array :
        {n : ℕ} {t : Typ} {vs : Vals}
        → count_vals vs ≡ n
        → AllPlain vs t
        → IsPlain (Val.array t vs) (Typ.array n t)
    struct :
        {fs : Fields} {vs : Vals} → FieldsPlain vs fs → IsPlain (Val.struct fs vs) (Typ.struct fs)
    ptr : {t : Typ} {v : Val} → IsPlain v t → IsPlain (Val.ptr v) (Typ.ptr t)

  pub data AllPlain : Vals → Typ → Type 0 where
    no_vals : {t : Typ} → AllPlain nil t
    each : {t : Typ} {v : Val} {vs : Vals} → IsPlain v t → AllPlain vs t → AllPlain (cons v vs) t

  pub data FieldsPlain : Vals → Fields → Type 0 where
    no_fields : FieldsPlain nil Fields.end
    keep :
        {name : Text} {max : Option Text} {t : Typ} {fs : Fields} {v : Val} {vs : Vals}
        → is_metadata name ≡ false
        → IsPlain v t
        → FieldsPlain vs fs
        → FieldsPlain (cons v vs) (Fields.field name none max t fs)
    skip :
        {name : Text} {size max : Option Text} {t : Typ} {fs : Fields} {vs : Vals}
        → is_metadata name ≡ true
        → FieldsPlain vs fs
        → FieldsPlain (cons (zero_value t) vs) (Fields.field name size max t fs)

pub IsPlain-type_of : {v : Val} {t : Typ} → IsPlain v t → type_of v ≡ ok t
unfolding type_of
IsPlain-type_of (IsPlain.boolean b) = refl
IsPlain-type_of (IsPlain.number k n e) = refl
IsPlain-type_of (IsPlain.string s) = refl
IsPlain-type_of (IsPlain.nil_slice t) = refl
IsPlain-type_of (IsPlain.slice h) = refl
IsPlain-type_of (IsPlain.array c h) = rw c refl
IsPlain-type_of (IsPlain.struct h) = refl
IsPlain-type_of (IsPlain.ptr h) = rw (IsPlain-type_of h) refl

abbrev text_of : Items → Text
text_of Items.nil = []
text_of (Items.cons (Item.num n) xs) = n ∷ text_of xs
text_of (Items.cons (Item.seq ys) xs) = text_of xs

-- The value of an item at a type.
unfoldable mutual
  unfolding zero_value is_metadata

  pub build : Typ → Item → Val
  build (Typ.scalar Scalar.bool) (Item.num n) = Val.bool (n == 1)
  build (Typ.scalar k) (Item.num n) = Val.num k n
  build Typ.string (Item.seq xs) = Val.str (text_of xs)
  build (Typ.slice t) (Item.seq xs) = Val.slice t (build_all t xs)
  build (Typ.array n t) (Item.seq xs) = Val.array t (build_all t xs)
  build (Typ.struct fs) (Item.seq xs) = Val.struct fs (build_fields fs xs)
  build (Typ.ptr t) x = Val.ptr (build t x)
  build _ _ = Val.invalid

  pub build_all : Typ → Items → Vals
  build_all t Items.nil = nil
  build_all t (Items.cons x xs) = cons (build t x) (build_all t xs)

  pub build_fields : Fields → Items → Vals
  build_fields Fields.end xs = nil
  build_fields (Fields.field name size max t fs) Items.nil =
      if is_metadata name then cons (canon (zero_value t)) (build_fields fs Items.nil) else nil
  build_fields (Fields.field name size max t fs) (Items.cons x xs) =
      let passed = cons (canon (zero_value t)) (build_fields fs (Items.cons x xs)) in
      let built = cons (build t x) (build_fields fs xs) in
      if is_metadata name then passed else built

text_of-bytes_as_vals :
    (cs : Text) {xs : Items} → ValsRep (bytes_as_vals cs) byte_typ byte_schema xs → cs ≡ text_of xs
text_of-bytes_as_vals [] ValsRep.no_vals = refl
text_of-bytes_as_vals (c ∷ cs) (ValsRep.each (ValRep.uint e h) rs) =
    ap (λ (ds : Text). c ∷ ds) (text_of-bytes_as_vals cs rs)

zero_one : (b : Bool) → Val.bool b ≡ Val.bool ((if b then 1 else 0) == 1)
zero_one true = refl
zero_one false = refl

build_number :
    (k : Scalar) (n : ℕ) {w : ℕ}
    → uint_width k ≡ some w
    → build (Typ.scalar k) (Item.num n) ≡ Val.num k n
unfolding build
build_number Scalar.bool n e = cc
build_number _ n e = refl

build_skip :
    (name : Text) (size max : Option Text) (t : Typ) (fs : Fields) (xs : Items)
    → is_metadata name ≡ true
    → build_fields (Fields.field name size max t fs) xs
      ≡ cons (canon (zero_value t)) (build_fields fs xs)
unfolding build
build_skip name size max t fs Items.nil m = rw m refl
build_skip name size max t fs (Items.cons x xs) m = rw m refl

no_items :
    {vs : Vals} {t : Typ} {s : Schema} {xs : Items}
    → vs ≡ nil
    → ValsRep vs t s xs
    → build_all t xs ≡ nil
unfolding build
no_items e ValsRep.no_vals = refl
no_items e (ValsRep.each r rs) = cc

nil_items :
    {vs : Vals} {t : Typ} {s : Schema} {xs : Items}
    → ok nil ≡ ok vs
    → ValsRep vs t s xs
    → nil ≡ build_all t xs
nil_items {vs} e r = let p : vs ≡ nil = cc in sym (no_items p r)

at_field :
    {t u : Typ} (x : Item) {v : Val}
    → ok t ≡ ok u
    → (IsPlain v u → canon v ≡ build u x)
    → IsPlain v t
    → canon v ≡ build t x
at_field {t} {u} x {v} e h =
    let p : u ≡ t = cc in subst (λ (w : Typ). IsPlain v w → canon v ≡ build w x) p h

at_items :
    {vs ws : Vals} {t : Typ} {us : Vals}
    → ok ws ≡ ok vs
    → (AllPlain vs t → canon_all vs ≡ us)
    → AllPlain ws t
    → canon_all ws ≡ us
at_items {vs} {ws} {t} {us} e h =
    let p : vs ≡ ws = cc in subst (λ (zs : Vals). AllPlain zs t → canon_all zs ≡ us) p h

struct_plain :
    {fs gs : Fields} {vs : Vals} → IsPlain (Val.struct fs vs) (Typ.struct gs) → FieldsPlain vs gs
struct_plain (IsPlain.struct h) = h

ptr_plain :
    {fs gs : Fields} {vs : Vals}
    → IsPlain (Val.ptr (Val.struct fs vs)) (Typ.ptr (Typ.struct gs))
    → FieldsPlain vs gs
ptr_plain (IsPlain.ptr (IsPlain.struct h)) = h

mutual
  unfolding build canon items determine_field_type

  -- What stands for an item is the value of the item, up to nil slices.
  pub canon-build :
      {v : Val} {t : Typ} {s : Schema} {x : Item}
      → ValRep v t s x
      → IsPlain v t
      → canon v ≡ build t x
  canon-build ValRep.boolean (IsPlain.boolean b) = zero_one b
  canon-build (ValRep.uint {k = k} {n = n} e h) p = sym (build_number k n e)
  canon-build (ValRep.string rs) (IsPlain.string cs) = ap Val.str (text_of-bytes_as_vals cs rs)
  canon-build (ValRep.slice e r o rs) (IsPlain.nil_slice t) = ap (Val.slice t) (nil_items e rs)
  canon-build (ValRep.slice e r o rs) (IsPlain.slice {t = t} h) =
      ap (Val.slice t) (at_items e (λ p. canon_all-build rs p) h)
  canon-build (ValRep.array e c u r o rs) (IsPlain.array {t = t} d h) =
      ap (Val.array t) (at_items e (λ p. canon_all-build rs p) h)
  canon-build (ValRep.byte_array c rs) (IsPlain.array {t = t} d h) =
      ap (Val.array t) (canon_all-build rs h)
  canon-build (ValRep.byte_slice c rs) p = elim p [ ]
  canon-build (ValRep.nil_bytes e) p = elim p [ ]
  canon-build (ValRep.nil_ptr e rs) p = elim p [ ]
  canon-build (ValRep.struct {fs = fs} rs) p =
      ap (Val.struct fs) (canon_all-build_fields rs (struct_plain p))
  canon-build (ValRep.ptr {fs = fs} rs) p =
      ap (λ (vs : Vals). Val.ptr (Val.struct fs vs)) (canon_all-build_fields rs (ptr_plain p))

  canon_all-build :
      {vs : Vals} {t : Typ} {s : Schema} {xs : Items}
      → ValsRep vs t s xs
      → AllPlain vs t
      → canon_all vs ≡ build_all t xs
  canon_all-build ValsRep.no_vals h = refl
  canon_all-build (ValsRep.each r rs) (AllPlain.each p ps) =
      let a = canon-build r p in let b = canon_all-build rs ps in cc

  canon_all-build_fields :
      {fs : Fields} {vs : Vals} {ss : Schemas} {xs : Items}
      → FieldsRep fs vs ss xs
      → FieldsPlain vs fs
      → canon_all vs ≡ build_fields fs xs
  canon_all-build_fields FieldsRep.no_fields h = refl
  canon_all-build_fields (FieldsRep.skip {xs = xs} m rs)
        (FieldsPlain.skip {name} {size} {max} {t} {fs} k h) =
      ap (λ (ws : Vals). cons (canon (zero_value t)) ws) (canon_all-build_fields rs h)
      ∙ sym (build_skip name size max t fs xs k)
  canon_all-build_fields (FieldsRep.skip m rs) (FieldsPlain.keep k p h) = cc
  canon_all-build_fields (FieldsRep.keep m d r rs) (FieldsPlain.skip k h) = cc
  canon_all-build_fields (FieldsRep.keep {x = x} m d r rs) (FieldsPlain.keep k p h) =
      let a = at_field x d (λ q. canon-build r q) p in
      let b = canon_all-build_fields rs h in rw k cc
