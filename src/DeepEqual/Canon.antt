-- ===== src/DeepEqual/Canon.antt =====
-- DeepEqual compares values up to nil slices.
use go_ssz.Prelude.{ℕ, suc, ◌≡◌, refl, ap, ◌∙◌, sym, arith, Bool, true, false, if◌then◌else◌, ◌==◌}
use go_ssz.Prelude.{[], ◌∷◌, Bool-cases, inl, inr, ◌↔◌, Option, some, Result, ok, ◌>>=◌}
use go_ssz.Reflect.{
  is_unexported, Scalar, Text, Typ, Fields, Val, Vals, nil, cons, type_of, count_vals,
}
use go_ssz.Equal.{same_text, same_type_refl}
use go_ssz.DeepEqual.{
  is_compared, same_bool, at_same_type, deep_value_equal, deep_values_equal, deep_fields_equal,
  interface_of, deep_equal,
}

-- A value with empty slices in the place of nil slices.
unfoldable mutual
  pub canon : Val → Val
  canon (Val.nil_slice t) = Val.slice t nil
  canon (Val.slice t vs) = Val.slice t (canon_all vs)
  canon (Val.array t vs) = Val.array t (canon_all vs)
  canon (Val.struct fs vs) = Val.struct fs (canon_all vs)
  canon (Val.ptr v) = Val.ptr (canon v)
  canon v = v

  pub canon_all : Vals → Vals
  canon_all nil = nil
  canon_all (cons v vs) = cons (canon v) (canon_all vs)

-- Values of a type, all of whose parts are of kinds that are compared, and all of whose fields are
-- exported.
mutual
  pub data HasType : Val → Typ → Type 0 where
    boolean : (b : Bool) → HasType (Val.bool b) (Typ.scalar Scalar.bool)
    number : (k : Scalar) (n : ℕ) → is_compared k ≡ true → HasType (Val.num k n) (Typ.scalar k)
    string : (s : Text) → HasType (Val.str s) Typ.string
    nil_slice : (t : Typ) → HasType (Val.nil_slice t) (Typ.slice t)
    slice : {t : Typ} {vs : Vals} → AllHaveType vs t → HasType (Val.slice t vs) (Typ.slice t)
    array :
        {n : ℕ} {t : Typ} {vs : Vals}
        → count_vals vs ≡ n
        → AllHaveType vs t
        → HasType (Val.array t vs) (Typ.array n t)
    struct :
        {fs : Fields} {vs : Vals}
        → FieldsHaveType vs fs
        → HasType (Val.struct fs vs) (Typ.struct fs)
    nil_ptr : (t : Typ) → HasType (Val.nil_ptr t) (Typ.ptr t)
    ptr : {t : Typ} {v : Val} → HasType v t → HasType (Val.ptr v) (Typ.ptr t)

  pub data AllHaveType : Vals → Typ → Type 0 where
    no_vals : {t : Typ} → AllHaveType nil t
    each :
        {t : Typ} {v : Val} {vs : Vals} → HasType v t → AllHaveType vs t → AllHaveType (cons v vs) t

  pub data FieldsHaveType : Vals → Fields → Type 0 where
    no_fields : FieldsHaveType nil Fields.end
    keep :
        {name : Text} {size max : Option Text} {t : Typ} {fs : Fields} {v : Val} {vs : Vals}
        → is_unexported name ≡ false
        → HasType v t
        → FieldsHaveType vs fs
        → FieldsHaveType (cons v vs) (Fields.field name size max t fs)

HasType-type_of : {v : Val} {t : Typ} → HasType v t → type_of v ≡ ok t
unfolding type_of
HasType-type_of (HasType.boolean b) = refl
HasType-type_of (HasType.number k n c) = refl
HasType-type_of (HasType.string s) = refl
HasType-type_of (HasType.nil_slice t) = refl
HasType-type_of (HasType.slice h) = refl
HasType-type_of (HasType.array c h) = rw c refl
HasType-type_of (HasType.struct h) = refl
HasType-type_of (HasType.nil_ptr t) = refl
HasType-type_of (HasType.ptr h) = rw (HasType-type_of h) refl

at_same_type-HasType :
    {v w : Val} {t : Typ} (r : Result Bool) → HasType v t → HasType w t → at_same_type v w r ≡ r
unfolding at_same_type
at_same_type-HasType {t = t} r h k =
    rw (HasType-type_of h, HasType-type_of k, same_type_refl t) refl

-- The comparison ends, and finds whether the values agree.
abbrev pub Finds {ℓ} : {A : Type ℓ} → Result Bool → A → A → Type ℓ
Finds r a b = (same : Bool) × (r ≡ ok same) × ((same ≡ true) ↔ (a ≡ b))

same_text-lem : (a b : Text) → (same_text a b ≡ true) ↔ (a ≡ b)
unfolding same_text
same_text-lem [] [] = (λ e. refl, λ e. refl)
same_text-lem [] (d ∷ b) = (λ e. cc, λ e. cc)
same_text-lem (c ∷ a) [] = (λ e. cc, λ e. cc)
same_text-lem (c ∷ a) (d ∷ b) =
    let (to, from) = same_text-lem a b in
    elim (Bool-cases (c == d)) [
      | inl z ↦
          let p : c ≡ d = ground (arith, z) in
          (λ e. let q = to (rw z at e) in cc, λ e. let q : a ≡ b = cc in rw z (from q))
      | inr z ↦
          (λ e. let q = rw z at e in cc, λ e. let q : c ≡ d = cc in absurd (ground (arith, z, q)))
    ]

at_type :
    {v w : Val} {t : Typ} {r : Result Bool} {a b : Val}
    → HasType v t
    → HasType w t
    → Finds r a b
    → Finds (at_same_type v w r) a b
at_type {r = r} h k m = rw (at_same_type-HasType r h k) m

-- A comparison that decides for larger values
lifted {ℓ κ} :
    {A : Type ℓ} {B : Type κ} {r : Result Bool} {a b : A} {c d : B}
    → (a ≡ b → c ≡ d)
    → (c ≡ d → a ≡ b)
    → Finds r a b
    → Finds r c d
lifted f g (same, e, (to, from)) = (same, e, (λ p. f (to p), λ q. from (g q)))

both :
    {r rest : Result Bool} {a b : Val} {vs ws : Vals}
    → Finds r a b
    → Finds rest vs ws
    → Finds (r >>= λ same. if same then rest else ok false) (cons a vs) (cons b ws)
both (true, e, (to, from)) (same, d, (to', from')) =
    let p = to refl in (same, rw (e, d) refl, (λ q. let u = to' q in cc, λ q. from' cc))
both (false, e, (to, from)) found = (false, rw e refl, (λ q. cc, λ q. from cc))

decided {ℓ} :
    {A : Type ℓ} {a b : A} (same : Bool)
    → (same ≡ true → a ≡ b)
    → (a ≡ b → same ≡ true)
    → Finds (ok same) a b
decided same to from = (same, refl, (to, from))

same_bool-lem : (a b : Bool) → (same_bool a b ≡ true → a ≡ b) × (a ≡ b → same_bool a b ≡ true)
same_bool-lem true b = (λ e. cc, λ e. cc)
same_bool-lem false true = (λ e. cc, λ e. cc)
same_bool-lem false false = (λ e. refl, λ e. refl)

empty_vals : (vs : Vals) → (count_vals vs == 0) ≡ true → nil ≡ canon_all vs
unfolding canon
empty_vals nil e = refl
empty_vals (cons v vs) e = absurd (ground (arith, e))

vals_empty : (vs : Vals) → nil ≡ canon_all vs → (count_vals vs == 0) ≡ true
unfolding canon
vals_empty nil e = refl
vals_empty (cons v vs) e = cc

count_vals-canon_all : (vs : Vals) → count_vals (canon_all vs) ≡ count_vals vs
unfolding canon
count_vals-canon_all nil = refl
count_vals-canon_all (cons v vs) = ap suc (count_vals-canon_all vs)

abbrev count_of : Vals → ℕ
count_of vs = count_vals vs

-- Two slices of one length or not
sized :
    {r : Result Bool} (vs ws : Vals)
    → (count_vals vs ≡ count_vals ws → Finds r (canon_all vs) (canon_all ws))
    → Finds (if count_vals vs == count_vals ws then r else ok false) (canon_all vs) (canon_all ws)
sized vs ws found = elim (Bool-cases (count_vals vs == count_vals ws)) [
  | inl z ↦ rw z (found (ground (arith, z)))
  | inr z ↦
      let c = count_vals-canon_all vs in
      let d = count_vals-canon_all ws in
      rw z (
        decided false (λ e. cc) (λ e. let q = ap count_of e in absurd (ground (arith, z, c, d, q))))
]

mutual
  unfolding deep_value_equal canon interface_of

  pub deep_value_equal-canon :
      {v w : Val} {t : Typ}
      → HasType v t
      → HasType w t
      → Finds (deep_value_equal false v w) (canon v) (canon w)
  deep_value_equal-canon (HasType.boolean a) (HasType.boolean b) =
      let (to, from) = same_bool-lem a b in
      at_type (HasType.boolean a) (HasType.boolean b)
        (decided (same_bool a b) (λ e. ap Val.bool (to e)) (λ e. from cc))
  deep_value_equal-canon (HasType.boolean a) (HasType.number _ m d) = cc
  deep_value_equal-canon (HasType.number _ n c) (HasType.boolean b) = cc
  deep_value_equal-canon (HasType.number k n c) (HasType.number _ m d) =
      at_type (HasType.number k n c) (HasType.number k m d) (
        rw c (
          decided (n == m) (λ e. ap (λ (i : ℕ). Val.num k i) (ground (arith, e)))
            (λ e. let q : n ≡ m = cc in ground (arith, q))))
  deep_value_equal-canon (HasType.string a) (HasType.string b) =
      let (to, from) = same_text-lem a b in
      at_type (HasType.string a) (HasType.string b)
        (decided (same_text a b) (λ e. ap Val.str (to e)) (λ e. from cc))
  deep_value_equal-canon (HasType.nil_slice t) (HasType.nil_slice _) =
      at_type (HasType.nil_slice t) (HasType.nil_slice t) (decided true (λ e. refl) (λ e. refl))
  deep_value_equal-canon (HasType.nil_slice t) (HasType.slice {vs = ws} k) =
      at_type (HasType.nil_slice t) (HasType.slice k) (
        decided (count_vals ws == 0) (λ e. ap (Val.slice t) (empty_vals ws e))
          (λ e. vals_empty ws cc))
  deep_value_equal-canon (HasType.slice {vs = vs} h) (HasType.nil_slice t) =
      at_type (HasType.slice h) (HasType.nil_slice t) (
        decided (count_vals vs == 0) (λ e. ap (Val.slice t) (sym (empty_vals vs e)))
          (λ e. vals_empty vs cc))
  deep_value_equal-canon (HasType.slice {t = t} {vs = vs} h) (HasType.slice {vs = ws} k) =
      at_type (HasType.slice h) (HasType.slice k) (
        lifted (λ e. ap (Val.slice t) e) (λ e. cc)
          (sized vs ws (λ c. deep_values_equal-canon_all h k c)))
  deep_value_equal-canon (HasType.array {t = t} {vs = vs} c h) (HasType.array {vs = ws} d k) =
      at_type (HasType.array c h) (HasType.array d k)
        (lifted (λ e. ap (Val.array t) e) (λ e. cc) (deep_values_equal-canon_all h k (c ∙ sym d)))
  deep_value_equal-canon (HasType.struct {fs = fs} h) (HasType.struct k) =
      at_type (HasType.struct h) (HasType.struct k)
        (lifted (λ e. ap (Val.struct fs) e) (λ e. cc) (fields_equal-canon_all h k))
  deep_value_equal-canon (HasType.nil_ptr t) (HasType.nil_ptr _) =
      at_type (HasType.nil_ptr t) (HasType.nil_ptr t) (decided true (λ e. refl) (λ e. refl))
  deep_value_equal-canon (HasType.nil_ptr t) (HasType.ptr k) =
      at_type (HasType.nil_ptr t) (HasType.ptr k) (decided false (λ e. cc) (λ e. cc))
  deep_value_equal-canon (HasType.ptr h) (HasType.nil_ptr t) =
      at_type (HasType.ptr h) (HasType.nil_ptr t) (decided false (λ e. cc) (λ e. cc))
  deep_value_equal-canon (HasType.ptr h) (HasType.ptr k) =
      at_type (HasType.ptr h) (HasType.ptr k)
        (lifted (λ e. ap Val.ptr e) (λ e. cc) (deep_value_equal-canon h k))

  deep_values_equal-canon_all :
      {vs ws : Vals} {t : Typ}
      → AllHaveType vs t
      → AllHaveType ws t
      → count_vals vs ≡ count_vals ws
      → Finds (deep_values_equal false vs ws) (canon_all vs) (canon_all ws)
  deep_values_equal-canon_all AllHaveType.no_vals AllHaveType.no_vals c =
      decided true (λ e. refl) (λ e. refl)
  deep_values_equal-canon_all AllHaveType.no_vals (AllHaveType.each k ks) c =
      absurd (omega (arith, c))
  deep_values_equal-canon_all (AllHaveType.each h hs) AllHaveType.no_vals c =
      absurd (omega (arith, c))
  deep_values_equal-canon_all (AllHaveType.each h hs) (AllHaveType.each k ks) c =
      both (deep_value_equal-canon h k) (deep_values_equal-canon_all hs ks (omega (arith, c)))

  fields_equal-canon_all :
      {vs ws : Vals} {fs : Fields}
      → FieldsHaveType vs fs
      → FieldsHaveType ws fs
      → Finds (deep_fields_equal false fs vs ws) (canon_all vs) (canon_all ws)
  fields_equal-canon_all FieldsHaveType.no_fields FieldsHaveType.no_fields =
      decided true (λ e. refl) (λ e. refl)
  fields_equal-canon_all (FieldsHaveType.keep p h hs) (FieldsHaveType.keep q k ks) =
      rw p (both (deep_value_equal-canon h k) (fields_equal-canon_all hs ks))

-- For two values of one type, all of whose parts are of kinds that are compared and all of whose fields are
-- exported, the exported DeepEqual returns, and returns true exactly when the values are the same once every nil slice in
-- them is replaced by an empty slice.
pub deep_equal-canon :
    {v w : Val} {t : Typ}
    → HasType v t
    → HasType w t
    → (same : Bool) × (deep_equal (some v) (some w) ≡ ok same)
      × ((same ≡ true) ↔ (canon v ≡ canon w))
unfolding deep_equal
deep_equal-canon h k = at_type h k (deep_value_equal-canon h k)
