-- ===== src/Marshal/Sequences.antt =====
-- The Marshal of slices and arrays, given what the Marshal of each item writes.
use go_ssz.Prelude.{ℕ, zero, suc, ◌*◌, ◌≤◌, ◌≡◌, refl, ap, sym, arith, subst}
use go_ssz.Prelude.{ok, Bool, true, false, Bool-cases, inl, inr}
use go_ssz.Prelude.{if◌then◌else◌}
use mathlib.Core.Path.{subst₂}
use go_ssz.Buffer.{Buf}
use go_ssz.Buffer.Writes.{Writes}
use go_ssz.Reflect.{Scalar, Typ, Val, Vals, kind, items}
use go_ssz.Size.{is_variable_size_type, is_basic_type, is_basic_type_array, is_root, is_uint8}
use go_ssz.Marshal.{
  Written, marshal_with, marshal_items, marshal_basic, marshal_root, marshal_in_order,
}
use go_ssz.Marshal.Loops.{
  EachWrites, join-concat, Writes-nothing, marshal_in_order-Writes, marshal_offsets-Writes,
}
use go_ssz.Marshal.Bytes.{marshal_root-Writes}
use go_ssz.Ssz.{Schema, Item, Items, is_variable, serialize, parts_of, depth}
use go_ssz.Ssz.Parts.{join}
use go_ssz.Represents.{TypeRep, ValRep, ValsRep, byte_typ, byte_schema}
use go_ssz.Represents.Variable.{is_variable_size_type-is_variable, basic-fixed}
use go_ssz.Represents.Factory.{slice_choice, array_choice, choice, ssz_factory-choice}

-- What the calls for the items are known to write.
abbrev pub ItemWrites : ℕ → Typ → Schema → Vals → Items → Type 0
ItemWrites f t s vs xs = EachWrites (λ w. marshal_with f (choice t s) w t) s vs xs

flag_lem :
    (f : ℕ) (c : Bool) {t : Typ} {s : Schema}
    → TypeRep t s
    → 4 * depth s ≤ f
    → (c ≡ false → is_variable s ≡ false)
    → (if c then is_variable_size_type f t else ok false) ≡ ok (is_variable s)
flag_lem f true r h k = is_variable_size_type-is_variable r f h
flag_lem f false r h k = ap ok (sym (k refl))

in_order_join :
    (self : Val → Buf → ℕ → Written) {s : Schema} {vs : Vals} {xs : Items}
    → is_variable s ≡ false
    → EachWrites self s vs xs
    → Writes (marshal_in_order self vs) (join (parts_of s xs))
in_order_join self {s} {vs} {xs} h ws = rw (join-concat s xs h) (marshal_in_order-Writes self ws)

-- With or without offsets, as the items need them.
marshal_items-Writes :
    (f : ℕ) (c : Bool) (v : Val) {vs : Vals} {t : Typ} {s : Schema} {xs : Items}
    → items v ≡ ok vs
    → TypeRep t s
    → ValsRep vs t s xs
    → ItemWrites f t s vs xs
    → 4 * depth s ≤ f
    → (c ≡ false → is_variable s ≡ false)
    → Writes (marshal_items f (marshal_with f) c v t) (join (parts_of s xs))
unfolding marshal_items
marshal_items-Writes f c v e q ValsRep.no_vals ws h k =
    rw e (unfold join serialize in Writes-nothing)
marshal_items-Writes f c v {t = t} {s = s} e q (ValsRep.each r rs) ws h k =
    elim (Bool-cases (is_variable s)) [
      | inl b ↦
          rw (e, ssz_factory-choice r f (omega arith), flag_lem f c q h k, b)
            (marshal_offsets-Writes (λ w. marshal_with f (choice t s) w t) b ws)
      | inr b ↦
          rw (e, ssz_factory-choice r f (omega arith), flag_lem f c q h k, b)
            (in_order_join (λ w. marshal_with f (choice t s) w t) b ws)
    ]

pub slice-Writes :
    (f : ℕ) (v : Val) {vs : Vals} {t : Typ} {s : Schema} {xs : Items}
    → items v ≡ ok vs
    → TypeRep t s
    → ValsRep vs t s xs
    → ItemWrites f t s vs xs
    → 4 * depth s ≤ f
    → Writes
        (marshal_with (suc f) (choice (Typ.slice t) (Schema.list s)) v (Typ.slice t))
        (serialize (Schema.list s) (Item.seq xs))
unfolding marshal_with choice slice_choice serialize
slice-Writes f v {t = t} {s = s} e q rs ws h = elim (Bool-cases (is_basic_type (kind t))) [
  | inl p ↦ rw p (marshal_items-Writes f false v e q rs ws h (λ z. basic-fixed q p))
  | inr p ↦ elim (Bool-cases (is_variable s)) [
    | inl b ↦ rw (p, b) (marshal_items-Writes f true v e q rs ws h (λ z. cc))
    | inr b ↦ rw (p, b) (marshal_items-Writes f false v e q rs ws h (λ z. b))
  ]
]

basic_each :
    (f : ℕ) {t : Typ} {s : Schema} {vs : Vals} {xs : Items}
    → TypeRep t s
    → is_basic_type (kind t) ≡ true
    → 1 ≤ f
    → ItemWrites f t s vs xs
    → EachWrites (λ w. marshal_basic w t) s vs xs
unfolding marshal_with choice is_basic_type kind
basic_each zero q p l ws = absurd (omega arith)
basic_each (suc f) TypeRep.boolean p l ws = ws
basic_each (suc f) (TypeRep.uint e) p l ws = ws
basic_each (suc f) _ p l ws = cc

-- Items that are arrays of 32 bytes.
pub root_inversion :
    {t : Typ} {s : Schema}
    → TypeRep t s
    → is_root t ≡ true
    → (t ≡ Typ.array 32 byte_typ) × (s ≡ Schema.vector 32 byte_schema)
root_inversion (TypeRep.array {n = n} (TypeRep.uint {k = Scalar.uint8} {w = w} e)) h =
    (ground arith, ground arith)
root_inversion _ h = cc

root_item :
    {v : Val} {x : Item}
    → ValRep v (Typ.array 32 byte_typ) (Schema.vector 32 byte_schema) x
    → Writes (marshal_root v) (serialize (Schema.vector 32 byte_schema) x)
unfolding serialize
root_item (ValRep.array {xs = xs} e c u r o rs) = cc
root_item (ValRep.byte_array {xs = xs} c r) =
    rw (join-concat byte_schema xs refl) (marshal_root-Writes (ValRep.byte_array c r))
root_item (ValRep.byte_slice {xs = xs} c r) =
    rw (join-concat byte_schema xs refl) (marshal_root-Writes (ValRep.byte_slice c r))
root_item (ValRep.nil_bytes {xs = xs} e) =
    rw (join-concat byte_schema xs refl) (marshal_root-Writes (ValRep.nil_bytes e))

roots_each :
    {t : Typ} {s : Schema} {vs : Vals} {xs : Items}
    → t ≡ Typ.array 32 byte_typ
    → s ≡ Schema.vector 32 byte_schema
    → ValsRep vs t s xs
    → EachWrites marshal_root s vs xs
roots_each d e ValsRep.no_vals = EachWrites.none_left
roots_each d e (ValsRep.each {v = v} {x = x} r rs) =
    EachWrites.each
      (subst (λ s. Writes (marshal_root v) (serialize s x)) (sym e)
        (root_item (subst₂ (λ t s. ValRep v t s x) d e r)))
      (roots_each d e rs)

-- An array of numbers has a fixed size.
pub not_basic_array :
    {t : Typ} {s : Schema} → TypeRep t s → is_variable s ≡ true → is_basic_type_array t ≡ false
unfolding is_basic_type_array is_variable
not_basic_array (TypeRep.array {t = t} r) h = elim (Bool-cases (is_basic_type (kind t))) [
  | inl p ↦ cc (basic-fixed r p)
  | inr p ↦ p
]
not_basic_array _ h = refl

pub array-Writes :
    (f n : ℕ) (v : Val) {vs : Vals} {t : Typ} {s : Schema} {xs : Items}
    → items v ≡ ok vs
    → is_uint8 t ≡ false
    → TypeRep t s
    → ValsRep vs t s xs
    → ItemWrites f t s vs xs
    → 4 * depth s ≤ f
    → 1 ≤ f
    → Writes
        (marshal_with (suc f) (choice (Typ.array n t) (Schema.vector n s)) v (Typ.array n t))
        (serialize (Schema.vector n s) (Item.seq xs))
unfolding marshal_with choice array_choice serialize marshal_basic
array-Writes f n v {t = t} {s = s} e u q rs ws h l = elim (Bool-cases (is_basic_type (kind t))) [
  | inl p ↦
      rw (p, u, p, e)
        (in_order_join (λ w. marshal_basic w t) (basic-fixed q p) (basic_each f q p l ws))
  | inr p ↦ elim (Bool-cases (is_root t)) [
    | inl o ↦
        let (d, d') = root_inversion q o in
        rw (p, o, e)
          (in_order_join marshal_root (rw d' (unfold is_variable in refl)) (roots_each d d' rs))
    | inr o ↦ elim (Bool-cases (is_variable s)) [
      | inl b ↦
          rw (p, o, not_basic_array q b, b) (marshal_items-Writes f true v e q rs ws h (λ z. cc))
      | inr b ↦ elim (Bool-cases (is_basic_type_array t)) [
        | inl a ↦ rw (p, o, a) (marshal_items-Writes f false v e q rs ws h (λ z. b))
        | inr a ↦ rw (p, o, a, b) (marshal_items-Writes f false v e q rs ws h (λ z. b))
      ]
    ]
  ]
]
