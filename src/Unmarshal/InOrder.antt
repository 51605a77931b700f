-- ===== src/Unmarshal/InOrder.antt =====
-- The Unmarshal of items of fixed size, one behind the other: arrays.
use go_ssz.Prelude.{ℕ, suc, ◌+◌, ◌*◌, ◌^◌, ◌≤◌, ◌<◌, ◌≡◌, refl, ap, sym, ◌∙◌, arith, true, false}
use go_ssz.Prelude.{[], ◌++◌, append_assoc, length, ok, leb, Bool-cases, inl, inr}
use go_ssz.Buffer.{Buf}
use go_ssz.Buffer.Writes.{lengths}
use go_ssz.Reflect.{
  Scalar, Typ, Val, Vals, nil, cons, zero_value, repeat_val, elem_type, kind, type_of,
}
use go_ssz.Size.{is_basic_type, is_basic_type_array, is_root}
use go_ssz.Factory.{ssz_factory}
use go_ssz.Input.{Input}
use go_ssz.Grow.{is_ptr}
use go_ssz.Decode.{
  unmarshal_array_item, unmarshal_in_order, unmarshal_basic_array, unmarshal_basic, unmarshal_kind,
}
use go_ssz.Unmarshal.{unmarshal_with}
use go_ssz.Marshal.Loops.{concat, join-concat}
use go_ssz.Ssz.{Schema, Item, Items, is_variable, serialize, depth, count_items, parts_of}
use go_ssz.Ssz.Parts.{join}
use go_ssz.Represents.{TypeRep}
use go_ssz.Represents.Factory.{choice, array_choice}
use go_ssz.Unmarshal.Targets.{target, IsFresh, ssz_factory-fresh, instantiate_ptr}
use go_ssz.Unmarshal.Reads.{input_of}
use go_ssz.Unmarshal.Decodes.{Reads}

abbrev length_bytes : Buf → ℕ
length_bytes bs = length bs

-- A read of an item, wherever its bytes stand in the input.
pub read_at :
    (f : ℕ) (v : Val) (t : Typ) (s : Schema) (x : Item)
    → Reads f v t s x
    → (pre post bytes : Buf) (len start : ℕ) → bytes ≡ pre ++ (serialize s x ++ post)
    → start ≡ length pre
    → length pre + length (serialize s x) ≤ len
    → (is_variable s ≡ true → (pre ≡ []) × (len ≡ length (serialize s x)))
    → length bytes < 2 ^ 64
    → length (serialize s x) < 2 ^ 32
    → (index : ℕ) × (unmarshal_with f (choice t s) (target t) t (input_of bytes len) start
        ≡ ok (v, index))
      × (is_variable s ≡ false → index ≡ length pre + length (serialize s x))
read_at f v t s x r pre post bytes len start e h l k b c =
    let (index, p, q) = r pre post len l k (rw (← e) b) c in (index, rw (e, h) p, q)

pub data AllRead (f : ℕ) (t : Typ) (s : Schema) : Vals → Items → Type 0 where
  none_left : AllRead f t s nil Items.nil
  each :
      {v : Val} {vs : Vals} {x : Item} {xs : Items}
      → Reads f v t s x
      → AllRead f t s vs xs
      → AllRead f t s (cons v vs) (Items.cons x xs)

pub zero_scalar : (k : Scalar) → is_ptr (zero_value (Typ.scalar k)) ≡ false
unfolding zero_value
zero_scalar Scalar.bool = refl
zero_scalar _ = refl

-- The item of an array, which is a zero value, gets its target.
array_item_lem :
    (f : ℕ) {t : Typ} {s : Schema} (input : Input) (index : ℕ)
    → TypeRep t s
    → 4 * depth s ≤ f + 4
    → unmarshal_array_item f (unmarshal_with f) (zero_value t) t input index
      ≡ unmarshal_with f (choice t s) (target t) t input index
unfolding unmarshal_array_item choice zero_value elem_type
array_item_lem f input index (TypeRep.ptr {fs = fs} r) h =
    rw (instantiate_ptr (Val.nil_ptr (Typ.struct fs)) (Typ.struct fs) (unfold type_of in refl))
      (unfold ssz_factory in refl)
array_item_lem f input index TypeRep.boolean h =
    rw (ssz_factory-fresh (IsFresh.untouched (Typ.scalar Scalar.bool)) TypeRep.boolean f h) refl
array_item_lem f input index (TypeRep.uint {k = k} e) h =
    rw (zero_scalar k, ssz_factory-fresh (IsFresh.untouched (Typ.scalar k)) (TypeRep.uint e) f h)
      refl
array_item_lem f input index TypeRep.string h =
    rw (ssz_factory-fresh (IsFresh.untouched Typ.string) TypeRep.string f h) refl
array_item_lem f input index (TypeRep.slice {t = t} r) h =
    rw (ssz_factory-fresh (IsFresh.untouched (Typ.slice t)) (TypeRep.slice r) f h) refl
array_item_lem f input index (TypeRep.array {n = n} {t = t} r) h =
    rw (ssz_factory-fresh (IsFresh.untouched (Typ.array n t)) (TypeRep.array r) f h) refl
array_item_lem f input index (TypeRep.struct {fs = fs} r) h =
    rw (ssz_factory-fresh (IsFresh.untouched (Typ.struct fs)) (TypeRep.struct r) f h) refl

pub in_order_lem :
    (f : ℕ) {t : Typ} {s : Schema} {vs : Vals} {xs : Items}
    → TypeRep t s
    → 4 * depth s ≤ f + 4
    → is_variable s ≡ false
    → AllRead f t s vs xs
    → (pre post bytes : Buf) (len start : ℕ) → bytes ≡ pre ++ (concat s xs ++ post)
    → start ≡ length pre
    → length pre + length (concat s xs) ≤ len
    → length bytes < 2 ^ 64
    → length (concat s xs) < 2 ^ 32
    → unmarshal_in_order
        (λ v. unmarshal_array_item f (unmarshal_with f) v t)
        (repeat_val (count_items xs) (zero_value t))
        (input_of bytes len)
        start
      ≡ ok (vs, length pre + length (concat s xs))
unfolding unmarshal_in_order
in_order_lem f r h z AllRead.none_left pre post bytes len start e i l b c =
    ap (λ (n : ℕ). ok (nil, n)) (omega (arith, i))
in_order_lem f {t} {s} r h z (AllRead.each {v = v} {vs = vs} {x = x} {xs = xs} d ds) pre post bytes
      len start e i l b c =
    let bs = serialize s x in
    let tail = concat s xs in
    let m : bytes ≡ pre ++ (bs ++ (tail ++ post)) =
      e ∙ ap (λ (u : Buf). pre ++ u) (append_assoc bs tail post) in
    let (index, p, q) =
      read_at f v t s x d pre (tail ++ post) bytes len start m i (omega (lengths, l)) (λ y. cc) b
        (omega (lengths, c)) in
    let j : index ≡ length (pre ++ bs) = omega (lengths, q z) in
    let n : bytes ≡ (pre ++ bs) ++ (tail ++ post) = m ∙ sym (append_assoc pre bs (tail ++ post)) in
    let rest =
      in_order_lem f r h z ds (pre ++ bs) post bytes len index n j (omega (lengths, l)) b
        (omega (lengths, c)) in
    let k : length (pre ++ bs) + length tail ≡ length pre + length (bs ++ tail) = omega lengths in
    rw (array_item_lem f (input_of bytes len) start r h, p, rest, k) refl

basic_array_lem :
    (f : ℕ) {t : Typ} {s : Schema} {vs : Vals} {xs : Items} (n : ℕ)
    → TypeRep t s
    → 4 * depth s ≤ f + 4
    → is_variable s ≡ false
    → count_items xs ≡ n
    → AllRead f t s vs xs
    → (pre post : Buf) (len : ℕ) → length pre + length (concat s xs) ≤ len
    → length (pre ++ (concat s xs ++ post)) < 2 ^ 64
    → length (concat s xs) < 2 ^ 32
    → unmarshal_basic_array f
        (unmarshal_with f)
        (zero_value (Typ.array n t))
        (Typ.array n t)
        (input_of (pre ++ (concat s xs ++ post)) len)
        (length pre)
      ≡ ok (Val.array t vs, length pre + length (concat s xs))
unfolding unmarshal_basic_array zero_value elem_type
basic_array_lem f {t} {s} {vs} {xs} n r h z q a pre post len l b c =
    rw
      (
        ← q,
        in_order_lem f r h z a pre post (pre ++ (concat s xs ++ post)) len (length pre) refl refl l
            b c,
      )
      refl

-- basicSSZ for numbers, basicArraySSZ for other items.
array_choice_lem :
    (f n : ℕ) (t : Typ) (input : Input) (start : ℕ)
    → is_root t ≡ false
    → leb input.len start ≡ false
    → unmarshal_with
        (suc f)
        (array_choice t false)
        (zero_value (Typ.array n t))
        (Typ.array n t)
        input
        start
      ≡ unmarshal_basic_array f
          (unmarshal_with f)
          (zero_value (Typ.array n t))
          (Typ.array n t)
          input
          start
unfolding unmarshal_with array_choice unmarshal_basic unmarshal_kind
array_choice_lem f n t input start o l = elim (Bool-cases (is_basic_type (kind t))) [
  | inl p ↦ rw (p, l, p) refl
  | inr p ↦ elim (Bool-cases (is_basic_type_array t)) [
    | inl a ↦ rw (p, o, a) refl
    | inr a ↦ rw (p, o, a) refl
  ]
]

pub fixed_array-Reads :
    (f : ℕ) {t : Typ} {s : Schema} {vs : Vals} {xs : Items} (n : ℕ)
    → TypeRep t s
    → 4 * depth s ≤ f + 4
    → is_variable s ≡ false
    → is_root t ≡ false
    → count_items xs ≡ n
    → 0 < length (serialize (Schema.vector n s) (Item.seq xs))
    → AllRead f t s vs xs
    → Reads (suc f) (Val.array t vs) (Typ.array n t) (Schema.vector n s) (Item.seq xs)
unfolding choice serialize is_variable
fixed_array-Reads f {t} {s} {vs} {xs} n r h z o q y a pre post len l k b c =
    let j = join-concat s xs z in
    let m : length (join (parts_of s xs)) ≡ length (concat s xs) = ap length_bytes j in
    let e : leb len (length pre) ≡ false = ground (arith, l, y) in
    let run =
      basic_array_lem f n r h z q a pre post len (omega (arith, l, m)) (rw (← j) b)
        (omega (arith, c, m)) in
    (
      length pre + length (concat s xs),
      rw
          (
            z,
            j,
            array_choice_lem f n t (input_of (pre ++ (concat s xs ++ post)) len) (length pre) o e,
          )
          run,
      λ w. omega (arith, m),
    )
