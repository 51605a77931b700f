-- ===== src/Unmarshal/Slices.antt =====
-- The Unmarshal of slices whose items have a fixed size.
use go_ssz.Prelude.{
  ℕ, zero, suc, ◌+◌, ◌-◌, ◌*◌, ◌/◌, ◌%◌, ◌^◌, ◌≤◌, ◌<◌, ◌≡◌, refl, ap, sym, ◌∙◌, arith,
}
use go_ssz.Prelude.{false, ◌==◌}
use go_ssz.Prelude.{[], ◌∷◌, ◌++◌, append_assoc, length, Bool-cases, inl, inr, ok, ◌>>=◌}
use native.Mathlib.Nat.{le-div_iff_mul-le, div-lt_iff_lt-mul}
use go_ssz.Buffer.{Buf}
use go_ssz.Buffer.Writes.{lengths, length-append_bytes}
use go_ssz.Reflect.{Typ, Val, Vals, nil, cons, zero_value, elem_type, type_of, count_vals, kind}
use go_ssz.Equal.{same_type_refl}
use go_ssz.Input.{Input}
use go_ssz.Grow.{index_of, grow_slice}
use go_ssz.Decode.{Decoded, Decoder}
use go_ssz.DecodeSlices.{
  emptied, make_room, unmarshal_index, unmarshal_rest, unmarshal_behind, unmarshal_filled,
  unmarshal_basic_slice,
}
use go_ssz.Unmarshal.{unmarshal_with}
use go_ssz.Marshal.Loops.{concat, join-concat}
use go_ssz.Ssz.{Schema, Item, Items, is_variable, serialize, depth, count_items}
use go_ssz.Represents.{TypeRep}
use go_ssz.Represents.Factory.{choice, slice_choice}
use go_ssz.Size.{is_basic_type}
use go_ssz.Unmarshal.Targets.{target, IsFresh-target, ssz_factory-fresh, assign_same}
use go_ssz.Unmarshal.Rooms.{
  append_vals, append_vals_assoc, append_vals-nil, count_vals-append_vals, index_of-append_vals,
  set_index-append_vals, grow_slice-append_vals, grow_slice-first,
}
use go_ssz.Unmarshal.Reads.{input_of}
use go_ssz.Unmarshal.Decodes.{Reads}
use go_ssz.Unmarshal.InOrder.{AllRead, read_at}

-- Every item takes `m` bytes.
pub data AllSized (s : Schema) (m : ℕ) : Items → Type 0 where
  none_left : AllSized s m Items.nil
  each :
      {x : Item} {xs : Items}
      → length (serialize s x) ≡ m
      → AllSized s m xs
      → AllSized s m (Items.cons x xs)

length-concat :
    {s : Schema} {m : ℕ} {xs : Items} → AllSized s m xs → length (concat s xs) ≡ count_items xs * m
length-concat AllSized.none_left = omega arith
length-concat {s} {m} (AllSized.each {x = x} {xs = xs} q a) =
    let w = length-append_bytes (serialize s x) (concat s xs) in
    let n = length-concat a in grind (arith, w, n, q)

-- The item behind `done` is read in its place.
pub unmarshal_index-slice :
    (self : Decoder) (u t : Typ) (done : Vals) (w : Val) (ws : Vals) (input : Input) (start : ℕ)
    {v : Val} {index : ℕ}
    → self w t input start ≡ ok (v, index)
    → unmarshal_index self
        (Val.slice u (append_vals done (cons w ws)))
        (count_vals done)
        t
        input
        start
      ≡ ok (Val.slice u (append_vals done (cons v ws)), index)
unfolding unmarshal_index
unmarshal_index-slice self u t done w ws input start {v} e =
    rw (index_of-append_vals done w ws, e, set_index-append_vals done w v ws) refl

grow_rest :
    (t : Typ) (done : Vals)
    → (type_of (Val.slice t done) >>= λ u. grow_slice (Val.slice t done) u (count_vals done + 1))
      ≡ ok (Val.slice t (append_vals done (cons (target t) nil)))
unfolding type_of
grow_rest t done =
    let e : count_vals done + 1 ≡ suc (count_vals done) = omega arith in
    rw e (grow_slice-append_vals t done)

rest_lem :
    (f : ℕ) {t : Typ} {s : Schema} {vs : Vals} {xs : Items}
    → is_variable s ≡ false
    → AllRead f t s vs xs
    → (done : Vals) (pre post bytes : Buf) (len start i : ℕ) → i ≡ count_vals done
    → bytes ≡ pre ++ (concat s xs ++ post)
    → start ≡ length pre
    → length pre + length (concat s xs) ≤ len
    → length bytes < 2 ^ 64
    → length (concat s xs) < 2 ^ 32
    → unmarshal_rest
        (count_items xs)
        false
        (unmarshal_with f (choice t s))
        (Val.slice t done)
        i
        t
        (input_of bytes len)
        start
      ≡ ok (Val.slice t (append_vals done vs), start + length (concat s xs))
unfolding unmarshal_rest
rest_lem f {t} z AllRead.none_left done pre post bytes len start i k e h l b c =
    let n : start + 0 ≡ start = omega arith in rw (append_vals-nil done, n) refl
rest_lem f {t} {s} z (AllRead.each {v = v} {vs = vs} {x = x} {xs = xs} d ds) done pre post bytes len
      start i k e h l b c =
    let bs = serialize s x in
    let tail = concat s xs in
    let m : bytes ≡ pre ++ (bs ++ (tail ++ post)) =
      e ∙ ap (λ (u : Buf). pre ++ u) (append_assoc bs tail post) in
    let (index, p, q) =
      read_at f v t s x d pre (tail ++ post) bytes len start m h (omega (lengths, l)) (λ y. cc) b
        (omega (lengths, c)) in
    let j : index ≡ length (pre ++ bs) = omega (lengths, q z) in
    let n : bytes ≡ (pre ++ bs) ++ (tail ++ post) = m ∙ sym (append_assoc pre bs (tail ++ post)) in
    let done' = append_vals done (cons v nil) in
    let rest =
      rest_lem f z ds done' (pre ++ bs) post bytes len index (i + 1)
        (omega (arith, k, count_vals-append_vals done (cons v nil))) n j (omega (lengths, l)) b
        (omega (lengths, c)) in
    let a : index + length tail ≡ start + length (bs ++ tail) = omega (lengths, j, h) in
    rw
      (
        k,
        grow_rest t done,
        unmarshal_index-slice (unmarshal_with f (choice t s)) t t done (target t) nil
            (input_of bytes len) start p,
        ← k,
        rest,
        append_vals_assoc done (cons v nil) vs,
        a,
      )
      refl

mul-div : (c k : ℕ) → 0 < k → c * k / k ≡ c
mul-div c k h =
    let a = (le-div_iff_mul-le {k = k} {x = c} {y = c * k} h).1 (omega arith) in
    let b = (div-lt_iff_lt-mul {k = k} {x = c * k} {y = suc c} h).1 (grind (arith, h)) in
    omega (arith, a, b)

-- The items behind the first.
behind_lem :
    (self : Decoder) (t : Typ) (m c : ℕ) (done : Vals) (bytes : Buf) (len index : ℕ) {r : Decoded}
    → 0 < m
    → len ≡ suc c * m
    → unmarshal_rest c false self (Val.slice t done) 1 t (input_of bytes len) index ≡ r
    → unmarshal_behind false self (Val.slice t done) t (input_of bytes len) m index ≡ r
unfolding unmarshal_behind
behind_lem self t zero c done bytes len index p e h = absurd (omega arith)
behind_lem self t (suc m) c done bytes len index p e h =
    let d = mul-div (suc c) (suc m) (omega arith) in
    let n : suc c - 1 ≡ c = omega arith in rw (e, d, n, ← e) h

filled_lem :
    (f m : ℕ) {t : Typ} {s : Schema} {v : Val} {vs : Vals} (x : Item) {xs : Items}
    → TypeRep t s
    → 4 * depth s ≤ f + 4
    → is_variable s ≡ false
    → Reads f v t s x
    → AllRead f t s vs xs
    → length (serialize s x) ≡ m
    → 0 < m
    → (post bytes : Buf) (len : ℕ) → len ≡ suc (count_items xs) * m
    → bytes ≡ serialize s x ++ (concat s xs ++ post)
    → length (serialize s x) + length (concat s xs) ≤ len
    → length bytes < 2 ^ 64
    → length (serialize s x) + length (concat s xs) < 2 ^ 32
    → unmarshal_filled f (unmarshal_with f) false (Val.nil_slice t) t (input_of bytes len) 0
      ≡ ok (Val.slice t (cons v vs), length (serialize s x) + length (concat s xs))
unfolding unmarshal_filled make_room type_of index_of
filled_lem f m {t} {s} {v} {vs} x {xs} r h z d ds q p post bytes len n e l b c =
    let (index, g, i) =
      read_at f v t s x d [] (concat s xs ++ post) bytes len 0 e refl (omega (arith, l)) (λ y. cc) b
        (omega (arith, c)) in
    let k : index ≡ length (serialize s x) = omega (arith, i z) in
    let w : (index + 2 ^ 64 - 0) % 2 ^ 64 ≡ m = omega (arith, k, q, c) in
    let rest =
      rest_lem f z ds (cons v nil) (serialize s x) post bytes len index 1 refl e k l b
        (omega (arith, c)) in
    rw
      (
        grow_slice-first t,
        ssz_factory-fresh (IsFresh-target t) r f h,
        unmarshal_index-slice (unmarshal_with f (choice t s)) t t nil (target t) nil
            (input_of bytes len) 0 g,
        w,
        ← k,
      )
      (behind_lem (unmarshal_with f (choice t s)) t m (count_items xs) (cons v nil) bytes len index
        p n rest)

pub empty_lem : (t : Typ) → emptied (Val.nil_slice t) ≡ ok (Val.slice t nil)
unfolding emptied elem_type
empty_lem t =
    assign_same (Val.nil_slice t) (Val.slice t nil) (Typ.slice t) (unfold type_of in refl)
      (unfold type_of in refl)

slice_choice_lem :
    (f : ℕ) (t : Typ) (val : Val) (input : Input) (start : ℕ)
    → unmarshal_with (suc f) (slice_choice t false) val (Typ.slice t) input start
      ≡ unmarshal_basic_slice f (unmarshal_with f) val (Typ.slice t) input start
unfolding unmarshal_with slice_choice
slice_choice_lem f t val input start = elim (Bool-cases (is_basic_type (kind t))) [
  | inl p ↦ rw p refl
  | inr p ↦ rw p refl
]

-- basicSliceSSZ, at an input that it has for itself.
basic_slice_lem :
    (f m : ℕ) {t : Typ} {s : Schema} {vs : Vals} {xs : Items}
    → TypeRep t s
    → 4 * depth s ≤ f + 4
    → is_variable s ≡ false
    → AllRead f t s vs xs
    → AllSized s m xs
    → 0 < m
    → (post bytes : Buf) (len : ℕ) → len ≡ length (concat s xs)
    → bytes ≡ concat s xs ++ post
    → length bytes < 2 ^ 64
    → length (concat s xs) < 2 ^ 32
    → unmarshal_basic_slice f
        (unmarshal_with f)
        (Val.nil_slice t)
        (Typ.slice t)
        (input_of bytes len)
        0
      ≡ ok (Val.slice t vs, length (concat s xs))
unfolding unmarshal_basic_slice type_of elem_type
basic_slice_lem f m {t} r h z AllRead.none_left a p post bytes len l e b c =
    rw (l, empty_lem t) refl
basic_slice_lem f m {t} {s} r h z (AllRead.each {v = v} {vs = vs} {x = x} {xs = xs} d ds)
      (AllSized.each q a) p post bytes len l e b c =
    let w = length-append_bytes (serialize s x) (concat s xs) in
    let n = length-concat a in
    let y : (len == 0) ≡ false = ground (arith, l, w, q, p) in
    let g : bytes ≡ serialize s x ++ (concat s xs ++ post) =
      e ∙ append_assoc (serialize s x) (concat s xs) post in
    rw (y, same_type_refl (Typ.slice t))
      (filled_lem f m x r h z d ds q p post bytes len (omega (arith, l, w, q, n)) g
          (omega (arith, l, w)) b (omega (arith, c, w))
        ∙ ap (λ (k : ℕ). ok (Val.slice t (cons v vs), k)) (sym w))

pub slice-Reads :
    (f m : ℕ) {t : Typ} {s : Schema} {vs : Vals} {xs : Items}
    → TypeRep t s
    → 4 * depth s ≤ f + 4
    → is_variable s ≡ false
    → AllRead f t s vs xs
    → AllSized s m xs
    → 0 < m
    → Reads (suc f) (Val.slice t vs) (Typ.slice t) (Schema.list s) (Item.seq xs)
unfolding choice serialize is_variable zero_value
slice-Reads f m r h z a q p (o ∷ pre) post len l k b c = let (e, n) = k refl in cc
slice-Reads f m {t} {s} {vs} {xs} r h z a q p [] post len l k b c =
    let j = join-concat s xs z in
    let (e, n) = k refl in
    let run =
      basic_slice_lem f m r h z a q p post (concat s xs ++ post) len (rw (← j) n) refl (rw (← j) b)
        (rw (← j) c) in
    (
      length (concat s xs),
      rw (z, j, slice_choice_lem f t (Val.nil_slice t) (input_of (concat s xs ++ post) len) 0) run,
      λ w. cc,
    )
