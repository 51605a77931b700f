-- ===== src/Unmarshal/Places.antt =====
-- The Unmarshal of arrays whose items have a variable size.
use go_ssz.Prelude.{ℕ, zero, suc, ◌+◌, ◌*◌, ◌^◌, ◌≤◌, ◌<◌, ◌≡◌, refl, ap, ◌∙◌, arith, true, false}
use go_ssz.Prelude.{[], ◌∷◌, ◌++◌, append_assoc, length, Bool-cases, inl, inr, ok}
use go_ssz.Prelude.{ltb, lt→ltb}
use go_ssz.Ssz.Parts.{length-le_bytes}
use go_ssz.Buffer.{Buf, le_bytes}
use go_ssz.Buffer.Writes.{lengths, length-append_bytes}
use go_ssz.Reflect.{Typ, Val, Vals, nil, cons, zero_value, elem_type, type_of, count_vals}
use go_ssz.Reflect.{repeat_val, kind}
use go_ssz.Size.{◌+u64◌, is_basic_type, is_root}
use go_ssz.Input.{Input}
use go_ssz.Grow.{index_of}
use go_ssz.Decode.{Decoder}
use go_ssz.DecodeSlices.{
  unmarshal_index, unmarshal_places, unmarshal_composite_array, with_target, array_of,
}
use go_ssz.Unmarshal.{unmarshal_with}
use go_ssz.Marshal.Loops.{concat}
use go_ssz.Marshal.Sequences.{not_basic_array}
use go_ssz.Ssz.{Schema, Item, Items, is_variable, serialize, depth, count_items}
use go_ssz.Represents.{TypeRep}
use go_ssz.Represents.Factory.{choice, array_choice}
use go_ssz.Represents.Variable.{basic-fixed}
use go_ssz.Unmarshal.Targets.{target, IsFresh, ssz_factory-fresh, instantiate_ptr}
use go_ssz.Unmarshal.Rooms.{
  append_vals, append_vals_assoc, append_vals-nil, count_vals-append_vals, index_of-append_vals,
  set_index-append_vals,
}
use go_ssz.Unmarshal.Reads.{input_of, read_le-append}
use go_ssz.Unmarshal.Decodes.{Reads}
use go_ssz.Unmarshal.InOrder.{AllRead, zero_scalar}
use go_ssz.Unmarshal.Offsets.{
  offsets_of, length-offsets_of, join-offsets_of, Laid, Laid-next, Laid-item, Laid-end,
}
use go_ssz.Unmarshal.Composites.{item_read, Laid-bound}

-- The items of an array: those read, and zero values.
abbrev filled : Typ → Vals → ℕ → Val
filled t done n = Val.array t (append_vals done (repeat_val n (zero_value t)))

unmarshal_index-array :
    (self : Decoder) (u t : Typ) (done : Vals) (w : Val) (ws : Vals) (input : Input) (start : ℕ)
    {v : Val} {index : ℕ}
    → self w t input start ≡ ok (v, index)
    → unmarshal_index self
        (Val.array u (append_vals done (cons w ws)))
        (count_vals done)
        t
        input
        start
      ≡ ok (Val.array u (append_vals done (cons v ws)), index)
unfolding unmarshal_index
unmarshal_index-array self u t done w ws input start {v} e =
    rw (index_of-append_vals done w ws, e, set_index-append_vals done w v ws) refl

with_target_lem :
    {t : Typ} {s : Schema}
    → TypeRep t s
    → (done ws : Vals)
    → with_target (Val.array t (append_vals done (cons (zero_value t) ws))) (count_vals done) t
      ≡ ok (Val.array t (append_vals done (cons (target t) ws)))
unfolding with_target zero_value elem_type
with_target_lem (TypeRep.ptr {fs = fs} r) done ws =
    rw
      (
        index_of-append_vals done (Val.nil_ptr (Typ.struct fs)) ws,
        instantiate_ptr (Val.nil_ptr (Typ.struct fs)) (Typ.struct fs) (unfold type_of in refl),
        set_index-append_vals done (Val.nil_ptr (Typ.struct fs))
            (Val.ptr (zero_value (Typ.struct fs))) ws,
      )
      refl
with_target_lem TypeRep.boolean done ws = rw (index_of-append_vals done (Val.bool false) ws) refl
with_target_lem (TypeRep.uint {k = k} e) done ws =
    rw (index_of-append_vals done (zero_value (Typ.scalar k)) ws, zero_scalar k) refl
with_target_lem TypeRep.string done ws = rw (index_of-append_vals done (Val.str []) ws) refl
with_target_lem (TypeRep.slice {t = t} r) done ws =
    rw (index_of-append_vals done (Val.nil_slice t) ws) refl
with_target_lem (TypeRep.array {n = n} {t = t} r) done ws =
    rw (index_of-append_vals done (zero_value (Typ.array n t)) ws) refl
with_target_lem (TypeRep.struct {fs = fs} r) done ws =
    rw (index_of-append_vals done (zero_value (Typ.struct fs)) ws) refl

places_step :
    (f rounds i : ℕ) {t : Typ} {s : Schema} {v : Val} (x : Item) (xs : Items) (done : Vals)
    (pre mid post bytes : Buf) (len first index current : ℕ)
    → TypeRep t s
    → Reads f v t s x
    → i ≡ count_vals done
    → Laid s (Items.cons x xs) pre mid post bytes current
    → index ≡ length pre
    → first ≡ length pre + 4 * count_items (Items.cons x xs)
    → len ≡ current + length (concat s (Items.cons x xs))
    → unmarshal_places
        (suc rounds)
        (unmarshal_with f (choice t s))
        (filled t done (count_items (Items.cons x xs)))
        t
        i
        (input_of bytes len)
        0
        first
        index
        current
      ≡ unmarshal_places rounds
          (unmarshal_with f (choice t s))
          (filled t (append_vals done (cons v nil)) (count_items xs))
          t
          (i + 1)
          (input_of bytes len)
          0
          first
          (length pre + 4)
          (current + length (serialize s x))
unfolding unmarshal_places
places_step f rounds i {t} {s} {v} x xs done pre mid post bytes len first index current r d k l n m
      o =
    let (b, c) = Laid-bound s x xs pre mid post bytes current l in
    let (q, p) = item_read f v t s x (concat s xs ++ post) d b c in
    let a : ltb index first ≡ true = lt→ltb index first (omega (arith, n, m)) in
    let w : index +u64 4 ≡ length pre + 4 = omega (arith, n, l.1, l.3) in
    let ws = repeat_val (count_items xs) (zero_value t) in
    rw
      (
        a,
        w,
        m,
        Laid-end s x xs pre mid post bytes current len (length pre + 4) l refl o,
        k,
        with_target_lem r done ws,
        Laid-item s x xs pre mid post bytes current len l,
        unmarshal_index-array (unmarshal_with f (choice t s)) t t done (target t) ws
            (input_of (serialize s x ++ (concat s xs ++ post)) (length (serialize s x))) 0 p,
        append_vals_assoc done (cons v nil) ws,
      )
      refl

places_loop :
    (f rounds i : ℕ) {t : Typ} {s : Schema} {vs : Vals} {xs : Items} (done : Vals)
    (pre mid post bytes : Buf) (len first index current : ℕ)
    → TypeRep t s
    → AllRead f t s vs xs
    → i ≡ count_vals done
    → Laid s xs pre mid post bytes current
    → index ≡ length pre
    → first ≡ length pre + 4 * count_items xs
    → len ≡ current + length (concat s xs)
    → count_items xs < rounds
    → unmarshal_places rounds
        (unmarshal_with f (choice t s))
        (filled t done (count_items xs))
        t
        i
        (input_of bytes len)
        0
        first
        index
        current
      ≡ ok (Val.array t (append_vals done vs), first)
places_loop f zero i done pre mid post bytes len first index current r a k l n m o c =
    absurd (omega arith)
places_loop f (suc rounds) i {t} done pre mid post bytes len first index current r AllRead.none_left
      k l n m o c =
    let e : ltb index first ≡ false = ground (arith, n, m) in
    let q : index ≡ first = omega (arith, n, m) in
    unfold unmarshal_places in rw (e, append_vals-nil done, q) refl
places_loop f (suc rounds) i {t} {s} done pre mid post bytes len first index current r
      (AllRead.each {v = v} {vs = vs} {x = x} {xs = xs} d ds) k l n m o c =
    let p = length-le_bytes 4 current in
    let done' = append_vals done (cons v nil) in
    let rest =
      places_loop f rounds (i + 1) done' (pre ++ le_bytes 4 current) (mid ++ serialize s x) post
        bytes len first (length pre + 4) (current + length (serialize s x)) r ds
        (omega (arith, k, count_vals-append_vals done (cons v nil)))
        (Laid-next s x xs pre mid post bytes current l) (omega (lengths, p)) (omega (lengths, m, p))
        (omega (lengths, o)) (omega (arith, c)) in
    places_step f rounds i x xs done pre mid post bytes len first index current r d k l n m o
    ∙ rest
    ∙ ap (λ (us : Vals). ok (Val.array t us, first)) (append_vals_assoc done (cons v nil) vs)

-- compositeArraySSZ, at an input that it has for itself.
composite_array_lem :
    (f : ℕ) {t : Typ} {s : Schema} {v : Val} {vs : Vals} (x : Item) {xs : Items}
    → TypeRep t s
    → 4 * depth s ≤ f + 4
    → AllRead f t s (cons v vs) (Items.cons x xs)
    → (post bytes : Buf) (len : ℕ)
    → len ≡ 4 * count_items (Items.cons x xs) + length (concat s (Items.cons x xs))
    → bytes
      ≡ offsets_of s (4 * count_items (Items.cons x xs)) (Items.cons x xs)
        ++ (concat s (Items.cons x xs) ++ post)
    → length bytes < 2 ^ 64
    → len < 2 ^ 32
    → unmarshal_composite_array f
        (unmarshal_with f)
        (filled t nil (count_items (Items.cons x xs)))
        (Typ.array (count_items (Items.cons x xs)) t)
        (input_of bytes len)
        0
      ≡ ok (Val.array t (cons v vs), 4 * count_items (Items.cons x xs))
unfolding unmarshal_composite_array elem_type array_of index_of
composite_array_lem f {t} {s} {v} {vs} x {xs} r h a post bytes len o e b c =
    let all = Items.cons x xs in
    let n = 4 * count_items all in
    let bs = concat s all in
    let after = offsets_of s (n + length (serialize s x)) xs ++ (bs ++ post) in
    let q : bytes ≡ le_bytes 4 n ++ after = e ∙ append_assoc (le_bytes 4 n) _ (bs ++ post) in
    let first = read_le-append [] after 4 n len 0 (omega (arith, o, c)) refl (rw (← q) b) in
    let m : 0 +u64 n ≡ n = omega (arith, o, c) in
    let l : Laid s all [] [] post bytes n = (e, omega arith, b, omega (arith, o, c)) in
    let w = length-append_bytes (offsets_of s n all) (bs ++ post) in
    let u = length-offsets_of s n all in
    let j : count_items all < suc (length bytes) = rw e (omega (arith, w, u)) in
    let loop =
      places_loop f (suc (length bytes)) 0 nil [] [] post bytes len n 0 n r a refl l refl
        (omega arith) o j in
    rw (q, first, ssz_factory-fresh (IsFresh.untouched t) r f h, m, ← q) loop

places_choice :
    (f n : ℕ) {t : Typ} {s : Schema} (val : Val) (input : Input) (start : ℕ)
    → TypeRep t s
    → is_variable s ≡ true
    → is_root t ≡ false
    → unmarshal_with (suc f) (array_choice t true) val (Typ.array n t) input start
      ≡ unmarshal_composite_array f (unmarshal_with f) val (Typ.array n t) input start
unfolding unmarshal_with array_choice
places_choice f n {t} val input start r z o = elim (Bool-cases (is_basic_type (kind t))) [
  | inl p ↦ cc (basic-fixed r p)
  | inr p ↦ rw (p, o, not_basic_array r z) refl
]

composite_run :
    (f n : ℕ) {t : Typ} {s : Schema} {vs : Vals} {xs : Items}
    → TypeRep t s
    → 4 * depth s ≤ f + 4
    → 0 < n
    → count_items xs ≡ n
    → AllRead f t s vs xs
    → (post : Buf) (len : ℕ) → len ≡ 4 * count_items xs + length (concat s xs)
    → length ((offsets_of s (4 * count_items xs) xs ++ concat s xs) ++ post) < 2 ^ 64
    → len < 2 ^ 32
    → unmarshal_composite_array f
        (unmarshal_with f)
        (filled t nil n)
        (Typ.array n t)
        (input_of ((offsets_of s (4 * count_items xs) xs ++ concat s xs) ++ post) len)
        0
      ≡ ok (Val.array t vs, 4 * count_items xs)
composite_run f n r h p q AllRead.none_left post len l b c = absurd (omega (arith, p, q))
composite_run f n {t} {s} r h p q (AllRead.each {x = x} {xs = xs} d ds) post len l b c =
    let all = Items.cons x xs in
    let os = offsets_of s (4 * count_items all) all in
    rw (← q) (
      composite_array_lem f x r h (AllRead.each d ds) post ((os ++ concat s all) ++ post) len l
        (append_assoc os (concat s all) post) b c)

pub composite_array-Reads :
    (f n : ℕ) {t : Typ} {s : Schema} {vs : Vals} {xs : Items}
    → TypeRep t s
    → 4 * depth s ≤ f + 4
    → is_variable s ≡ true
    → is_root t ≡ false
    → 0 < n
    → count_items xs ≡ n
    → AllRead f t s vs xs
    → Reads (suc f) (Val.array t vs) (Typ.array n t) (Schema.vector n s) (Item.seq xs)
unfolding choice serialize is_variable zero_value
composite_array-Reads f n r h z o p q a (w ∷ pre) post len l k b c = let (e, m) = k z in cc
composite_array-Reads f n {t} {s} {vs} {xs} r h z o p q a [] post len l k b c =
    let j = join-offsets_of s xs z in
    let (e, m) = k z in
    let os = offsets_of s (4 * count_items xs) xs in
    let u = length-offsets_of s (4 * count_items xs) xs in
    let w = length-append_bytes os (concat s xs) in
    let g : len ≡ length (os ++ concat s xs) = rw (← j) m in
    let run = composite_run f n r h p q a post len (omega (arith, g, w, u)) (rw (← j) b) (rw m c) in
    (
      4 * count_items xs,
      rw
          (
            z,
            j,
            places_choice f n (filled t nil n) (input_of ((os ++ concat s xs) ++ post) len) 0 r z o,
          )
          run,
      λ y. cc,
    )
