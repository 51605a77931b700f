-- ===== src/Unmarshal/Composites.antt =====
-- The Unmarshal of slices and arrays whose items have a variable size.
use go_ssz.Prelude.{ℕ, zero, suc, ◌+◌, ◌*◌, ◌^◌, ◌≤◌, ◌<◌, ◌≡◌, refl, ap, ◌∙◌, arith, true, false}
use go_ssz.Prelude.{
  [], ◌∷◌, ◌++◌, append_assoc, length, Bool-cases, inl, inr, ok, ◌==◌, ltb, lt→ltb,
}
use go_ssz.Ssz.Parts.{length-le_bytes}
use go_ssz.Buffer.{Buf, le_bytes}
use go_ssz.Buffer.Writes.{lengths, length-append_bytes}
use go_ssz.Reflect.{Typ, Val, Vals, nil, cons, zero_value, elem_type, count_vals, kind}
use go_ssz.Size.{◌+u64◌}
use go_ssz.Input.{Input}
use go_ssz.Grow.{grow_slice}
use go_ssz.DecodeSlices.{unmarshal_offsets, unmarshal_composite_slice}
use go_ssz.Unmarshal.{unmarshal_with}
use go_ssz.Marshal.Loops.{concat}
use go_ssz.Ssz.{Schema, Item, Items, is_variable, serialize, depth, count_items}
use go_ssz.Represents.{TypeRep}
use go_ssz.Represents.Factory.{choice, slice_choice}
use go_ssz.Represents.Variable.{basic-fixed}
use go_ssz.Size.{is_basic_type}
use go_ssz.Unmarshal.Targets.{target, IsFresh-target, ssz_factory-fresh}
use go_ssz.Unmarshal.Rooms.{
  append_vals, append_vals_assoc, append_vals-nil, count_vals-append_vals, index_of-append_vals,
  grow_slice-append_vals, grow_slice-first, grow_slice-again,
}
use go_ssz.Unmarshal.Reads.{input_of, read_le-append}
use go_ssz.Unmarshal.Decodes.{Reads}
use go_ssz.Unmarshal.InOrder.{AllRead, read_at}
use go_ssz.Unmarshal.Slices.{unmarshal_index-slice, empty_lem}
use go_ssz.Unmarshal.Offsets.{
  offsets_of, length-offsets_of, join-offsets_of, Laid, Laid-next, Laid-item, Laid-end,
}

abbrev length_of : Buf → ℕ
length_of bs = length bs

-- The item is all that its Unmarshal gets to see.
pub item_read :
    (f : ℕ) (v : Val) (t : Typ) (s : Schema) (x : Item) (post : Buf)
    → Reads f v t s x
    → length (serialize s x ++ post) < 2 ^ 64
    → length (serialize s x) < 2 ^ 32
    → (index : ℕ) × (unmarshal_with f
          (choice t s)
          (target t)
          t
          (input_of (serialize s x ++ post) (length (serialize s x)))
          0
        ≡ ok (v, index))
item_read f v t s x post r b c =
    let (index, p, q) =
      read_at f v t s x r [] post (serialize s x ++ post) (length (serialize s x)) 0 refl refl
        (omega arith) (λ y. (refl, refl)) b c in
    (index, p)

pub Laid-bound :
    (s : Schema) (x : Item) (xs : Items) (pre mid post bytes : Buf) (current : ℕ)
    → Laid s (Items.cons x xs) pre mid post bytes current
    → (length (serialize s x ++ (concat s xs ++ post)) < 2 ^ 64) × (length (serialize s x) < 2 ^ 32)
Laid-bound s x xs pre mid post bytes current (e, c, b, d) =
    let n = ap length_of e in (omega (lengths, n, b), omega (lengths, d))

slice_step :
    (f rounds i : ℕ) {t : Typ} {s : Schema} {v : Val} (x : Item) (xs : Items) (val : Val)
    (done : Vals) (pre mid post bytes : Buf) (len first index current : ℕ)
    → TypeRep t s
    → 4 * depth s ≤ f + 4
    → Reads f v t s x
    → i ≡ count_vals done
    → grow_slice val (Typ.slice t) (i + 1)
      ≡ ok (Val.slice t (append_vals done (cons (target t) nil)))
    → Laid s (Items.cons x xs) pre mid post bytes current
    → index ≡ length pre
    → first ≡ length pre + 4 * count_items (Items.cons x xs)
    → len ≡ current + length (concat s (Items.cons x xs))
    → unmarshal_offsets
        (suc rounds)
        f
        (unmarshal_with f)
        val
        (Typ.slice t)
        t
        i
        (input_of bytes len)
        0
        first
        index
        current
      ≡ unmarshal_offsets rounds f
          (unmarshal_with f)
          (Val.slice t (append_vals done (cons v nil)))
          (Typ.slice t)
          t
          (i + 1)
          (input_of bytes len)
          0
          first
          (length pre + 4)
          (current + length (serialize s x))
unfolding unmarshal_offsets
slice_step f rounds i {t} {s} {v} x xs val done pre mid post bytes len first index current r h d k g
      l n m o =
    let (b, c) = Laid-bound s x xs pre mid post bytes current l in
    let (q, p) = item_read f v t s x (concat s xs ++ post) d b c in
    let a : ltb index first ≡ true = lt→ltb index first (omega (arith, n, m)) in
    let w : index +u64 4 ≡ length pre + 4 = omega (arith, n, l.1, l.3) in
    let u : ltb (current + length (serialize s x)) current ≡ false = ground arith in
    rw
      (
        a,
        w,
        m,
        Laid-end s x xs pre mid post bytes current len (length pre + 4) l refl o,
        u,
        g,
        k,
        index_of-append_vals done (target t) nil,
        ssz_factory-fresh (IsFresh-target t) r f h,
        Laid-item s x xs pre mid post bytes current len l,
        unmarshal_index-slice (unmarshal_with f (choice t s)) t t done (target t) nil
            (input_of (serialize s x ++ (concat s xs ++ post)) (length (serialize s x))) 0 p,
      )
      refl

-- The loop of compositeSliceSSZ behind the first item.
slice_loop :
    (f rounds i : ℕ) {t : Typ} {s : Schema} {vs : Vals} {xs : Items} (done : Vals)
    (pre mid post bytes : Buf) (len first index current : ℕ)
    → TypeRep t s
    → 4 * depth s ≤ f + 4
    → AllRead f t s vs xs
    → i ≡ count_vals done
    → Laid s xs pre mid post bytes current
    → index ≡ length pre
    → first ≡ length pre + 4 * count_items xs
    → len ≡ current + length (concat s xs)
    → count_items xs < rounds
    → unmarshal_offsets rounds f
        (unmarshal_with f)
        (Val.slice t done)
        (Typ.slice t)
        t
        i
        (input_of bytes len)
        0
        first
        index
        current
      ≡ ok (Val.slice t (append_vals done vs), first)
slice_loop f zero i done pre mid post bytes len first index current r h a k l n m o c =
    absurd (omega arith)
slice_loop f (suc rounds) i {t} done pre mid post bytes len first index current r h
      AllRead.none_left k l n m o c =
    let e : ltb index first ≡ false = ground (arith, n, m) in
    let q : index ≡ first = omega (arith, n, m) in
    unfold unmarshal_offsets in rw (e, append_vals-nil done, q) refl
slice_loop f (suc rounds) i {t} {s} done pre mid post bytes len first index current r h
      (AllRead.each {v = v} {vs = vs} {x = x} {xs = xs} d ds) k l n m o c =
    let e : i + 1 ≡ suc (count_vals done) = omega (arith, k) in
    let p = length-le_bytes 4 current in
    let done' = append_vals done (cons v nil) in
    let rest =
      slice_loop f rounds (i + 1) done' (pre ++ le_bytes 4 current) (mid ++ serialize s x) post
        bytes len first (length pre + 4) (current + length (serialize s x)) r h ds
        (omega (arith, k, count_vals-append_vals done (cons v nil)))
        (Laid-next s x xs pre mid post bytes current l) (omega (lengths, p)) (omega (lengths, m, p))
        (omega (lengths, o)) (omega (arith, c)) in
    slice_step f rounds i x xs (Val.slice t done) done pre mid post bytes len first index current r
      h d k (rw e (grow_slice-append_vals t done)) l n m o
    ∙ rest
    ∙ ap (λ (us : Vals). ok (Val.slice t us, first)) (append_vals_assoc done (cons v nil) vs)

-- compositeSliceSSZ, at an input that it has for itself.
composite_slice_lem :
    (f : ℕ) {t : Typ} {s : Schema} {vs : Vals} {xs : Items}
    → TypeRep t s
    → 4 * depth s ≤ f + 4
    → AllRead f t s vs xs
    → (post bytes : Buf) (len : ℕ) → len ≡ 4 * count_items xs + length (concat s xs)
    → bytes ≡ offsets_of s (4 * count_items xs) xs ++ (concat s xs ++ post)
    → length bytes < 2 ^ 64
    → len < 2 ^ 32
    → unmarshal_composite_slice f
        (unmarshal_with f)
        (Val.nil_slice t)
        (Typ.slice t)
        (input_of bytes len)
        0
      ≡ ok (Val.slice t vs, 4 * count_items xs)
unfolding unmarshal_composite_slice elem_type
composite_slice_lem f {t} r h AllRead.none_left post bytes len o e b c = rw (o, empty_lem t) refl
composite_slice_lem f {t} {s} r h (AllRead.each {v = v} {vs = vs} {x = x} {xs = xs} d ds) post bytes
      len o e b c =
    let all = Items.cons x xs in
    let n = 4 * count_items all in
    let z : (len == 0) ≡ false = ground (arith, o) in
    let bs = concat s all in
    let after = offsets_of s (n + length (serialize s x)) xs ++ (bs ++ post) in
    let q : bytes ≡ le_bytes 4 n ++ after = e ∙ append_assoc (le_bytes 4 n) _ (bs ++ post) in
    let first = read_le-append [] after 4 n len 0 (omega (arith, o, c)) refl (rw (← q) b) in
    let m : 0 +u64 n ≡ n = omega (arith, o, c) in
    let l : Laid s all [] [] post bytes n = (e, omega arith, b, omega (arith, o, c)) in
    let w = length-append_bytes (offsets_of s n all) (bs ++ post) in
    let u = length-offsets_of s n all in
    let j : count_items xs < length bytes = rw e (omega (arith, w, u)) in
    let p = length-le_bytes 4 n in
    let step =
      slice_step f (length bytes) 0 x xs (Val.slice t (cons (target t) nil)) nil [] [] post bytes
        len n 0 n r h d refl (grow_slice-again t) l refl (omega arith) o in
    let rest =
      slice_loop f (length bytes) 1 (cons v nil) (le_bytes 4 n) (serialize s x) post bytes len n 4
        (n + length (serialize s x)) r h ds refl (Laid-next s x xs [] [] post bytes n l)
        (omega (arith, p)) (omega (arith, p)) (omega (lengths, o)) j in
    rw (z, grow_slice-first t, q, first, m, ← q) (step ∙ rest)

composite_choice :
    (f : ℕ) {t : Typ} {s : Schema} (val : Val) (input : Input) (start : ℕ)
    → TypeRep t s
    → is_variable s ≡ true
    → unmarshal_with (suc f) (slice_choice t true) val (Typ.slice t) input start
      ≡ unmarshal_composite_slice f (unmarshal_with f) val (Typ.slice t) input start
unfolding unmarshal_with slice_choice
composite_choice f {t} val input start r z = elim (Bool-cases (is_basic_type (kind t))) [
  | inl p ↦ cc (basic-fixed r p)
  | inr p ↦ rw p refl
]

pub composite_slice-Reads :
    (f : ℕ) {t : Typ} {s : Schema} {vs : Vals} {xs : Items}
    → TypeRep t s
    → 4 * depth s ≤ f + 4
    → is_variable s ≡ true
    → AllRead f t s vs xs
    → Reads (suc f) (Val.slice t vs) (Typ.slice t) (Schema.list s) (Item.seq xs)
unfolding choice serialize is_variable zero_value
composite_slice-Reads f r h z a (o ∷ pre) post len l k b c = let (e, n) = k refl in cc
composite_slice-Reads f {t} {s} {vs} {xs} r h z a [] post len l k b c =
    let j = join-offsets_of s xs z in
    let (e, n) = k refl in
    let os = offsets_of s (4 * count_items xs) xs in
    let m = length-offsets_of s (4 * count_items xs) xs in
    let w = length-append_bytes os (concat s xs) in
    let g : len ≡ length (os ++ concat s xs) = rw (← j) n in
    let run =
      composite_slice_lem f r h a post ((os ++ concat s xs) ++ post) len (omega (arith, g, w, m))
        (append_assoc os (concat s xs) post) (rw (← j) b) (rw n c) in
    (
      4 * count_items xs,
      rw
          (
            z,
            j,
            composite_choice f (Val.nil_slice t) (input_of ((os ++ concat s xs) ++ post) len) 0 r z,
          )
          run,
      λ y. cc,
    )
