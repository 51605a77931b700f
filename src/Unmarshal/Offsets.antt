-- ===== src/Unmarshal/Offsets.antt =====
-- Sequences of items of variable size, as Unmarshal reads them: offsets, then the items.
use go_ssz.Prelude.{ℕ, ◌+◌, ◌*◌, ◌^◌, ◌<◌, ◌≡◌, refl, ap, ◌∙◌, arith, true, false}
use go_ssz.Prelude.{[], ◌++◌, append_assoc, length, ok, ◌==◌}
use go_ssz.Buffer.{Buf, le_bytes}
use go_ssz.Buffer.Writes.{lengths}
use go_ssz.Size.{◌+u64◌}
use go_ssz.Input.{slice_input}
use go_ssz.DecodeSlices.{next_offset}
use go_ssz.Marshal.Loops.{concat}
use go_ssz.Ssz.{Schema, Item, Items, is_variable, serialize, count_items, parts_of}
use go_ssz.Ssz.Parts.{join, heads, tails, head_length, length-le_bytes}
use go_ssz.Unmarshal.Reads.{input_of, slice_input-append, read_le-append}

-- The offsets of the items, of which the first begins at `o`.
abbrev pub offsets_of : Schema → ℕ → Items → Buf
offsets_of s o Items.nil = []
offsets_of s o (Items.cons x xs) = le_bytes 4 o ++ offsets_of s (o + length (serialize s x)) xs

pub length-offsets_of :
    (s : Schema) (o : ℕ) (xs : Items) → length (offsets_of s o xs) ≡ 4 * count_items xs
length-offsets_of s o Items.nil = refl
length-offsets_of s o (Items.cons x xs) =
    let l = length-le_bytes 4 o in
    let h = length-offsets_of s (o + length (serialize s x)) xs in omega (lengths, l, h)

heads-offsets_of :
    (s : Schema) (o : ℕ) (xs : Items)
    → is_variable s ≡ true
    → (heads o (parts_of s xs) ≡ offsets_of s o xs)
      × (tails (parts_of s xs) ≡ concat s xs)
      × (head_length (parts_of s xs) ≡ 4 * count_items xs)
unfolding serialize
heads-offsets_of s o Items.nil z = (refl, refl, refl)
heads-offsets_of s o (Items.cons x xs) z =
    let (a, b, c) = heads-offsets_of s (o + length (serialize s x)) xs z in
    (rw (z, a), rw (z, b), rw z (omega (arith, c)))

pub join-offsets_of :
    (s : Schema) (xs : Items)
    → is_variable s ≡ true
    → join (parts_of s xs) ≡ offsets_of s (4 * count_items xs) xs ++ concat s xs
unfolding join
join-offsets_of s xs z =
    let (a, b, c) = heads-offsets_of s (4 * count_items xs) xs z in rw (c, a, b) refl

-- The input of a loop before the next item: the offsets read, the others, the items read, the others.
abbrev pub Laid : Schema → Items → Buf → Buf → Buf → Buf → ℕ → Type 0
Laid s xs pre mid post bytes current =
    (bytes ≡ pre ++ (offsets_of s current xs ++ (mid ++ (concat s xs ++ post))))
    × (current ≡ length pre + (4 * count_items xs + length mid))
    × (length bytes < 2 ^ 64)
    × (current + length (concat s xs) < 2 ^ 32)

pub Laid-next :
    (s : Schema) (x : Item) (xs : Items) (pre mid post bytes : Buf) (current : ℕ)
    → Laid s (Items.cons x xs) pre mid post bytes current
    → Laid s xs
        (pre ++ le_bytes 4 current)
        (mid ++ serialize s x)
        post
        bytes
        (current + length (serialize s x))
Laid-next s x xs pre mid post bytes current (e, c, b, d) =
    let l = length-le_bytes 4 current in
    (e ∙ simp append_assoc, omega (lengths, c, l), b, omega (lengths, d))

-- The item itself.
pub Laid-item :
    (s : Schema) (x : Item) (xs : Items) (pre mid post bytes : Buf) (current len : ℕ)
    → Laid s (Items.cons x xs) pre mid post bytes current
    → slice_input (input_of bytes len) current (current + length (serialize s x))
      ≡ ok (input_of (serialize s x ++ (concat s xs ++ post)) (length (serialize s x)))
Laid-item s x xs pre mid post bytes current len (e, c, b, d) =
    let o = offsets_of s current (Items.cons x xs) in
    let before = pre ++ (o ++ mid) in
    let h = length-offsets_of s current (Items.cons x xs) in
    let p : current ≡ length before = omega (lengths, c, h) in
    let q : bytes ≡ before ++ (serialize s x ++ (concat s xs ++ post)) = e ∙ simp append_assoc in
    rw q (
      slice_input-append before (serialize s x) (concat s xs ++ post) len current
        (current + length (serialize s x)) p (omega (arith, p)))

-- Where it ends: at the offset behind its own, or with the input.
pub Laid-end :
    (s : Schema) (x : Item) (xs : Items) (pre mid post bytes : Buf) (current len next : ℕ)
    → Laid s (Items.cons x xs) pre mid post bytes current
    → next ≡ length pre + 4
    → len ≡ current + length (concat s (Items.cons x xs))
    → next_offset (input_of bytes len) 0 next (length pre + 4 * count_items (Items.cons x xs))
      ≡ ok (current + length (serialize s x))
unfolding next_offset
Laid-end s x Items.nil pre mid post bytes current len next (e, c, b, d) n l =
    let p : (next == length pre + 4 * 1) ≡ true = ground (arith, n) in
    rw p (ap ok (omega (lengths, l)))
Laid-end s x (Items.cons y ys) pre mid post bytes current len next (e, c, b, d) n l =
    let p : (next == length pre + 4 * count_items (Items.cons x (Items.cons y ys))) ≡ false =
      ground (arith, n) in
    let end = current + length (serialize s x) in
    let k = length-le_bytes 4 current in
    let before = pre ++ le_bytes 4 current in
    let after =
      offsets_of s (end + length (serialize s y)) ys
      ++ (mid ++ (concat s (Items.cons x (Items.cons y ys)) ++ post)) in
    let q : bytes ≡ before ++ (le_bytes 4 end ++ after) = e ∙ simp append_assoc in
    let a : end < 256 ^ 4 = omega (lengths, d) in
    let m : 0 +u64 end ≡ end = omega (arith, a) in
    rw (p, q, read_le-append before after 4 end len next a (omega (lengths, n, k)) (rw (← q) b), m)
      refl
