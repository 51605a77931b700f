-- ===== src/Chunks/Pack.antt =====
-- What pack returns: chunks of 32 bytes that hold the items, padded by zero bytes.
use go_ssz.Prelude.{ℕ, ◌-◌, ◌%◌, ◌<◌, ◌≡◌, refl, arith, Bool-cases, true, false}
use go_ssz.Prelude.{List, [], ◌∷◌, append-nil, length, replicate, ok}
use go_ssz.Prelude.{if◌then◌else◌, ◌==◌, inl, inr, ◌≢◌, ◌⊎◌, ap}
use go_ssz.Buffer.{Buf}
use go_ssz.Chunks.{all_empty, flatten, cut_chunks, pad_last, pack, is_empty}
use go_ssz.Chunks.Cut.{InChunks, padding, Packed, one_chunk, length_bytes, cut-Packed}

flatten-all_empty : (items : List Buf) → all_empty items ≡ true → flatten items ≡ []
unfolding all_empty flatten is_empty
flatten-all_empty [] h = refl
flatten-all_empty ([] ∷ items) h = flatten-all_empty items h
flatten-all_empty ((b ∷ bs) ∷ items) h = cc

length-flatten_pos : (items : List Buf) → all_empty items ≡ false → 0 < length (flatten items)
unfolding all_empty flatten is_empty
length-flatten_pos [] h = cc
length-flatten_pos ([] ∷ items) h = length-flatten_pos items h
length-flatten_pos ((b ∷ bs) ∷ items) h = omega arith

-- Items that are chunks already.
pub data Whole : List Buf → Type 0 where
  nothing : Whole []
  whole : {item : Buf} {items : List Buf} → length item ≡ 32 → Whole items → Whole (item ∷ items)

Whole-InChunks : {items : List Buf} → Whole items → InChunks items (flatten items)
unfolding flatten
Whole-InChunks Whole.nothing = InChunks.no_chunk
Whole-InChunks (Whole.whole {item = item} h w) = InChunks.chunk item h (Whole-InChunks w)

length-flatten-Whole : {items : List Buf} → Whole items → length (flatten items) % 32 ≡ 0
unfolding flatten
length-flatten-Whole Whole.nothing = refl
length-flatten-Whole (Whole.whole {item = item} {items = items} h w) =
    let n = length-flatten-Whole w in let l = length_bytes item (flatten items) in omega arith

abbrev pub first_item : List Buf → Buf
first_item [] = []
first_item (item ∷ items) = item

abbrev zero_chunk : Buf
zero_chunk = replicate 32 0

-- What serves as the items: chunks, or items of which the first is none. The callers pass one item,
-- roots, or the bytes of numbers of one width below 32.
abbrev pub Packable : List Buf → Type 0
Packable items = Whole items ⊎ (length (first_item items) ≢ 32)

padding_whole : (n : ℕ) → 0 < n → n % 32 ≡ 0 → padding n ≡ []
padding_whole n p h =
    let z : (if n == 0 then 32 else (32 - n % 32) % 32) ≡ 0 = ground arith in
    ap (λ (k : ℕ). replicate k 0) z

pack_empty :
    (item : Buf) (items : List Buf)
    → all_empty (item ∷ items) ≡ true
    → pack (item ∷ items) ≡ ok (zero_chunk ∷ [])
unfolding pack
pack_empty item items e = rw e refl

pub pack_whole :
    (item : Buf) (items : List Buf)
    → all_empty (item ∷ items) ≡ false
    → length item ≡ 32
    → pack (item ∷ items) ≡ ok (item ∷ items)
unfolding pack
pack_whole item items e l = rw (e, l) refl

pack_cut :
    (item : Buf) (items : List Buf)
    → all_empty (item ∷ items) ≡ false
    → length item ≢ 32
    → pack (item ∷ items)
      ≡ pad_last (cut_chunks (length (flatten (item ∷ items))) (flatten (item ∷ items)))
unfolding pack
pack_cut item items e l = let d : (length item == 32) ≡ false = ground (arith, l) in rw (e, d) refl

pack_none :
    (item : Buf) (items : List Buf)
    → all_empty (item ∷ items) ≡ true
    → Packed (pack (item ∷ items)) (flatten (item ∷ items))
pack_none item items e =
    rw (pack_empty item items e, flatten-all_empty (item ∷ items) e)
      (zero_chunk ∷ [], refl, one_chunk zero_chunk refl)

pack_full :
    (item : Buf) (items : List Buf)
    → all_empty (item ∷ items) ≡ false
    → Packable (item ∷ items)
    → Packed (pack (item ∷ items)) (flatten (item ∷ items))
pack_full item items e (inl (Whole.whole l w)) =
    let m = Whole-InChunks (Whole.whole l w) in
    let z = length-flatten-Whole (Whole.whole l w) in
    (
      item ∷ items,
      pack_whole item items e l,
      rw
          (
            padding_whole (length (flatten (item ∷ items))) (length-flatten_pos (item ∷ items) e) z,
            append-nil (flatten (item ∷ items)),
          )
          m,
    )
pack_full item items e (inr l) =
    rw (pack_cut item items e l)
      (cut-Packed (flatten (item ∷ items)) (length-flatten_pos (item ∷ items) e))

-- pack returns chunks of 32 bytes each. Together they are the bytes of the items and zero bytes behind
-- them: as many as complete the last chunk, and a whole chunk where the items have no bytes. The
-- items are chunks already, or the first of them is not 32 bytes long.
pub pack-Packed : (items : List Buf) → Packable items → Packed (pack items) (flatten items)
unfolding pack flatten
pack-Packed [] h = (zero_chunk ∷ [], refl, one_chunk zero_chunk refl)
pack-Packed (item ∷ items) h = elim (Bool-cases (all_empty (item ∷ items))) [
  | inl e ↦ pack_none item items e
  | inr e ↦ pack_full item items e h
]

pub Packable-one : (bs : Buf) → Packable (bs ∷ [])
Packable-one bs = elim (Bool-cases (length bs == 32)) [
  | inl e ↦ inl (Whole.whole (ground (arith, e)) Whole.nothing)
  | inr e ↦ inr (ground (arith, e))
]
