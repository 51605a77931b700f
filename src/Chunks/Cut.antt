-- ===== src/Chunks/Cut.antt =====
-- The chunks that the loop of pack cuts, and the padding of the last.
use go_ssz.Prelude.{ℕ, zero, suc, ◌+◌, ◌-◌, ◌%◌, ◌≤◌, ◌<◌, ◌≡◌, refl, arith, Bool-cases}
use go_ssz.Prelude.{
  List, [], ◌∷◌, ◌++◌, append_assoc, append-nil, length, take, drop, replicate, ok,
}
use go_ssz.Prelude.{
  take-append, drop-append, take-append-drop, length-take, length-drop, length-append,
  length-replicate,
}
use go_ssz.Prelude.{if◌then◌else◌, ◌==◌, leb, Result, inl, inr, ◌⊎◌, ap, subst}
use go_ssz.Buffer.{Buf}
use go_ssz.Chunks.{cut_chunks, pad_last}

-- Chunks of 32 bytes, and the bytes that they hold together.
pub data InChunks : List Buf → Buf → Type 0 where
  no_chunk : InChunks [] []
  chunk :
      (c : Buf) {cs : List Buf} {bs : Buf}
      → length c ≡ 32
      → InChunks cs bs
      → InChunks (c ∷ cs) (c ++ bs)

-- The zero bytes behind n bytes: none bring the bytes to a whole chunk.
abbrev pub padding : ℕ → Buf
padding n = replicate (if n == 0 then 32 else (32 - n % 32) % 32) 0

abbrev pub Packed : Result (List Buf) → Buf → Type 0
Packed r bs = (cs : List Buf) × (r ≡ ok cs) × InChunks cs (bs ++ padding (length bs))

abbrev length_of : Buf → ℕ
length_of bs = length bs

pub length_bytes : (xs ys : Buf) → length (xs ++ ys) ≡ length xs + length ys
length_bytes = length-append

pub one_chunk : (c : Buf) → length c ≡ 32 → InChunks (c ∷ []) c
one_chunk c h =
    subst (λ (t : Buf). InChunks (c ∷ []) t) (append-nil c) (InChunks.chunk c h InChunks.no_chunk)

padding_short : (n : ℕ) → 0 < n → n ≤ 32 → padding n ≡ replicate (32 - n) 0
padding_short n p h = ap (λ (k : ℕ). replicate k 0) (ground arith)

padding_next : (n : ℕ) → 0 < n → padding (32 + n) ≡ padding n
padding_next n p = ap (λ (k : ℕ). replicate k 0) (ground arith)

last-Packed : (c : Buf) → 0 < length c → length c ≤ 32 → Packed (pad_last (c ∷ [])) c
unfolding pad_last
last-Packed c p h =
    let n = length-replicate {A = ℕ} (32 - length c) 0 in
    let l : length (c ++ replicate (32 - length c) 0) ≡ 32 =
      omega (arith, n, length_bytes c (replicate (32 - length c) 0)) in
    (
      (c ++ replicate (32 - length c) 0) ∷ [],
      refl,
      rw (padding_short (length c) p h) (one_chunk (c ++ replicate (32 - length c) 0) l),
    )

next-Packed :
    (c d : Buf) (ds : List Buf) (rest : Buf)
    → length c ≡ 32
    → 0 < length rest
    → Packed (pad_last (d ∷ ds)) rest
    → Packed (pad_last (c ∷ d ∷ ds)) (c ++ rest)
unfolding pad_last
next-Packed c d ds rest l p (cs, e, q) = (
  c ∷ cs,
  rw e refl,
  rw
      (
        length_bytes c rest,
        l,
        padding_next (length rest) p,
        append_assoc c rest (padding (length rest)),
      )
      (InChunks.chunk c l q),
)

cut_chunks-nil : (f : ℕ) → cut_chunks f [] ≡ []
unfolding cut_chunks
cut_chunks-nil zero = refl
cut_chunks-nil (suc f) = refl

-- How a chunk stands to the bytes behind it: it is whole, or there are none.
abbrev Cut : Buf → Buf → Type 0
Cut c rest = (length c ≡ 32) ⊎ ((rest ≡ []) × (length c ≤ 32))

length_zero : (xs : Buf) → length xs ≡ 0 → xs ≡ []
length_zero [] h = refl
length_zero (x ∷ xs) h = absurd (omega arith)

take-Cut : (xs : Buf) → Cut (take 32 xs) (drop 32 xs)
take-Cut xs =
    let n = length-take 32 xs in
    let m = length-drop 32 xs in
    elim (Bool-cases (leb 32 (length xs))) [
      | inl p ↦ inl (ground (arith, n, p))
      | inr p ↦ inr (length_zero (drop 32 xs) (ground (arith, m, p)), ground (arith, n, p))
    ]

-- The loop, after a round that cut `c` off.
cut_chunks-Packed :
    (f : ℕ) (c rest : Buf)
    → 0 < length c
    → Cut c rest
    → length rest ≤ f
    → Packed (pad_last (c ∷ cut_chunks f rest)) (c ++ rest)
unfolding cut_chunks
cut_chunks-Packed f c [] p (inl e) l =
    rw (cut_chunks-nil f, append-nil c) (last-Packed c p (omega arith))
cut_chunks-Packed f c [] p (inr (e, n)) l = rw (cut_chunks-nil f, append-nil c) (last-Packed c p n)
cut_chunks-Packed zero c (b ∷ bs) p k l = absurd (omega arith)
cut_chunks-Packed (suc f) c (b ∷ bs) p (inr (e, n)) l = absurd (omega (arith, ap length_of e))
cut_chunks-Packed (suc f) c (b ∷ bs) p (inl e) l =
    let n = length-take 32 (b ∷ bs) in
    let m = length-drop 32 (b ∷ bs) in
    let ih =
      cut_chunks-Packed f (take 32 (b ∷ bs)) (drop 32 (b ∷ bs)) (omega (arith, n))
        (take-Cut (b ∷ bs)) (omega (arith, m)) in
    let loop = take 32 (b ∷ bs) ∷ cut_chunks f (drop 32 (b ∷ bs)) in
    next-Packed c (take 32 (b ∷ bs)) (cut_chunks f (drop 32 (b ∷ bs))) (b ∷ bs) e (omega arith)
      (subst (λ (t : Buf). Packed (pad_last loop) t) (take-append-drop 32 (b ∷ bs)) ih)

pub cut-Packed : (xs : Buf) → 0 < length xs → Packed (pad_last (cut_chunks (length xs) xs)) xs
unfolding cut_chunks
cut-Packed [] p = absurd (omega arith)
cut-Packed (x ∷ xs) p =
    let n = length-take 32 (x ∷ xs) in
    let m = length-drop 32 (x ∷ xs) in
    let loop = take 32 (x ∷ xs) ∷ cut_chunks (length xs) (drop 32 (x ∷ xs)) in
    subst (λ (t : Buf). Packed (pad_last loop) t) (take-append-drop 32 (x ∷ xs))
      (cut_chunks-Packed (length xs) (take 32 (x ∷ xs)) (drop 32 (x ∷ xs)) (omega (arith, n))
        (take-Cut (x ∷ xs)) (omega (arith, m)))

front : (c d bs ds : Buf) → length c ≡ 32 → length d ≡ 32 → c ++ bs ≡ d ++ ds → c ≡ d
front c d bs ds l m e =
    let p : take 32 (c ++ bs) ≡ c = subst (λ (n : ℕ). take n (c ++ bs) ≡ c) l (take-append c bs) in
    let q : take 32 (d ++ ds) ≡ d = subst (λ (n : ℕ). take n (d ++ ds) ≡ d) m (take-append d ds) in
    cc

back : (c d bs ds : Buf) → length c ≡ 32 → length d ≡ 32 → c ++ bs ≡ d ++ ds → bs ≡ ds
back c d bs ds l m e =
    let p : drop 32 (c ++ bs) ≡ bs =
      subst (λ (n : ℕ). drop n (c ++ bs) ≡ bs) l (drop-append c bs) in
    let q : drop 32 (d ++ ds) ≡ ds =
      subst (λ (n : ℕ). drop n (d ++ ds) ≡ ds) m (drop-append d ds) in
    cc

InChunks-unique :
    {cs ds : List Buf} {as' bs : Buf} → InChunks cs as' → InChunks ds bs → as' ≡ bs → cs ≡ ds
InChunks-unique InChunks.no_chunk InChunks.no_chunk e = refl
InChunks-unique InChunks.no_chunk (InChunks.chunk d {bs = bs} m q) e =
    absurd (omega (arith, ap length_of e, length_bytes d bs))
InChunks-unique (InChunks.chunk c {bs = bs} l p) InChunks.no_chunk e =
    absurd (omega (arith, ap length_of e, length_bytes c bs))
InChunks-unique (InChunks.chunk c {bs = bs} l p) (InChunks.chunk d {bs = ds} m q) e =
    let a = front c d bs ds l m e in let b = InChunks-unique p q (back c d bs ds l m e) in cc

-- Bytes are cut in one way only.
pub chunks_unique : {cs ds : List Buf} {bs : Buf} → InChunks cs bs → InChunks ds bs → cs ≡ ds
chunks_unique p q = InChunks-unique p q refl
