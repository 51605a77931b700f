-- ===== src/HashTree/Specified.antt =====
-- The roots by capacities are those of the SSZ specification, for the limits that the program takes.
use native.Mathlib.Nat.{mul_assoc}
use go_ssz.Prelude.{
  ℕ, zero, suc, ◌+◌, ◌-◌, ◌*◌, ◌/◌, ◌%◌, ◌^◌, ◌<◌, ◌≤◌, ◌≡◌, inl, inr, refl, sym, ap, subst, ◌∙◌,
  Bool, false, List, [], ◌∷◌, length, ◌&&◌, arith,
}
use go_ssz.Prelude.{
  if◌then◌else◌, ltb, ◌==◌, Bool-cases, Result, ok, err, panic, stuck, ◌>>=◌ as bind,
  length-replicate,
}
use go_ssz.Buffer.{Buf}
use go_ssz.Chunks.Cut.{InChunks, padding, length_bytes}
use go_ssz.Ssz.{Schema, Schemas, Item, Items, is_variable, serialize, count_items}
use go_ssz.Ssz.Lengths.{length_chunk-le_bytes}
use go_ssz.Ssz.Tree.{
  Limits, LimitList, TreeRoot, TreeRoots, FieldTreeRoots, width, Chunked, within, list_within,
  numbers_within, leaves,
}
use go_ssz.HashTree.Capped.{
  Caps, FieldCaps, HasRoot, HaveRoots, FieldsHaveRoots, mixed, chunk_limit, text_limit, list_root,
  or_zero_chunk,
}
use go_ssz.HashTree.Limits.{
  Takes, TakesAll, TakesFields, number_limit, byte_limit, item_count_limit, IsClear,
}

number_limit_lem :
    (max size n : ℕ)
    → 32 / size * size ≡ 32
    → chunk_limit max size n ≡ (number_limit max size n * size + 31) / 32
number_limit_lem zero size n h =
    let m = if n == 0 then 1 else n in
    let p : m * (32 / size) * size ≡ m * 32 =
      mul_assoc m (32 / size) size ∙ ap (λ (k : ℕ). m * k) h in
    rw p (ground arith)
number_limit_lem (suc max) size n h =
    let p : 1 ≤ suc max * size = omega (arith, h) in ground (arith, p)

pub length-InChunks : {cs : List Buf} {bs : Buf} → InChunks cs bs → 32 * length cs ≡ length bs
length-InChunks InChunks.no_chunk = refl
length-InChunks (InChunks.chunk c {bs = bs} l i) =
    omega (arith, l, length_bytes c bs, length-InChunks i)

length-Chunked :
    {cs : List Buf} (bs : Buf)
    → Chunked cs bs
    → 32 * length cs ≡ length bs + (if length bs == 0 then 32 else (32 - length bs % 32) % 32)
length-Chunked bs i = omega (
  arith,
  length-InChunks i,
  length_bytes bs (padding (length bs)),
  length-replicate {A = ℕ} (if length bs == 0 then 32 else (32 - length bs % 32) % 32) 0,
)

mul_positive : (a b : ℕ) → 0 < a → 0 < b → 0 < a * b
mul_positive zero b h k = absurd (omega (arith, h))
mul_positive (suc a) zero h k = absurd (omega (arith, k))
mul_positive (suc a) (suc b) h k = omega arith

factors_positive : (a b : ℕ) → a * b ≡ 32 → (0 < a) × (0 < b)
factors_positive zero b h = absurd (omega (arith, h))
factors_positive (suc a) zero h = absurd (omega (arith, h))
factors_positive (suc a) (suc b) h = (omega arith, omega arith)

number_limit_positive : (max size n : ℕ) → 32 / size * size ≡ 32 → 0 < number_limit max size n
number_limit_positive zero size n h =
    mul_positive (if n == 0 then 1 else n) (32 / size) (ground arith)
      (factors_positive (32 / size) size h).0
number_limit_positive (suc max) size n h = ground arith

-- Where the chunks are over the limit, so are the bytes, and the other way round.
over_lem :
    {cs : List Buf} (limit : ℕ) (bs : Buf)
    → Chunked cs bs
    → 0 < limit
    → IsClear limit bs
    → ltb ((limit + 31) / 32) (length cs) ≡ ltb limit (length bs)
over_lem {cs} limit bs i p (inl h) = let e = length-Chunked bs i in ground (arith, e, p, h)
over_lem {cs} limit bs i p (inr h) = let e = length-Chunked bs i in ground (arith, e, p, h)

byte_limit_lem : (max : ℕ) → text_limit max ≡ (byte_limit max * 1 + 31) / 32
byte_limit_lem max = ground arith

byte_limit_positive : (max : ℕ) → 0 < byte_limit max * 1
byte_limit_positive max = ground arith

item_chunks :
    (max n : ℕ) → chunk_limit max 32 n ≡ (if max == 0 then (if n == 0 then 1 else n) else max)
item_chunks max n = ground arith

leaves-or_zero_chunk : (limit : ℕ) (rs : List Buf) → 0 < limit → leaves limit rs ≡ or_zero_chunk rs
leaves-or_zero_chunk limit [] h = let e : (limit == 0) ≡ false = ground (arith, h) in rw e refl
leaves-or_zero_chunk limit (root ∷ rs) h = refl

module _ (sha : Buf → Buf) (merkle : ℕ → ℕ → List Buf → Buf) where
  mixed-numbers_within :
      {cs : List Buf} (limit size n : ℕ) (bs : Buf)
      → Chunked cs bs
      → 0 < limit * size
      → IsClear (limit * size) bs
      → n < 2 ^ 64
      → mixed sha merkle ((limit * size + 31) / 32) n cs
        ≡ numbers_within sha merkle limit size n bs cs
  mixed-numbers_within {cs} limit size n bs i p c h =
      let e = over_lem (limit * size) bs i p c in
      let l = length_chunk-le_bytes n h in
      elim (Bool-cases (ltb (limit * size) (length bs))) [
        | inl q ↦ rw (e, q) refl
        | inr q ↦ rw (e, q, l) refl
      ]

  within_own :
      (cs : List Buf) → within sha merkle (length cs) cs ≡ ok (merkle (length cs) (length cs) cs)
  within_own cs = let e : ltb (length cs) (length cs) ≡ false = ground arith in rw e refl

  own_roots :
      (roots : Result (List Buf))
      → (bind roots λ rs. within sha merkle (length rs) rs)
        ≡ (bind roots λ rs. ok (merkle (length rs) (length rs) rs))
  own_roots (ok rs) = within_own rs
  own_roots (err e) = refl
  own_roots panic = refl
  own_roots stuck = refl

  list_root-list_within :
      (variable : Bool) (max n : ℕ) (rs : List Buf)
      → n < 2 ^ 64
      → (n ≡ 0 → rs ≡ [])
      → list_root sha merkle variable max n rs
        ≡ list_within sha merkle
            (item_count_limit variable max n)
            n
            (leaves (item_count_limit variable max n) rs)
  list_root-list_within variable max n rs h z =
      elim (Bool-cases (variable && (n == 0 && max == 0))) [
        | inl e ↦
            let m : n ≡ 0 = ground (arith, e) in
            let r = z m in let l = length_chunk-le_bytes 0 (omega arith) in rw (e, r, m, l) refl
        | inr e ↦
            let l = length_chunk-le_bytes n h in
            let k = item_chunks max n in
            let p : leaves (if max == 0 then (if n == 0 then 1 else n) else max) rs
                ≡ or_zero_chunk rs =
              leaves-or_zero_chunk (if max == 0 then (if n == 0 then 1 else n) else max) rs
                (ground arith) in
            rw (e, l, k, p) refl
      ]

  roots-list_within :
      (variable : Bool) (max n : ℕ) (roots : Result (List Buf))
      → n < 2 ^ 64
      → (n ≡ 0 → roots ≡ ok [])
      → (bind roots λ rs. list_root sha merkle variable max n rs) ≡ (
          bind roots λ rs.
            list_within sha merkle
              (item_count_limit variable max n)
              n
              (leaves (item_count_limit variable max n) rs))
  roots-list_within variable max n (ok rs) h z =
      list_root-list_within variable max n rs h (λ e. let q = z e in cc)
  roots-list_within variable max n (err e) h z = refl
  roots-list_within variable max n panic h z = refl
  roots-list_within variable max n stuck h z = refl

  no_roots :
      {s : Schema} {c : Caps} {xs : Items} {roots : Result (List Buf)}
      → HaveRoots sha merkle s c xs roots
      → count_items xs ≡ 0
      → roots ≡ ok []
  no_roots HaveRoots.no_items e = refl
  no_roots (HaveRoots.each h hs) e = absurd (omega (arith, e))

  -- The same outcome, spelled as the specification has it
  respell :
      {s : Schema} {l : Limits} {x : Item} {q r : Result Buf}
      → r ≡ q
      → TreeRoot sha merkle s l x q
      → TreeRoot sha merkle s l x r
  respell {s} {l} {x} e h = subst (λ (r : Result Buf). TreeRoot sha merkle s l x r) (sym e) h

  mutual
    pub HasRoot-TreeRoot :
        {s : Schema} {c : Caps} {max : ℕ} {x : Item} {l : Limits} {r : Result Buf}
        → HasRoot sha merkle s c max x r
        → Takes s c max x l
        → TreeRoot sha merkle s l x r
    HasRoot-TreeRoot (HasRoot.packed {cs = cs} p i) (Takes.packed p') =
        respell (within_own cs) (TreeRoot.packed p i)
    HasRoot-TreeRoot (HasRoot.packed p i) (Takes.numbers q d n c) = absurd cc
    HasRoot-TreeRoot (HasRoot.packed p i) (Takes.text n c) = absurd cc
    HasRoot-TreeRoot (HasRoot.packed p i) (Takes.vector n ts) = absurd cc
    HasRoot-TreeRoot (HasRoot.packed p i) (Takes.list q n ts) = absurd cc
    HasRoot-TreeRoot (HasRoot.packed p i) (Takes.container ts) = absurd cc
    HasRoot-TreeRoot (HasRoot.number_list p i) (Takes.packed q) = absurd cc
    HasRoot-TreeRoot (HasRoot.number_list {s = s} {max = max} {xs = xs} {cs = cs} p i)
          (Takes.numbers p' d n c) =
        let limit = number_limit max (width s) (count_items xs) in
        let bs = serialize (Schema.list s) (Item.seq xs) in
        let k = number_limit_positive max (width s) (count_items xs) d in
        let m = mul_positive limit (width s) k (factors_positive (32 / width s) (width s) d).1 in
        respell
          (ap (λ (a : ℕ). mixed sha merkle a (count_items xs) cs)
              (number_limit_lem max (width s) (count_items xs) d)
            ∙ mixed-numbers_within limit (width s) (count_items xs) bs i m c n)
          (TreeRoot.numbers p k i)
    HasRoot-TreeRoot (HasRoot.number_list p i) (Takes.list q n ts) = absurd cc
    HasRoot-TreeRoot (HasRoot.text i) (Takes.packed q) = absurd cc
    HasRoot-TreeRoot (HasRoot.text {max = max} {xs = xs} {cs = cs} i) (Takes.text n c) =
        let bs = serialize (Schema.list (Schema.uint 1)) (Item.seq xs) in
        respell
          (ap (λ (a : ℕ). mixed sha merkle a (count_items xs) cs) (byte_limit_lem max)
            ∙ mixed-numbers_within (byte_limit max) 1 (count_items xs) bs i
                (byte_limit_positive max) c n)
          (TreeRoot.numbers refl (ground arith) i)
    HasRoot-TreeRoot (HasRoot.text i) (Takes.list q n ts) = absurd cc
    HasRoot-TreeRoot (HasRoot.vector p hs) (Takes.packed q) = absurd cc
    HasRoot-TreeRoot (HasRoot.vector {roots = roots} p hs) (Takes.vector p' ts) =
        respell (own_roots roots) (TreeRoot.vector p (HaveRoots-TreeRoots hs ts))
    HasRoot-TreeRoot (HasRoot.list p hs) (Takes.packed q) = absurd cc
    HasRoot-TreeRoot (HasRoot.list p hs) (Takes.numbers q d n c) = absurd cc
    HasRoot-TreeRoot (HasRoot.list p hs) (Takes.text n c) = absurd cc
    HasRoot-TreeRoot (HasRoot.list {s = s} {max = max} {xs = xs} {roots = roots} p hs)
          (Takes.list p' n ts) =
        respell (roots-list_within (is_variable s) max (count_items xs) roots n (no_roots hs))
          (TreeRoot.list p (HaveRoots-TreeRoots hs ts))
    HasRoot-TreeRoot (HasRoot.container hs) (Takes.packed q) = absurd cc
    HasRoot-TreeRoot (HasRoot.container {roots = roots} hs) (Takes.container ts) =
        respell (own_roots roots) (TreeRoot.container (FieldsHaveRoots-FieldTreeRoots hs ts))

    HaveRoots-TreeRoots :
        {s : Schema} {c : Caps} {xs : Items} {ls : LimitList} {roots : Result (List Buf)}
        → HaveRoots sha merkle s c xs roots
        → TakesAll s c xs ls
        → TreeRoots sha merkle s ls xs roots
    HaveRoots-TreeRoots HaveRoots.no_items TakesAll.no_items = TreeRoots.no_items
    HaveRoots-TreeRoots (HaveRoots.each h hs) (TakesAll.each t ts) =
        TreeRoots.each (HasRoot-TreeRoot h t) (HaveRoots-TreeRoots hs ts)

    pub FieldsHaveRoots-FieldTreeRoots :
        {ss : Schemas} {cs : FieldCaps} {xs : Items} {ls : LimitList} {roots : Result (List Buf)}
        → FieldsHaveRoots sha merkle ss cs xs roots
        → TakesFields ss cs xs ls
        → FieldTreeRoots sha merkle ss ls xs roots
    FieldsHaveRoots-FieldTreeRoots FieldsHaveRoots.no_fields TakesFields.no_fields =
        FieldTreeRoots.no_fields
    FieldsHaveRoots-FieldTreeRoots (FieldsHaveRoots.keep h hs) (TakesFields.keep t ts) =
        FieldTreeRoots.keep (HasRoot-TreeRoot h t) (FieldsHaveRoots-FieldTreeRoots hs ts)
