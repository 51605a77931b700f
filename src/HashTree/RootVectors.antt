-- ===== src/HashTree/RootVectors.antt =====
-- The Root method of arrays of 32-byte arrays, where the caches of arrays are off, for HashTree.antt.
use go_ssz.Prelude.{
  ℕ, zero, suc, ◌+◌, ◌*◌, ◌^◌, ◌≤◌, ◌<◌, ◌≡◌, refl, sym, ap, ◌∙◌, subst, arith, List, [], ◌∷◌, ◌++◌,
  length,
}
use go_ssz.Prelude.{append-nil, ◌&&◌, ok, Bool, false, none, bind_ok, Bool-cases, inl, inr, leb}
use go_ssz.Buffer.{Buf}
use go_ssz.Reflect.{Typ, Val, Vals, Text, items, count_vals}
use go_ssz.Marshal.{to_bytes32, root_bytes}
use go_ssz.Marshal.Bytes.{to_bytes32_lem, root_bytes-concat}
use go_ssz.Marshal.Loops.{join-concat}
use go_ssz.Layers.{merkleize, pair_layer}
use go_ssz.Layers.Recompute.{Layered}
use go_ssz.Layers.Built.{merkleize-Layered, padded, length-padded}
use go_ssz.Layers.Powers.{power_monotone}
use go_ssz.Chunks.Pack.{Whole}
use go_ssz.Chunks.Cut.{InChunks, padding, one_chunk}
use go_ssz.Ssz.{Schema, Item, Items, serialize}
use go_ssz.HashTree.Capped.{Caps, HasRoot, HaveRoots}
use go_ssz.Represents.{ValRep, ValsRep, byte_typ, byte_schema}
use go_ssz.Represents.Capacities.{max_capacity}
use go_ssz.Hashing.{Env}
use go_ssz.RootArrays.{
  roots_array_root, tracked_root, items_root, leaves_root, is_named, unchanged_root, root_of_leaves,
  merkleized, keep_root, scan_leaves, is_changed, key_elements,
}
use go_ssz.HashTree.{root_with}
use go_ssz.HashTree.Calls.{Laws, Gives}
use go_ssz.HashTree.Leaves.{Finds, within_all}
use go_ssz.HashTree.Arrays.{vector_root, vector-IsRoot, not_cached}
use go_ssz.Factory.{Factory}

-- The root of layers is a hash where there are two of them at least.
root_hash :
    (sha : Buf → Buf) {root : Buf} (layer : List Buf) {next : List Buf} {rest : List (List Buf)}
    → pair_layer sha layer ≡ ok next
    → Layered sha root (next ∷ rest)
    → (bs : Buf) × (root ≡ sha bs)
unfolding pair_layer
root_hash sha [] e (Layered.top root) = absurd cc
root_hash sha (a ∷ []) e (Layered.top root) = absurd cc
root_hash sha {root} (a ∷ b ∷ layer) e (Layered.top root') =
    let (hs, p, q) = bind_ok (pair_layer sha layer) (λ above. ok (sha (a ++ b) ∷ above)) e in
    (a ++ b, cc)
root_hash sha layer e (Layered.above next above p l) = root_hash sha next p l

Layered_same :
    (sha : Buf → Buf) {root root' : Buf} {l l' : List Buf} {ls ls' : List (List Buf)}
    → Layered sha root (l ∷ ls)
    → Layered sha root' (l' ∷ ls')
    → l ≡ l'
    → root ≡ root'
unfolding pair_layer
Layered_same sha (Layered.top r) (Layered.top r') e = cc
Layered_same sha (Layered.top r) (Layered.above layer next p q) e =
    let h : pair_layer sha (r ∷ []) ≡ ok next =
      subst (λ (l : List Buf). pair_layer sha l ≡ ok next) (sym e) p in
    absurd cc
Layered_same sha (Layered.above layer next p q) (Layered.top r) e =
    let h : pair_layer sha (r ∷ []) ≡ ok next =
      subst (λ (l : List Buf). pair_layer sha l ≡ ok next) e p in
    absurd cc
Layered_same sha (Layered.above layer next p q) (Layered.above layer' next' p' q') e =
    let r = subst (λ (l : List Buf). pair_layer sha l ≡ ok next) e p in
    let h : next ≡ next' = cc in Layered_same sha q q' h

-- Layers have one root.
pub root_unique :
    (sha : Buf → Buf) {root root' : Buf} {l : List Buf} {ls ls' : List (List Buf)}
    → Layered sha root (l ∷ ls)
    → Layered sha root' (l ∷ ls')
    → root ≡ root'
root_unique sha p q = Layered_same sha p q refl

-- A power of two that the number does not exceed, below its double
power_cover : (n : ℕ) → 0 < n → (k : ℕ) × (n ≤ 2 ^ k) × (2 ^ k < 2 * n)
power_cover zero p = absurd (omega arith)
power_cover (suc zero) p = (0, omega arith, omega arith)
power_cover (suc (suc n)) p =
    let (k, l, m) = power_cover (suc n) (omega arith) in
    elim (Bool-cases (leb (suc (suc n)) (2 ^ k))) [
      | inl h ↦ (k, ground (arith, h), omega (arith, m))
      | inr h ↦ (suc k, ground (arith, h, l, m), ground (arith, h, l, m))
    ]

power_bound : (n k : ℕ) → n < max_capacity → 2 ^ k < 2 * n → k < 64
power_bound n k h m = elim (Bool-cases (leb 64 k)) [
  | inl l ↦ absurd (ground (arith, h, m, l, power_monotone 63 k (ground (arith, l))))
  | inr l ↦ ground (arith, l)
]

-- It has 32 bytes.
pub Layered-to_bytes32 :
    (sha : Buf → Buf)
    → ((bs : Buf) → length (sha bs) ≡ 32)
    → {layer : List Buf} {root : Buf} {layers : List (List Buf)} → Layered sha root (layer ∷ layers)
    → 2 ≤ length layer
    → to_bytes32 root ≡ root
Layered-to_bytes32 sha n (Layered.top root) h = absurd (omega arith)
Layered-to_bytes32 sha n {root = root} (Layered.above layer next p l) h =
    let (bs, e) = root_hash sha layer p l in
    to_bytes32_lem root (ap (λ (b : Buf). length b) e ∙ n bs)

-- The bytes of an item, which are a root
root_item :
    {v : Val} {x : Item}
    → ValRep v (Typ.array 32 byte_typ) (Schema.vector 32 byte_schema) x
    → (root_bytes v ≡ ok (serialize (Schema.vector 32 byte_schema) x))
      × (length (serialize (Schema.vector 32 byte_schema) x) ≡ 32)
unfolding serialize
root_item (ValRep.array {xs = xs} e c u r o rs) = cc
root_item (ValRep.byte_array {xs = xs} c r) =
    rw (join-concat byte_schema xs refl) (root_bytes-concat (ValRep.byte_array c r))
root_item (ValRep.byte_slice {xs = xs} c r) =
    rw (join-concat byte_schema xs refl) (root_bytes-concat (ValRep.byte_slice c r))
root_item (ValRep.nil_bytes {xs = xs} e) =
    rw (join-concat byte_schema xs refl) (root_bytes-concat (ValRep.nil_bytes e))

module _ (env : Env) (laws : Laws env) where
  many_lem :
      (cs : List Buf)
      → Whole cs
      → 2 ≤ length cs
      → length cs < max_capacity
      → (built : List (List Buf)) × (merkleize env.sha (2 * length cs + 2) cs
          ≡ ok (env.merkleize (length cs) (length cs) cs, built))
  many_lem cs chunks m b =
      let (k, l, h) = power_cover (length cs) (omega (arith, m)) in
      let small = power_bound (length cs) k b h in
      let (root, layers, e, q) =
        merkleize-Layered env.sha cs m k small l h (2 * length cs + 2) (omega (arith, h)) in
      let root' =
        Layered-to_bytes32 env.sha laws.length_sha q
          (omega (arith, m, l, length-padded cs (2 ^ k) l)) in
      let same = laws.merkleizes cs k chunks m small l h root layers q in
      (
        padded cs (2 ^ k) ∷ layers,
        e ∙ ap (λ (b : Buf). ok (b, padded cs (2 ^ k) ∷ layers)) (root' ∙ sym same),
      )

  -- The method merkleize finds what Merkleize finds.
  merkleize_lem :
      (cs : List Buf)
      → 0 < length cs
      → length cs < max_capacity
      → Whole cs
      → (built : List (List Buf)) × (merkleize env.sha (2 * length cs + 2) cs
          ≡ ok (env.merkleize (length cs) (length cs) cs, built))
  unfolding merkleize
  merkleize_lem [] p b h = absurd (omega arith)
  merkleize_lem (c ∷ []) p b (Whole.whole l h) =
      ([], rw (to_bytes32_lem c l, laws.one_leaf c l) refl)
  merkleize_lem (c ∷ d ∷ cs) p b h = many_lem (c ∷ d ∷ cs) h (omega arith) b

  -- The leaves: the bytes of the roots
  abbrev leaves_of : Items → List Buf
  leaves_of Items.nil = []
  leaves_of (Items.cons x xs) = serialize (Schema.vector 32 byte_schema) x ∷ leaves_of xs

  roots_scan :
      {vs : Vals} {xs : Items}
      → ValsRep vs (Typ.array 32 byte_typ) (Schema.vector 32 byte_schema) xs
      → (i : ℕ) → scan_leaves none i vs ≡ ok (leaves_of xs, [])
  unfolding scan_leaves is_changed
  roots_scan ValsRep.no_vals i = refl
  roots_scan (ValsRep.each r rs) i = let (e, l) = root_item r in rw (e, roots_scan rs (suc i)) refl

  length-leaves_of :
      {vs : Vals} {t : Typ} {s : Schema} {xs : Items}
      → ValsRep vs t s xs
      → length (leaves_of xs) ≡ count_vals vs
  length-leaves_of ValsRep.no_vals = refl
  length-leaves_of (ValsRep.each r rs) = ap suc (length-leaves_of rs)

  leaves_of-Whole :
      {vs : Vals} {xs : Items}
      → ValsRep vs (Typ.array 32 byte_typ) (Schema.vector 32 byte_schema) xs
      → Whole (leaves_of xs)
  leaves_of-Whole ValsRep.no_vals = Whole.nothing
  leaves_of-Whole (ValsRep.each r rs) =
      let (q, l) = root_item r in Whole.whole l (leaves_of-Whole rs)

  untracked-Gives :
      (v : Val) {vs : Vals} {xs : Items} (name : Text)
      → items v ≡ ok vs
      → ValsRep vs (Typ.array 32 byte_typ) (Schema.vector 32 byte_schema) xs
      → 0 < count_vals vs
      → count_vals vs < max_capacity
      → Gives env
          (tracked_root env false v name)
          (ok (env.merkleize (length (leaves_of xs)) (length (leaves_of xs)) (leaves_of xs)))
  unfolding tracked_root items_root leaves_root unchanged_root root_of_leaves merkleized keep_root
  untracked-Gives v {vs} {xs} name e rs p b w s =
      let n = length-leaves_of rs in
      let (built, q) =
        merkleize_lem (leaves_of xs) (omega (arith, p, n)) (omega (arith, b, n))
          (leaves_of-Whole rs) in
      (
        w,
        rw
            (
              e,
              roots_scan rs 0,
              not_cached env laws (length (leaves_of xs)) (env.sum (key_elements (leaves_of xs))),
              q,
            )
            refl,
        s,
      )

  roots_array-Gives :
      (v : Val) {vs : Vals} {xs : Items} (name : Text)
      → items v ≡ ok vs
      → ValsRep vs (Typ.array 32 byte_typ) (Schema.vector 32 byte_schema) xs
      → 0 < count_vals vs
      → count_vals vs < max_capacity
      → Gives env
          (roots_array_root env v name)
          (ok (env.merkleize (length (leaves_of xs)) (length (leaves_of xs)) (leaves_of xs)))
  unfolding roots_array_root
  roots_array-Gives v {xs = xs} name e rs p b =
      let off : (env.enable_cache && is_named name) ≡ false = rw laws.cache_off refl in
      subst
        (λ (tracked : Bool).
          Gives env (tracked_root env tracked v name)
            (ok (env.merkleize (length (leaves_of xs)) (length (leaves_of xs)) (leaves_of xs))))
        (sym off) (untracked-Gives v name e rs p b)

  leaf_chunk : (bs : Buf) → length bs ≡ 32 → InChunks (bs ∷ []) (bs ++ padding (length bs))
  leaf_chunk bs l = rw (l, append-nil bs) (one_chunk bs l)

  leaves-HaveRoots :
      {vs : Vals} {xs : Items} (c : Caps)
      → ValsRep vs (Typ.array 32 byte_typ) (Schema.vector 32 byte_schema) xs
      → HaveRoots env.sha env.merkleize (Schema.vector 32 byte_schema) c xs (ok (leaves_of xs))
  leaves-HaveRoots c ValsRep.no_vals = HaveRoots.no_items
  leaves-HaveRoots c (ValsRep.each {x = x} {xs = xs} r rs) =
      let (e, l) = root_item r in
      let bs = serialize (Schema.vector 32 byte_schema) x in
      let h : HasRoot env.sha env.merkleize (Schema.vector 32 byte_schema) c 0 x
          (ok (env.merkleize 1 1 (bs ∷ []))) =
        HasRoot.packed refl (leaf_chunk bs l) in
      let hs : HaveRoots env.sha env.merkleize (Schema.vector 32 byte_schema) c (Items.cons x xs)
          (ok (env.merkleize 1 1 (bs ∷ []) ∷ leaves_of xs)) =
        HaveRoots.each h (leaves-HaveRoots c rs) in
      rw (laws.one_leaf bs l) at hs

  pub roots-Finds :
      (f : ℕ) (v : Val) {vs : Vals} {n : ℕ} {t : Typ} {s : Schema} {xs : Items} (c : Caps)
      → items v ≡ ok vs
      → count_vals vs ≡ n
      → 0 < n
      → n < max_capacity
      → t ≡ Typ.array 32 byte_typ
      → s ≡ Schema.vector 32 byte_schema
      → ValsRep vs t s xs
      → (name : Text) (max : ℕ)
      → Finds env laws
          (root_with env (suc f) Factory.roots_array v (Typ.array n t) name max)
          (Schema.vector n s)
          c
          max
          (Item.seq xs)
  unfolding root_with
  roots-Finds f v {vs} {n} {xs = xs} c e k p b h i rs name max =
      let rs' : ValsRep vs (Typ.array 32 byte_typ) (Schema.vector 32 byte_schema) xs =
        rw (h, i) at rs in
      let bound : count_vals vs < max_capacity = omega (arith, k, b) in
      rw i (
        vector_root env laws (ok (leaves_of xs)),
        HasRoot.vector refl (leaves-HaveRoots c rs'),
        vector-IsRoot env laws (ok (leaves_of xs)),
        rw (within_all env laws (leaves_of xs))
            (roots_array-Gives v name e rs' (omega (arith, k, p)) bound),
      )
