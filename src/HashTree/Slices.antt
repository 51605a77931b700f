-- ===== src/HashTree/Slices.antt =====
-- The Root methods of slices whose items are no numbers, for HashTree.antt.
use go_ssz.Prelude.{ℕ, suc, ◌+◌, ◌*◌, ◌≤◌, ◌<◌, ◌≡◌, refl, sym, ◌∙◌, arith, List, []}
use go_ssz.Prelude.{Result, ok, Bool, true, false, ◌==◌, ◌&&◌, if◌then◌else◌, ◌>>=◌ as bind}
use go_ssz.Prelude.{Bool-cases, inl, inr, err, panic, stuck}
use go_ssz.Buffer.{Buf, le_bytes}
use go_ssz.Reflect.{Typ, Val, Vals, Text, kind, items, elem_type, type_of, count_vals}
use go_ssz.Size.{is_basic_type}
use go_ssz.Factory.{Factory}
use go_ssz.Chunks.{bitwise_merkleize, item_limit, length_chunk, mix_in_length}
use go_ssz.Ssz.{Schema, Item, Items, depth, count_items, is_variable}
use go_ssz.HashTree.Capped.{Caps, HaveRoots, HasRoot, mixed, list_root, chunk_limit, or_zero_chunk}
use go_ssz.Represents.{TypeRep, OwnSize, AllOwnSize, byte_typ}
use go_ssz.Represents.Factory.{choice, slice_choice}
use go_ssz.Represents.Capacities.{CapsRep, max_capacity, count_caps}
use go_ssz.Hashing.{Env}
use go_ssz.SequenceRoots.{
  Hasher, hash_items, mixed_root, first_factory, slice_limit, basic_slice_root,
  composite_slice_root, no_items_root, slice_leaf,
}
use go_ssz.HashTree.{root_with}
use go_ssz.HashTree.Calls.{Laws, Gives, bind-Gives}
use go_ssz.HashTree.Leaves.{IsRoot, Finds, mixed-IsRoot, is_basic_type-is_number}
use go_ssz.HashTree.Items.{
  EachFinds, AreRoots, items-AllFound, mixed-Gives, pack_roots, first-EachFinds,
}
use go_ssz.HashTree.Arrays.{not_basic_size}

-- The type of an item is as little that of a number as the item type.
own_kind :
    {v : Val} {t : Typ}
    → OwnSize v t
    → is_basic_type (kind t) ≡ false
    → (u : Typ) × (type_of v ≡ ok u) × (is_basic_type (kind u) ≡ false)
unfolding type_of is_basic_type kind
own_kind (OwnSize.same {t = t} e) b = (t, e, b)
own_kind OwnSize.bytes b = (Typ.slice byte_typ, refl, refl)

limit_lem : (max n : ℕ) → max < max_capacity → slice_limit max 32 n ≡ chunk_limit max 32 n
unfolding slice_limit item_limit
limit_lem max n h = ground (arith, h)

composite_limit :
    (max n : ℕ)
    → (n == 0 && max == 0) ≡ false
    → (if max == 0 then n else max) ≡ chunk_limit max 32 n
composite_limit max n h = ground (arith, h)

module _ (env : Env) (laws : Laws env) where
  list_root-IsRoot :
      (b : Bool) (max n : ℕ) (roots : List Buf)
      → IsRoot env laws (list_root env.sha env.merkleize b max n roots)
  list_root-IsRoot b max n roots = elim (Bool-cases (b && (n == 0 && max == 0))) [
    | inl e ↦ rw e (mixed-IsRoot env laws 0 0 [])
    | inr e ↦ rw e (mixed-IsRoot env laws (chunk_limit max 32 n) n (or_zero_chunk roots))
  ]

  sequence-IsRoot :
      (b : Bool) (max n : ℕ) (r : Result (List Buf))
      → IsRoot env laws (bind r λ roots. list_root env.sha env.merkleize b max n roots)
  sequence-IsRoot b max n (ok roots) a e = list_root-IsRoot b max n roots a e
  sequence-IsRoot b max n (err x) a e = absurd cc
  sequence-IsRoot b max n panic a e = absurd cc
  sequence-IsRoot b max n stuck a e = absurd cc

  none_HaveRoots :
      {s : Schema} {c : Caps} {xs : Items} {r : Result (List Buf)}
      → HaveRoots env.sha env.merkleize s c xs r
      → count_items xs ≡ 0
      → r ≡ ok []
  none_HaveRoots HaveRoots.no_items e = refl
  none_HaveRoots (HaveRoots.each h hs) e = absurd (omega arith)

  -- basicSliceSSZ hashes an item that is no number.
  slice_leaves :
      (f : ℕ) (run : Factory → Hasher env) (g : Factory) (t : Typ) (name : Text) {s : Schema}
      {c : Caps} {vs : Vals} {xs : Items}
      → is_basic_type (kind t) ≡ false
      → AllOwnSize vs t
      → EachFinds env laws (λ u. run g u t name 0) s c vs xs
      → EachFinds env laws (slice_leaf env f run g t 32 name) s c vs xs
  unfolding slice_leaf
  slice_leaves f run g t name b o EachFinds.none_left = EachFinds.none_left
  slice_leaves f run g t name b (AllOwnSize.each o os) (EachFinds.each (r, h, l, gs) fs) =
      let (u, p, q) = own_kind o b in
      EachFinds.each (r, h, l, (rw (p, q) gs)) (slice_leaves f run g t name b os fs)

  basic_slice-Gives :
      (f : ℕ) (run : Factory → Hasher env) (v : Val) {vs : Vals} (t : Typ) (name : Text) (max : ℕ)
      {g : Factory} {r : Result (List Buf)}
      → items v ≡ ok vs
      → is_basic_type (kind t) ≡ false
      → max < max_capacity
      → first_factory f vs t ≡ ok g
      → AreRoots env laws r (count_vals vs)
      → Gives env (hash_items env (slice_leaf env f run g t 32 name) vs) r
      → Gives env
          (basic_slice_root env f run v (Typ.slice t) name max)
          (bind r λ roots. list_root env.sha env.merkleize false max (count_vals vs) roots)
  unfolding basic_slice_root elem_type
  basic_slice-Gives f run v {vs} t name max {g} {r} e b l h rs gs =
      rw (e, h, not_basic_size f v t b, limit_lem max (count_vals vs) l)
        (bind-Gives env
          {k = λ roots.
            mixed_root env (λ m. chunk_limit max 32 (count_vals vs)) (count_vals vs) roots}
          gs
          λ roots q.
            let (w, k) = rs roots q in
            mixed-Gives env laws (λ m. chunk_limit max 32 (count_vals vs)) (count_vals vs) roots
              (pack_roots roots w))

  no_items_root-Gives : Gives env (no_items_root env) (mixed env.sha env.merkleize 0 0 [])
  unfolding no_items_root bitwise_merkleize mix_in_length length_chunk le_bytes
  no_items_root-Gives w h = (w, refl, h)

  composite_slice-Gives :
      (f : ℕ) (run : Factory → Hasher env) (v : Val) {vs : Vals} (t : Typ) (name : Text) (max : ℕ)
      {g : Factory} {r : Result (List Buf)}
      → items v ≡ ok vs
      → first_factory f vs t ≡ ok g
      → AreRoots env laws r (count_vals vs)
      → (count_vals vs ≡ 0 → r ≡ ok [])
      → Gives env (hash_items env (λ u. run g u t name 0) vs) r
      → Gives env
          (composite_slice_root env f run v (Typ.slice t) name max)
          (bind r λ roots. list_root env.sha env.merkleize true max (count_vals vs) roots)
  unfolding composite_slice_root elem_type
  composite_slice-Gives f run v {vs} t name max {g} {r} e h rs z gs =
      elim (Bool-cases (count_vals vs == 0 && max == 0)) [
        | inl q ↦
            let n : count_vals vs ≡ 0 = ground (arith, q) in rw (e, q, z n) no_items_root-Gives
        | inr q ↦
            rw (e, q, h, composite_limit max (count_vals vs) q)
              (bind-Gives env
                {k = λ roots.
                  mixed_root env (λ m. chunk_limit max 32 (count_vals vs)) (count_vals vs) roots}
                gs
                λ roots i.
                  let (w, k) = rs roots i in
                  mixed-Gives env laws (λ m. chunk_limit max 32 (count_vals vs)) (count_vals vs)
                    roots (pack_roots roots w))
      ]

  pub slice-Finds :
      (f : ℕ) (v : Val) {vs : Vals} (t : Typ) (s : Schema) {xs : Items} {c : Caps}
      → items v ≡ ok vs
      → is_basic_type (kind t) ≡ false
      → TypeRep t s
      → AllOwnSize vs t
      → CapsRep vs t s xs c
      → (name : Text) → EachFinds env laws (λ u. root_with env f (choice t s) u t name 0) s c vs xs
      → 4 * depth s ≤ f + 4
      → (max : ℕ) → max < max_capacity
      → Finds env laws
          (root_with env (suc f) (slice_choice t (is_variable s)) v (Typ.slice t) name max)
          (Schema.list s)
          c
          max
          (Item.seq xs)
  unfolding root_with slice_choice
  slice-Finds f v t s {xs} e b q o cs name fs h max l =
      let (g, k, ks) = first-EachFinds env laws cs f h (λ a u. root_with env f a u t name 0) fs in
      let not_number = sym (is_basic_type-is_number q) ∙ b in
      let n = count_caps cs in
      elim (Bool-cases (is_variable s)) [
        | inl i ↦
            let (r, hs, rs, gs) = items-AllFound env laws ks in
            (
              (bind r λ roots.
                  list_root env.sha env.merkleize (is_variable s) max (count_items xs) roots),
              HasRoot.list not_number hs,
              sequence-IsRoot (is_variable s) max (count_items xs) r,
              rw (b, i, sym n)
                  (composite_slice-Gives f (root_with env f) v t name max e k rs
                    (λ z. none_HaveRoots hs (sym n ∙ z)) gs),
            )
        | inr i ↦
            let (r, hs, rs, gs) =
              items-AllFound env laws (slice_leaves f (root_with env f) g t name b o ks) in
            (
              (bind r λ roots.
                  list_root env.sha env.merkleize (is_variable s) max (count_items xs) roots),
              HasRoot.list not_number hs,
              sequence-IsRoot (is_variable s) max (count_items xs) r,
              rw (b, i, sym n) (basic_slice-Gives f (root_with env f) v t name max e b l k rs gs),
            )
      ]
