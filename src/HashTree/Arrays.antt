-- ===== src/HashTree/Arrays.antt =====
-- The Root methods of arrays whose items are no numbers, for HashTree.antt.
use go_ssz.Prelude.{ℕ, suc, ◌+◌, ◌*◌, ◌≤◌, ◌<◌, ◌≡◌, refl, sym, ◌∙◌, arith, List, [], ◌∷◌, length}
use go_ssz.Prelude.{Result, ok, Bool, false, ◌==◌, ◌>>=◌ as bind}
use go_ssz.Prelude.{Bool-cases, inl, inr, ◌⊎◌, err, panic, stuck}
use go_ssz.Buffer.{Buf}
use go_ssz.Reflect.{Typ, Val, Vals, Text, kind, items, elem_type, count_vals}
use go_ssz.Size.{is_basic_type, is_basic_type_array, is_root}
use go_ssz.Factory.{Factory}
use go_ssz.Chunks.{item_limit}
use go_ssz.Chunks.Pack.{Whole}
use go_ssz.Ssz.{Schema, Item, Items, depth, is_variable}
use go_ssz.HashTree.Capped.{Caps, HasRoot, within, or_zero_chunk}
use go_ssz.Represents.{TypeRep}
use go_ssz.Represents.Factory.{choice, array_choice}
use go_ssz.Represents.Capacities.{CapsRep, max_capacity}
use go_ssz.Hashing.{Env, Hashing, done, ◌>>=◌}
use go_ssz.RootArrays.{is_cached_key, key_elements}
use go_ssz.SequenceRoots.{
  Hasher, hash_items, packed_root, first_factory, elem_size, basic_array_root, composite_array_root,
  array_root_of, store_array_root,
}
use go_ssz.HashTree.{root_with}
use go_ssz.HashTree.Calls.{Laws, Gives, lift-Gives, bind-Gives}
use go_ssz.HashTree.Leaves.{IsRoot, Finds, within-IsRoot, is_basic_type-is_number}
use go_ssz.HashTree.Items.{
  EachFinds, AreRoots, items-AllFound, packed-Gives, pack_roots, first-EachFinds,
}

pub not_basic_size :
    (f : ℕ) (v : Val) (t : Typ) → is_basic_type (kind t) ≡ false → elem_size f v t ≡ ok 32
unfolding elem_size
not_basic_size f v t b = rw b refl

array_limit : (n : ℕ) → n < max_capacity → item_limit n 32 ≡ n
unfolding item_limit
array_limit n h = omega (arith, h)

-- The choice among the factories of arrays whose items are no numbers and no roots
array_cases :
    (t : Typ) (b : Bool)
    → is_basic_type (kind t) ≡ false
    → is_root t ≡ false
    → (array_choice t b ≡ Factory.basic_array) ⊎ (array_choice t b ≡ Factory.composite_array)
unfolding array_choice
array_cases t b e h = elim (Bool-cases (is_basic_type_array t)) [
  | inl p ↦ inl (rw (e, h, p) refl)
  | inr p ↦ elim (Bool-cases b) [
    | inl q ↦ inr (rw (e, h, p, q) refl)
    | inr q ↦ inl (rw (e, h, p, q) refl)
  ]
]

module _ (env : Env) (laws : Laws env) where
  abbrev pub vector_root : Result (List Buf) → Result Buf
  vector_root r = bind r λ roots. within env.sha env.merkleize (length roots) roots

  not_empty : (roots : List Buf) (n : ℕ) → 0 < n → length roots ≡ n → or_zero_chunk roots ≡ roots
  not_empty [] n h e = absurd (omega arith)
  not_empty (root ∷ roots) n h e = refl

  pub vector-IsRoot : (r : Result (List Buf)) → IsRoot env laws (vector_root r)
  vector-IsRoot (ok roots) a e = within-IsRoot env laws (length roots) roots a e
  vector-IsRoot (err x) a e = absurd cc
  vector-IsRoot panic a e = absurd cc
  vector-IsRoot stuck a e = absurd cc

  roots-Gives :
      (limit : ℕ → ℕ) (n : ℕ) (roots : List Buf)
      → 0 < n
      → limit n ≡ n
      → Whole roots
      → length roots ≡ n
      → Gives env (packed_root env limit roots) (within env.sha env.merkleize (length roots) roots)
  roots-Gives limit n roots p h w l =
      let e = pack_roots roots w in
      let q : limit (length roots) ≡ length roots = cc in
      rw (not_empty roots n p l, q) at (packed-Gives env laws limit roots e)

  composite_array-Gives :
      (f : ℕ) (run : Factory → Hasher env) (v : Val) {vs : Vals} {n : ℕ} (t : Typ) (name : Text)
      (max : ℕ) {g : Factory} {r : Result (List Buf)}
      → items v ≡ ok vs
      → count_vals vs ≡ n
      → 0 < n
      → n < max_capacity
      → is_basic_type (kind t) ≡ false
      → first_factory f vs t ≡ ok g
      → AreRoots env laws r (count_vals vs)
      → Gives env (hash_items env (λ u. run g u t [] 0) vs) r
      → Gives env (composite_array_root env f run v (Typ.array n t) name max) (vector_root r)
  unfolding composite_array_root elem_type
  composite_array-Gives f run v {vs} {n} t name max {g} {r} e c p l b h rs gs =
      let nz : (count_vals vs == 0) ≡ false = ground (arith, c, p) in
      rw (e, h, not_basic_size f v t b, nz)
        (bind-Gives env {k = λ roots. packed_root env (λ m. item_limit (count_vals vs) 32) roots} gs
          λ roots q.
            let (w, k) = rs roots q in
            roots-Gives (λ m. item_limit (count_vals vs) 32) (count_vals vs) roots
              (omega (arith, c, p)) (array_limit (count_vals vs) (omega (arith, c, l))) w k)

  pub not_cached : (n : ℕ) (key : Buf) → is_cached_key env n key ≡ false
  unfolding is_cached_key
  not_cached n key = rw laws.cache_off refl

  bind_done :
      {m : Hashing env Buf} {r : Result Buf} → Gives env m r → Gives env (m >>= λ root. done root) r
  bind_done {r = ok a} g =
      bind-Gives env {k = λ root. done root} {h = λ root. ok root} g
        (λ root e. lift-Gives env (ok root))
  bind_done {r = err x} g =
      bind-Gives env {k = λ root. done root} {h = λ root. ok root} g
        (λ root e. lift-Gives env (ok root))
  bind_done {r = panic} g =
      bind-Gives env {k = λ root. done root} {h = λ root. ok root} g
        (λ root e. lift-Gives env (ok root))
  bind_done {r = stuck} g =
      bind-Gives env {k = λ root. done root} {h = λ root. ok root} g
        (λ root e. lift-Gives env (ok root))

  basic_array-Gives :
      (f : ℕ) (run : Factory → Hasher env) (v : Val) {vs : Vals} {n : ℕ} (t : Typ) (name : Text)
      (max : ℕ) {g : Factory} {r : Result (List Buf)}
      → items v ≡ ok vs
      → count_vals vs ≡ n
      → 0 < n
      → first_factory f vs t ≡ ok g
      → AreRoots env laws r (count_vals vs)
      → Gives env (hash_items env (λ u. run g u t [] 0) vs) r
      → Gives env (basic_array_root env f run v (Typ.array n t) name max) (vector_root r)
  unfolding basic_array_root elem_type array_root_of store_array_root
  basic_array-Gives f run v {vs} {n} t name max {g} {r} e c p h rs gs =
      rw (e, h)
        (bind-Gives env gs λ roots q.
          let (w, k) = rs roots q in
          rw (not_cached (count_vals vs) (env.sum (key_elements roots)))
            (bind_done (roots-Gives (λ m. m) (count_vals vs) roots (omega (arith, c, p)) refl w k)))

  pub array-Finds :
      (f : ℕ) (v : Val) {vs : Vals} {n : ℕ} (t : Typ) (s : Schema) {xs : Items} {c : Caps}
      → items v ≡ ok vs
      → count_vals vs ≡ n
      → 0 < n
      → n < max_capacity
      → is_basic_type (kind t) ≡ false
      → is_root t ≡ false
      → TypeRep t s
      → CapsRep vs t s xs c
      → EachFinds env laws (λ u. root_with env f (choice t s) u t [] 0) s c vs xs
      → 4 * depth s ≤ f + 4
      → (name : Text) (max : ℕ)
      → Finds env laws
          (root_with env (suc f) (array_choice t (is_variable s)) v (Typ.array n t) name max)
          (Schema.vector n s)
          c
          max
          (Item.seq xs)
  unfolding root_with
  array-Finds f v t s e c p l b d q cs fs h name max =
      let (g, k, ks) = first-EachFinds env laws cs f h (λ a u. root_with env f a u t [] 0) fs in
      let (r, hs, rs, gs) = items-AllFound env laws ks in
      let not_number = sym (is_basic_type-is_number q) ∙ b in
      elim (array_cases t (is_variable s) b d) [
        | inl o ↦ (
          vector_root r,
          HasRoot.vector not_number hs,
          vector-IsRoot r,
          rw o (basic_array-Gives f (root_with env f) v t name max e c p k rs gs),
        )
        | inr o ↦ (
          vector_root r,
          HasRoot.vector not_number hs,
          vector-IsRoot r,
          rw o (composite_array-Gives f (root_with env f) v t name max e c p l b k rs gs),
        )
      ]
