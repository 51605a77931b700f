-- ===== src/HashTree/Items.antt =====
-- The items of slices and arrays, each with its root, for HashTree.antt.
use go_ssz.Prelude.{ℕ, suc, ◌+◌, ◌*◌, ◌≤◌, ◌≡◌, refl, ap, arith, List, [], ◌∷◌, length, false}
use go_ssz.Prelude.{Result, ok, bind_ok, ◌>>=◌ as bind}
use go_ssz.Buffer.{Buf}
use go_ssz.Reflect.{Typ, Val, Vals, count_vals}
use go_ssz.Factory.{Factory}
use go_ssz.Chunks.{pack, all_empty, is_empty, bitwise_merkleize, mix_in_length, length_chunk}
use go_ssz.Chunks.Pack.{Whole, pack_whole}
use go_ssz.Ssz.{Schema, Item, Items, depth}
use go_ssz.HashTree.Capped.{Caps, HaveRoots, within, mixed, or_zero_chunk}
use go_ssz.Represents.Factory.{choice, ssz_factory-choice}
use go_ssz.Represents.Capacities.{CapsRep, CapRep-ValRep}
use go_ssz.Hashing.{Env, Hashing, lift, done, ◌>>=◌}
use go_ssz.SequenceRoots.{hash_items, packed_root, mixed_root, first_factory}
use go_ssz.HashTree.Calls.{Laws, Gives, lift-Gives, bind-Gives, ok-Gives}
use go_ssz.HashTree.Leaves.{IsRoot, Finds}

first_full : (root : Buf) (roots : List Buf) → length root ≡ 32 → all_empty (root ∷ roots) ≡ false
unfolding all_empty is_empty
first_full [] roots l = absurd (omega arith)
first_full (b ∷ bs) roots l = refl

-- Roots are whole chunks.
pub pack_roots : (roots : List Buf) → Whole roots → pack roots ≡ ok (or_zero_chunk roots)
unfolding pack
pack_roots [] w = refl
pack_roots (root ∷ roots) (Whole.whole l w) = pack_whole root roots (first_full root roots l) l

module _ (env : Env) (laws : Laws env) where
  pub data EachFinds (self : Val → Hashing env Buf) (s : Schema) (c : Caps)
      : Vals → Items → Type 0 where
    none_left : EachFinds self s c Vals.nil Items.nil
    each :
        {v : Val} {vs : Vals} {x : Item} {xs : Items}
        → Finds env laws (self v) s c 0 x
        → EachFinds self s c vs xs
        → EachFinds self s c (Vals.cons v vs) (Items.cons x xs)

  -- As many roots as items
  abbrev pub AreRoots : Result (List Buf) → ℕ → Type 0
  AreRoots r n = (roots : List Buf) → r ≡ ok roots → Whole roots × (length roots ≡ n)

  abbrev pub AllFound : (Val → Hashing env Buf) → Schema → Caps → Vals → Items → Type 0
  AllFound self s c vs xs =
      (r : Result (List Buf)) × HaveRoots env.sha env.merkleize s c xs r
      × AreRoots r (count_vals vs)
      × Gives env (hash_items env self vs) r

  no_roots : AreRoots (ok []) 0
  no_roots [] e = (Whole.nothing, refl)
  no_roots (root ∷ roots) e = absurd cc

  pub cons-AreRoots :
      {r : Result Buf} {rs : Result (List Buf)} {n : ℕ}
      → IsRoot env laws r
      → AreRoots rs n
      → AreRoots (bind r λ root. bind rs λ roots. ok (root ∷ roots)) (suc n)
  cons-AreRoots {r} {rs} {n} h hs roots e =
      let (a, p, q) = bind_ok r (λ root. bind rs λ roots. ok (root ∷ roots)) e in
      let (as', p', q') = bind_ok rs (λ roots. ok (a ∷ roots)) q in
      let (w, l) = hs as' p' in
      let t : roots ≡ a ∷ as' = cc in rw t (Whole.whole (h a p) w, ap suc l)

  pub items-AllFound :
      {self : Val → Hashing env Buf} {s : Schema} {c : Caps} {vs : Vals} {xs : Items}
      → EachFinds self s c vs xs
      → AllFound self s c vs xs
  unfolding hash_items
  items-AllFound EachFinds.none_left = (ok [], HaveRoots.no_items, no_roots, lift-Gives env (ok []))
  items-AllFound {self} (EachFinds.each {v = v} {vs = vs} (r, h, l, g) fs) =
      let (rs, hs, ls, gs) = items-AllFound fs in
      (
        bind r (λ root. bind rs λ roots. ok (root ∷ roots)),
        HaveRoots.each h hs,
        cons-AreRoots l ls,
        bind-Gives env {k = λ root. (hash_items env self vs >>= λ roots. done (root ∷ roots))} g
            (λ root e.
              bind-Gives env {k = λ roots. done (root ∷ roots)} gs
                λ roots e'. lift-Gives env (ok (root ∷ roots))),
      )

  pub packed-Gives :
      (limit : ℕ → ℕ) (leaves : List Buf) {cs : List Buf}
      → pack leaves ≡ ok cs
      → Gives env
          (packed_root env limit leaves)
          (within env.sha env.merkleize (limit (length cs)) cs)
  unfolding packed_root bitwise_merkleize
  packed-Gives limit leaves {cs} e =
      ok-Gives env
        (λ cs. lift (bitwise_merkleize env.sha env.merkleize cs (length cs) (limit (length cs)))) e
        (lift-Gives env (within env.sha env.merkleize (limit (length cs)) cs))

  pub mixed-Gives :
      (limit : ℕ → ℕ) (n : ℕ) (leaves : List Buf) {cs : List Buf}
      → pack leaves ≡ ok cs
      → Gives env
          (mixed_root env limit n leaves)
          (mixed env.sha env.merkleize (limit (length cs)) n cs)
  unfolding mixed_root mix_in_length
  mixed-Gives limit n leaves e =
      bind-Gives env {k = λ root. done (mix_in_length env.sha env.merkleize root (length_chunk n))}
        (packed-Gives limit leaves e) λ root h. lift-Gives env (ok (env.sha _))

  -- The factory of the items, found by the first
  pub first-EachFinds :
      {vs : Vals} {t : Typ} {s : Schema} {xs : Items} {c : Caps}
      → CapsRep vs t s xs c
      → (f : ℕ) → 4 * depth s ≤ f + 4
      → (self : Factory → Val → Hashing env Buf) → EachFinds (self (choice t s)) s c vs xs
      → (g : Factory) × (first_factory f vs t ≡ ok g) × EachFinds (self g) s c vs xs
  unfolding first_factory
  first-EachFinds CapsRep.no_vals f h self fs = (Factory.basic, refl, EachFinds.none_left)
  first-EachFinds {t = t} {s = s} (CapsRep.each r rs) f h self fs =
      (choice t s, ssz_factory-choice (CapRep-ValRep r) f h, fs)
