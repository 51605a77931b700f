-- ===== src/HashTree/Ends.antt =====
-- What HashTreeRoot ends in: a root, or the error for exceeding a limit.
use go_ssz.Prelude.{
  ℕ, ◌+◌, ◌*◌, ◌≤◌, ◌≡◌, refl, ◌⊎◌, inl, inr, List, [], ◌∷◌, ◌++◌, length, some, Bool,
}
use go_ssz.Prelude.{Result, ok, err, over_limit, ltb, Bool-cases, ◌>>=◌, ◌&&◌, ◌==◌}
use go_ssz.Buffer.{Buf}
use go_ssz.Reflect.{Typ, Val, type_of}
use go_ssz.Chunks.{length_chunk}
use go_ssz.Ssz.{Schema, Schemas, Item, Items, depth, is_variable, count_items}
use go_ssz.HashTree.Capped.{
  Caps, FieldCaps, HasRoot, HaveRoots, FieldsHaveRoots, within, mixed, list_root, chunk_limit,
  text_limit, width, or_zero_chunk,
}
use go_ssz.Represents.Capacities.{CapRep}
use go_ssz.Hashing.{Env, Caches}
use go_ssz.HashTree.{hash_tree_root}
use go_ssz.HashTree.Calls.{Laws, IsSound}
use go_ssz.HashTree.Exported.{hash_tree_root-ReturnsCapped}

-- A value with the property, or the error
abbrev pub EndsIn : {A : Type 0} → (A → Type 0) → Result A → Type 0
EndsIn {A} P r = ((a : A) × (r ≡ ok a) × P a) ⊎ (r ≡ err over_limit)

abbrev IsAny : {A : Type 0} → A → Type 0
IsAny a = Unit {0}

bind-EndsIn :
    {A B : Type 0} {P : A → Type 0} {Q : B → Type 0} {r : Result A} {k : A → Result B}
    → EndsIn P r
    → ((a : A) → EndsIn Q (k a))
    → EndsIn Q (r >>= k)
bind-EndsIn (inl (a, e, p)) h = rw e (h a)
bind-EndsIn (inr e) h = inr (rw e refl)

abbrev pub Has32 : Buf → Type 0
Has32 root = length root ≡ 32

module _ (env : Env) (laws : Laws env) where
  within-EndsIn : (limit : ℕ) (cs : List Buf) → EndsIn Has32 (within env.sha env.merkleize limit cs)
  within-EndsIn limit cs = elim (Bool-cases (ltb limit (length cs))) [
    | inl e ↦ inr (rw e refl)
    | inr e ↦ inl (
      env.merkleize (length cs) limit cs,
      (rw e refl),
      laws.length_merkleize (length cs) limit cs,
    )
  ]

  mixed-EndsIn :
      (limit n : ℕ) (cs : List Buf) → EndsIn Has32 (mixed env.sha env.merkleize limit n cs)
  mixed-EndsIn limit n cs =
      bind-EndsIn (within-EndsIn limit cs) λ root.
        inl (env.sha (root ++ length_chunk n), refl, laws.length_sha (root ++ length_chunk n))

  list_root-EndsIn :
      (b : Bool) (max n : ℕ) (roots : List Buf)
      → EndsIn Has32 (list_root env.sha env.merkleize b max n roots)
  list_root-EndsIn b max n roots = elim (Bool-cases (b && (n == 0 && max == 0))) [
    | inl e ↦ rw e (mixed-EndsIn 0 0 [])
    | inr e ↦ rw e (mixed-EndsIn (chunk_limit max 32 n) n (or_zero_chunk roots))
  ]

  mutual
    HasRoot-EndsIn :
        {s : Schema} {c : Caps} {max : ℕ} {x : Item} {r : Result Buf}
        → HasRoot env.sha env.merkleize s c max x r
        → EndsIn Has32 r
    HasRoot-EndsIn (HasRoot.packed {cs = cs} p i) = within-EndsIn (length cs) cs
    HasRoot-EndsIn (HasRoot.number_list {s = s} {max = max} {xs = xs} {cs = cs} p i) =
        mixed-EndsIn (chunk_limit max (width s) (count_items xs)) (count_items xs) cs
    HasRoot-EndsIn (HasRoot.text {max = max} {xs = xs} {cs = cs} i) =
        mixed-EndsIn (text_limit max) (count_items xs) cs
    HasRoot-EndsIn (HasRoot.vector n hs) =
        bind-EndsIn (HaveRoots-EndsIn hs) λ rs. within-EndsIn (length rs) rs
    HasRoot-EndsIn (HasRoot.list {s = s} {max = max} {xs = xs} n hs) =
        bind-EndsIn (HaveRoots-EndsIn hs)
          λ rs. list_root-EndsIn (is_variable s) max (count_items xs) rs
    HasRoot-EndsIn (HasRoot.container hs) =
        bind-EndsIn (FieldsHaveRoots-EndsIn hs) λ rs. within-EndsIn (length rs) rs

    HaveRoots-EndsIn :
        {s : Schema} {c : Caps} {xs : Items} {r : Result (List Buf)}
        → HaveRoots env.sha env.merkleize s c xs r
        → EndsIn IsAny r
    HaveRoots-EndsIn HaveRoots.no_items = inl ([], refl, tt)
    HaveRoots-EndsIn (HaveRoots.each h hs) =
        bind-EndsIn (HasRoot-EndsIn h)
          λ root. bind-EndsIn (HaveRoots-EndsIn hs) λ rs. inl (root ∷ rs, refl, tt)

    FieldsHaveRoots-EndsIn :
        {ss : Schemas} {cs : FieldCaps} {xs : Items} {r : Result (List Buf)}
        → FieldsHaveRoots env.sha env.merkleize ss cs xs r
        → EndsIn IsAny r
    FieldsHaveRoots-EndsIn FieldsHaveRoots.no_fields = inl ([], refl, tt)
    FieldsHaveRoots-EndsIn (FieldsHaveRoots.keep h hs) =
        bind-EndsIn (HasRoot-EndsIn h)
          λ root. bind-EndsIn (FieldsHaveRoots-EndsIn hs) λ rs. inl (root ∷ rs, refl, tt)

  -- HashTreeRoot of a value that CapRep covers, at its own type, ends, without a panic: it returns a root of
  -- 32 bytes or the error for exceeding a limit, and no other. The caches are sound, those of
  -- arrays are off, and the fuel is what the depth of the schema asks for.
  pub hash_tree_root-EndsIn :
      {v : Val} {t : Typ} {s : Schema} {x : Item} {c : Caps}
      → CapRep v t s x c
      → type_of v ≡ ok t
      → (f : ℕ) → 8 * depth s + 4 ≤ f
      → (w : Caches env) → IsSound env w
      → EndsIn Has32 (hash_tree_root env f (some v) w).0
  hash_tree_root-EndsIn r e f h w s =
      let (q, w', p, i, s') = hash_tree_root-ReturnsCapped env laws r e f h w s in
      rw p (HasRoot-EndsIn i)
