-- ===== src/HashTree/Numbers.antt =====
-- The Root method of slices of numbers, for HashTree.antt.
use go_ssz.Prelude.{
  ℕ, zero, suc, ◌+◌, ◌*◌, ◌^◌, ◌≤◌, ◌<◌, ◌≡◌, ◌≢◌, refl, sym, ap, ◌∙◌, subst, arith, List, [], ◌∷◌,
  ◌++◌, length,
}
use go_ssz.Prelude.{
  ok, true, false, replicate, if◌then◌else◌, some, inr, length-replicate, append-nil,
}
use go_ssz.Buffer.{Buf}
use go_ssz.Reflect.{Scalar, Typ, Val, Vals, Text, kind, items, elem_type, type_of, count_vals}
use go_ssz.Size.{is_basic_type, determine_fixed_size, scalar_size}
use go_ssz.Factory.{Factory}
use go_ssz.Marshal.{marshal_with}
use go_ssz.Marshal.Refines.{marshal_with-Writes}
use go_ssz.Marshal.Loops.{concat, join-concat}
use go_ssz.Buffer.Writes.{Writes}
use go_ssz.Chunks.{flatten, item_limit}
use go_ssz.Chunks.Pack.{first_item, pack-Packed}
use go_ssz.Ssz.{Schema, Item, Items, depth, count_items, is_variable, serialize}
use go_ssz.Ssz.Parts.{length-le_bytes}
use go_ssz.HashTree.Capped.{Caps, HasRoot, width, chunk_limit, mixed}
use go_ssz.Represents.{TypeRep, ValRep, ValsRep, uint_width}
use go_ssz.Represents.Size.Shapes.{width_lem}
use go_ssz.Represents.Factory.{choice, ssz_factory-choice}
use go_ssz.Represents.Capacities.{max_capacity}
use go_ssz.Hashing.{Env, done, ◌>>=◌}
use go_ssz.SequenceRoots.{
  Hasher, hash_items, mixed_root, first_factory, elem_size, slice_limit, basic_slice_root,
  slice_leaf,
}
use go_ssz.HashTree.{root_with}
use go_ssz.HashTree.Calls.{Laws, Gives, lift-Gives, bind-Gives}
use go_ssz.HashTree.Leaves.{Finds, mixed-IsRoot, is_basic_type-is_number}
use go_ssz.HashTree.Items.{mixed-Gives}

-- The limit of a list of numbers is that of HashTree/Capped.
scalar_limit :
    (k : Scalar) {w : ℕ}
    → uint_width k ≡ some w
    → (max n : ℕ) → max < max_capacity
    → slice_limit max w n ≡ chunk_limit max w n
unfolding slice_limit item_limit
scalar_limit Scalar.uint8 {w} e max n h = let q : w ≡ 1 = cc in rw q (ground (arith, h))
scalar_limit Scalar.uint16 {w} e max n h = let q : w ≡ 2 = cc in rw q (ground (arith, h))
scalar_limit Scalar.int32 {w} e max n h = let q : w ≡ 4 = cc in rw q (ground (arith, h))
scalar_limit Scalar.uint32 {w} e max n h = let q : w ≡ 4 = cc in rw q (ground (arith, h))
scalar_limit Scalar.uint64 {w} e max n h = let q : w ≡ 8 = cc in rw q (ground (arith, h))
scalar_limit _ e max n h = absurd cc

width_limit :
    {t : Typ} {s : Schema}
    → TypeRep t s
    → is_basic_type (kind t) ≡ true
    → (max n : ℕ) → max < max_capacity
    → slice_limit max (width s) n ≡ chunk_limit max (width s) n
unfolding slice_limit item_limit is_basic_type kind
width_limit TypeRep.boolean b max n h = ground (arith, h)
width_limit (TypeRep.uint {k = k} e) b max n h = scalar_limit k e max n h
width_limit _ b max n h = absurd cc

scalar_short : (k : Scalar) (w : ℕ) → uint_width k ≡ some w → w ≤ 8
scalar_short k w e = ground (arith, e)

number_size :
    {t : Typ} {s : Schema}
    → TypeRep t s
    → is_basic_type (kind t) ≡ true
    → (f : ℕ) (v : Val) → elem_size (suc f) v t ≡ ok (width s)
unfolding elem_size determine_fixed_size is_basic_type kind scalar_size
number_size TypeRep.boolean b f v = refl
number_size (TypeRep.uint {k = k} e) b f v = rw (b) (ap ok (width_lem k _ e))
number_size _ b f v = absurd cc

-- A number, of its type, with its bytes
abbrev IsNumber : Val → Typ → Schema → Item → Type 0
IsNumber v t s x =
    (type_of v ≡ ok t)
    × (choice t s ≡ Factory.basic)
    × (length (serialize s x) ≡ width s)
    × (width s ≤ 8)

number_lem :
    {v : Val} {t : Typ} {s : Schema} {x : Item}
    → ValRep v t s x
    → is_basic_type (kind t) ≡ true
    → IsNumber v t s x
unfolding is_basic_type kind type_of choice serialize
number_lem (ValRep.boolean {b = c}) b =
    (refl, refl, length-le_bytes 1 (if c then 1 else 0), omega arith)
number_lem (ValRep.uint {k = k} {w = w} {n = n} e l) b =
    (refl, refl, length-le_bytes w n, scalar_short k w e)
number_lem _ b = absurd cc

not_variable :
    {t : Typ} {s : Schema} → TypeRep t s → is_basic_type (kind t) ≡ true → is_variable s ≡ false
unfolding is_basic_type kind is_variable
not_variable TypeRep.boolean b = refl
not_variable (TypeRep.uint e) b = refl
not_variable _ b = absurd cc

count_items_lem :
    {vs : Vals} {t : Typ} {s : Schema} {xs : Items}
    → ValsRep vs t s xs
    → count_vals vs ≡ count_items xs
count_items_lem ValsRep.no_vals = refl
count_items_lem (ValsRep.each r rs) = ap suc (count_items_lem rs)

basic_factory :
    {vs : Vals} {t : Typ} {s : Schema} {xs : Items}
    → ValsRep vs t s xs
    → is_basic_type (kind t) ≡ true
    → (f : ℕ) → 4 * depth s ≤ f + 4
    → first_factory f vs t ≡ ok Factory.basic
unfolding first_factory
basic_factory ValsRep.no_vals b f h = refl
basic_factory (ValsRep.each r rs) b f h =
    let (p, q, l, m) = number_lem r b in ssz_factory-choice r f h ∙ ap ok q

-- A number fills a buffer of its width.
number_fills :
    {v : Val} {t : Typ} {s : Schema} {x : Item}
    → ValRep v t s x
    → is_basic_type (kind t) ≡ true
    → (f : ℕ) → 8 * depth s ≤ f
    → (n : ℕ) × (marshal_with f Factory.basic v t (replicate (width s) 0) 0 ≡ ok (serialize s x, n))
number_fills {v} {t} {s} {x} r b f h =
    let (p, q, l, m) = number_lem r b in
    let w : Writes (marshal_with f Factory.basic v t) (serialize s x) =
      subst (λ (g : Factory). Writes (marshal_with f g v t) (serialize s x)) q
        (marshal_with-Writes r f h) in
    let k : length (replicate (width s) 0) ≡ length (serialize s x) =
      omega (arith, l, length-replicate {A = ℕ} (width s) 0) in
    let bound : length (replicate (width s) 0 ++ []) < 2 ^ 64 =
      rw append-nil (omega (arith, m, length-replicate {A = ℕ} (width s) 0)) in
    let run = w [] (replicate (width s) 0) [] k bound in (_, (simp append-nil at run))

module _ (env : Env) (laws : Laws env) where
  leaf_Gives :
      {v : Val} {t : Typ} {s : Schema} {x : Item}
      → ValRep v t s x
      → is_basic_type (kind t) ≡ true
      → (f : ℕ) (run : Factory → Hasher env) (name : Text) → 8 * depth s ≤ f
      → Gives env (slice_leaf env f run Factory.basic t (width s) name v) (ok (serialize s x))
  unfolding slice_leaf
  leaf_Gives {s = s} {x = x} r b f run name h =
      let (p, q, l, m) = number_lem r b in
      let (n, e) = number_fills r b f h in rw (p, b, e) (lift-Gives env (ok (serialize s x)))

  abbrev number_leaves : Schema → Items → List Buf
  number_leaves s Items.nil = []
  number_leaves s (Items.cons x xs) = serialize s x ∷ number_leaves s xs

  flatten-number_leaves : (s : Schema) (xs : Items) → flatten (number_leaves s xs) ≡ concat s xs
  unfolding flatten
  flatten-number_leaves s Items.nil = refl
  flatten-number_leaves s (Items.cons x xs) =
      ap (λ (bs : Buf). serialize s x ++ bs) (flatten-number_leaves s xs)

  first_short :
      {vs : Vals} {t : Typ} {s : Schema} {xs : Items}
      → ValsRep vs t s xs
      → is_basic_type (kind t) ≡ true
      → length (first_item (number_leaves s xs)) ≢ 32
  first_short ValsRep.no_vals b = omega arith
  first_short (ValsRep.each r rs) b = let (p, q, l, m) = number_lem r b in omega (arith, l, m)

  leaves-Gives :
      {vs : Vals} {t : Typ} {s : Schema} {xs : Items}
      → ValsRep vs t s xs
      → is_basic_type (kind t) ≡ true
      → (f : ℕ) (run : Factory → Hasher env) (name : Text) → 8 * depth s ≤ f
      → Gives env
          (hash_items env (slice_leaf env f run Factory.basic t (width s) name) vs)
          (ok (number_leaves s xs))
  unfolding hash_items
  leaves-Gives ValsRep.no_vals b f run name h = lift-Gives env (ok [])
  leaves-Gives {t = t} {s = s} (ValsRep.each {vs = vs} r rs) b f run name h =
      let self = slice_leaf env f run Factory.basic t (width s) name in
      bind-Gives env {k = λ root. (hash_items env self vs >>= λ roots. done (root ∷ roots))}
        {h = λ root. ok (root ∷ number_leaves s _)} (leaf_Gives r b f run name h)
        λ root e.
          bind-Gives env {k = λ roots. done (root ∷ roots)} {h = λ roots. ok (root ∷ roots)}
            (leaves-Gives rs b f run name h) λ roots e'. lift-Gives env (ok (root ∷ roots))

  pub numbers-Finds :
      (f : ℕ) (v : Val) {vs : Vals} (t : Typ) (s : Schema) {xs : Items}
      → items v ≡ ok vs
      → is_basic_type (kind t) ≡ true
      → TypeRep t s
      → ValsRep vs t s xs
      → 8 * depth s ≤ f
      → 0 < f
      → (name : Text) (max : ℕ) → max < max_capacity
      → Finds env laws
          (root_with env (suc f) Factory.basic_slice v (Typ.slice t) name max)
          (Schema.list s)
          Caps.open_end
          max
          (Item.seq xs)
  unfolding root_with basic_slice_root elem_type serialize
  numbers-Finds zero v t s e b q rs h p name max l = absurd (omega arith)
  numbers-Finds (suc f) v {vs} t s {xs} e b q rs h p name max l =
      let (cs, g, i) = pack-Packed (number_leaves s xs) (inr (first_short rs b)) in
      let n = count_items_lem rs in
      let limit = chunk_limit max (width s) (count_items xs) in
      let bytes = flatten-number_leaves s xs ∙ sym (join-concat s xs (not_variable q b)) in
      (
        mixed env.sha env.merkleize limit (count_items xs) cs,
        HasRoot.number_list (sym (is_basic_type-is_number q) ∙ b) (rw bytes at i),
        mixed-IsRoot env laws limit (count_items xs) cs,
        rw
            (
              e,
              basic_factory rs b (suc f) (omega (arith, h)),
              number_size q b f v,
              n,
              width_limit q b max (count_items xs) l,
            )
            (bind-Gives env {k = λ leaves. mixed_root env (λ m. limit) (count_items xs) leaves}
              {h = λ leaves. mixed env.sha env.merkleize limit (count_items xs) cs}
              (leaves-Gives rs b (suc f) (root_with env (suc f)) name h)
              λ leaves d.
                let d' : leaves ≡ number_leaves s xs = cc in
                rw d' (mixed-Gives env laws (λ m. limit) (count_items xs) (number_leaves s xs) g)),
      )
