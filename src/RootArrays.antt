-- ===== src/RootArrays.antt =====
-- rootsArraySSZ.Root (types/array_roots.go), with its caches as a state.
use go_ssz.Prelude.{
  ℕ, suc, ◌+◌, ◌*◌, Bool, true, false, ◌&&◌, List, [], ◌∷◌, ◌++◌, Option, none, some,
}
use go_ssz.Prelude.{
  if◌then◌else◌, length, replicate, get_elem?, Result, ok, panic, found, ◌>>=◌ as bind,
}
use go_ssz.Buffer.{Buf}
use go_ssz.Reflect.{Text, Val, Vals, nil, cons, items, count_vals}
use go_ssz.Equal.{same_text}
use go_ssz.Marshal.{root_bytes}
use go_ssz.Layers.{merkleize, recompute_all}
use go_ssz.Hashing.{Env, Caches, Hashing, lift, done, caches, modify, ◌>>=◌, ◌>>◌, put}

abbrev pub not : Bool → Bool
not true = false
not false = true

-- Whether a leaf is another than that of the last call; `none` where no leaves are kept.
unfoldable pub is_changed : Option (List Buf) → ℕ → Buf → Result Bool
unfolding same_text
is_changed none i leaf = ok false
is_changed (some old) i leaf = bind (found (get_elem? old i)) λ kept. ok (not (same_text leaf kept))

-- The loop over the items from index `i` on: `leaves` and `changedIndices`
unfoldable pub scan_leaves : Option (List Buf) → ℕ → Vals → Result (List Buf × List ℕ)
unfolding root_bytes is_changed
scan_leaves old i nil = ok ([], [])
scan_leaves old i (cons v vs) = bind (root_bytes v) λ leaf. bind (is_changed old i leaf) λ changed.
    bind (scan_leaves old (suc i) vs)
      λ (leaves, indices). ok (leaf ∷ leaves, if changed then i ∷ indices else indices)

-- `hashKeyElements`
unfoldable pub key_elements : List Buf → Buf
key_elements [] = []
key_elements (leaf ∷ leaves) = leaf ++ key_elements leaves

-- `a.layers[fieldName][i] = hashLayer` for every layer that `merkleize` builds
unfoldable pub put_layers : List (List Buf) → List (List Buf) → Result (List (List Buf))
put_layers [] old = ok old
put_layers (layer ∷ built) [] = panic
put_layers (layer ∷ built) (o ∷ old) = bind (put_layers built old) λ rest. ok (layer ∷ rest)

abbrev pub layers_or_nil : Option (List (List Buf)) → List (List Buf)
layers_or_nil none = []
layers_or_nil (some layers) = layers

-- A field's name, where the cache is enabled
abbrev pub is_named : Text → Bool
is_named [] = false
is_named (c ∷ cs) = true

module _ (env : Env) where
  -- A key that is not that of zero bytes, where the cache is enabled
  unfoldable pub is_cached_key : ℕ → Buf → Bool
  unfolding same_text
  is_cached_key n key = env.enable_cache && not (same_text key (env.sum (replicate (32 * n) 0)))

  -- Room for the layers of a field, made once
  unfoldable pub make_layers : Text → ℕ → Caches env → Caches env
  make_layers name n w = elim (w.layers name) [
    | none ↦ record w { layers = put w.layers name (replicate (env.get_depth n + 1) []) }
    | some layers ↦ w
  ]

  abbrev pub kept_leaves : Bool → Text → Caches env → Option (List Buf)
  kept_leaves tracked name w = if tracked then w.cached_leaves name else none

  -- recomputeRoot of every changed index; the layers that it changes are those of the field.
  unfoldable pub recomputed : Text → List ℕ → List Buf → Hashing env Buf
  recomputed name changed leaves = do
    w ← caches
    (root, layers) ←
        lift (recompute_all env.sha changed leaves (replicate 32 0) (layers_or_nil (w.layers name)))
    modify (λ w. record w { layers = put w.layers name layers })
    done root

  -- The method `merkleize`, with its writes to the layers
  unfoldable pub merkleized : Bool → Text → List Buf → Hashing env Buf
  merkleized tracked name leaves = do
    (root, built) ← lift (merkleize env.sha (2 * length leaves + 2) leaves)
    w ← caches
    layers ← lift (if tracked then put_layers built (layers_or_nil (w.layers name)) else ok [])
    modify (λ w. if tracked then record w { layers = put w.layers name layers } else w)
    done root

  -- What a call keeps of its leaves and of its root.
  unfoldable pub keep_root : Bool → Bool → Text → Buf → List Buf → Buf → Caches env → Caches env
  keep_root tracked cached name key leaves root w =
      let w' =
        if tracked then record w { cached_leaves = put w.cached_leaves name (leaves) } else w in
      if cached then record w' { roots = env.set w'.roots key root } else w'

  unfoldable pub root_of_leaves : Bool → Bool → Text → Buf → List Buf → Option Buf → Hashing env Buf
  root_of_leaves tracked cached name key leaves (some root) = done root
  root_of_leaves tracked cached name key leaves none = do
    root ← merkleized tracked name leaves
    modify (keep_root tracked cached name key leaves root)
    done root

  -- rootsArraySSZ.Root where no leaf has changed
  unfoldable pub unchanged_root : Bool → Text → List Buf → Hashing env Buf
  unchanged_root tracked name leaves = do
    w ← caches
    let key = env.sum (key_elements leaves)
    let cached = is_cached_key (length leaves) key
    root_of_leaves tracked cached name key leaves (if cached then env.get w.roots key else none)

  -- The loop over the items, and what follows. `tracked` says whether the leaves and the layers of the
  -- field are kept.
  unfoldable pub leaves_root : Bool → Text → Vals → Hashing env Buf
  leaves_root tracked name vs = do
    w ← caches
    (leaves, changed) ← lift (scan_leaves (kept_leaves tracked name w) 0 vs)
    elim changed [
      | [] ↦ unchanged_root tracked name leaves
      | idx ∷ rest ↦ recomputed name (idx ∷ rest) leaves
    ]

  unfoldable pub items_root : Bool → Text → Vals → Hashing env Buf
  items_root tracked name vs = do
    modify (λ w. if tracked then make_layers name (count_vals vs) w else w)
    leaves_root tracked name vs

  unfoldable pub tracked_root : Bool → Val → Text → Hashing env Buf
  unfolding items
  tracked_root tracked val name = do vs ← lift (items val); items_root tracked name vs

  -- rootsArraySSZ.Root
  unfoldable pub roots_array_root : Val → Text → Hashing env Buf
  roots_array_root val name = tracked_root (env.enable_cache && is_named name) val name
