-- ===== src/HashTree/Stale.antt =====
-- What rootsArraySSZ.Root (types/array_roots.go) returns where the cache is enabled and the leaves of a
-- field go back to what they were.
use go_ssz.Prelude.{◌≡◌, refl, sym, subst, List, [], ◌∷◌, ◌++◌, Bool, true, false, ◌&&◌, some}
use go_ssz.Prelude.{Result, ok}
use go_ssz.Prelude.{ℕ, ◌<◌, length, get_elem?}
use go_ssz.Layers.{set_elem}
use go_ssz.Layers.Recompute.{Layered, recompute_root-Layered}
use go_ssz.Buffer.{Buf}
use go_ssz.Reflect.{Typ, Val, Vals, Text, items, count_vals}
use go_ssz.Equal.{same_text, same_text_refl}
use go_ssz.Marshal.{root_bytes, to_bytes32}
use go_ssz.Layers.{recompute_all, recompute_root, recompute_layers}
use go_ssz.Hashing.{Env, Caches, put}
use go_ssz.RootArrays.{
  roots_array_root, tracked_root, items_root, leaves_root, scan_leaves, is_changed, recomputed,
  make_layers, is_named,
}

-- A value with four roots
pub data FourRoots : Val → Buf → Buf → Buf → Buf → Type 0 where
  four :
      {t : Typ} {v0 v1 v2 v3 : Val} {a b c d : Buf}
      → root_bytes v0 ≡ ok a
      → root_bytes v1 ≡ ok b
      → root_bytes v2 ≡ ok c
      → root_bytes v3 ≡ ok d
      → FourRoots
          (Val.array t (Vals.cons v0 (Vals.cons v1 (Vals.cons v2 (Vals.cons v3 Vals.nil)))))
          a
          b
          c
          d

module _ (env : Env) where
  -- What is kept for a field
  abbrev pub Kept : Caches env → Text → List Buf → List (List Buf) → Type 0
  Kept w name leaves layers = (w.cached_leaves name ≡ some leaves) × (w.layers name ≡ some layers)

  first_changed :
      {v : Val} {a b c d e p q r : Buf}
      → FourRoots v e b c d
      → same_text e a ≡ false
      → (name : Text) → (w : Caches env)
      → Kept w name (a ∷ b ∷ c ∷ d ∷ []) ((a ∷ b ∷ c ∷ d ∷ []) ∷ (p ∷ q ∷ []) ∷ (r ∷ []) ∷ [])
      → (w' : Caches env) × (tracked_root env true v name w
          ≡ (ok (to_bytes32 (env.sha (env.sha (e ++ b) ++ q))), w'))
        × Kept w' name (a ∷ b ∷ c ∷ d ∷ []) (
            (a ∷ b ∷ c ∷ d ∷ [])
            ∷ (env.sha (e ++ b) ∷ q ∷ [])
            ∷ (env.sha (env.sha (e ++ b) ++ q) ∷ [])
            ∷ [])
  unfolding tracked_root items_root leaves_root scan_leaves is_changed recomputed make_layers
      recompute_all recompute_root recompute_layers items put
  first_changed {a = a} {b = b} {c = c} {d = d} {e = e} {q = q} (FourRoots.four i j k l) n name w
        (m, o) =
      (
        record w {
          layers = put w.layers name (
              (a ∷ b ∷ c ∷ d ∷ [])
              ∷ (env.sha (e ++ b) ∷ q ∷ [])
              ∷ (env.sha (env.sha (e ++ b) ++ q) ∷ [])
              ∷ []);
        },
        (rw (o, m, i, j, k, l, n, same_text_refl b, same_text_refl c, same_text_refl d)
            (rw o refl)),
        (m, (rw (same_text_refl name) refl)),
      )

  third_changed :
      {v : Val} {a b c d g p q r : Buf}
      → FourRoots v a b g d
      → same_text g c ≡ false
      → (name : Text) (w : Caches env)
      → Kept w name (a ∷ b ∷ c ∷ d ∷ []) ((a ∷ b ∷ c ∷ d ∷ []) ∷ (p ∷ q ∷ []) ∷ (r ∷ []) ∷ [])
      → (w' : Caches env) × (tracked_root env true v name w
          ≡ (ok (to_bytes32 (env.sha (p ++ env.sha (g ++ d)))), w'))
  unfolding tracked_root items_root leaves_root scan_leaves is_changed recomputed make_layers
      recompute_all recompute_root recompute_layers items
  third_changed {a = a} {b = b} {c = c} {d = d} {g = g} {p = p} (FourRoots.four i j k l) n name w
        (m, o) =
      (
        record w {
          layers = put w.layers name (
              (a ∷ b ∷ c ∷ d ∷ [])
              ∷ (p ∷ env.sha (g ++ d) ∷ [])
              ∷ (env.sha (p ++ env.sha (g ++ d)) ∷ [])
              ∷ []);
        },
        (rw (o, m, i, j, k, l, n, same_text_refl a, same_text_refl b, same_text_refl d)
            (rw o refl)),
      )

  on_lem :
      (v : Val) (name : Text) (w : Caches env) {q : Result Buf × Caches env}
      → (env.enable_cache && is_named name) ≡ true
      → tracked_root env true v name w ≡ q
      → roots_array_root env v name w ≡ q
  unfolding roots_array_root
  on_lem v name w {q} t e = subst (λ (b : Bool). tracked_root env b v name w ≡ q) (sym t) e

  made_layers :
      (name : Text) (n : ℕ) (w : Caches env) {layers : List (List Buf)}
      → w.layers name ≡ some layers
      → make_layers env name n w ≡ w
  unfolding make_layers
  made_layers name n w o = rw (o, make_layers) refl

  one_changed :
      (vs : Vals) {old leaves : List Buf} {layers layers' : List (List Buf)} {root : Buf} (idx : ℕ)
      → scan_leaves (some old) 0 vs ≡ ok (leaves, idx ∷ [])
      → (name : Text) (w : Caches env) → Kept w name old layers
      → recompute_root env.sha idx leaves layers ≡ ok (root, layers')
      → leaves_root env true name vs w ≡ (ok root, record w { layers = put w.layers name layers' })
  unfolding leaves_root recomputed recompute_all
  one_changed vs idx s name w (m, o) q = rw (m, s) (rw (o, q) refl)

  of_leaves :
      (vs : Vals) (name : Text) (w : Caches env) {layers : List (List Buf)}
      {q : Result Buf × Caches env}
      → w.layers name ≡ some layers
      → leaves_root env true name vs w ≡ q
      → items_root env true name vs w ≡ q
  unfolding items_root
  of_leaves vs name w {q = q} o h =
      subst (λ (w' : Caches env). leaves_root env true name vs w' ≡ q)
        (sym (made_layers name (count_vals vs) w o)) h

  of_items :
      (v : Val) {vs : Vals} (name : Text) (w : Caches env) {q : Result Buf × Caches env}
      → items v ≡ ok vs
      → items_root env true name vs w ≡ q
      → tracked_root env true v name w ≡ q
  unfolding tracked_root
  of_items v name w e h = rw e h

  -- rootsArraySSZ.Root where the cache is enabled, of a named field for which the leaves a, b, c, d and
  -- their layers are kept, first of a value with the roots e, b, c, d and then of one with a, b, g, d: the
  -- first root is that of its leaves, but the second is the hash over e, b, g and d, since the
  -- kept leaves are still those from before the first call and the layers are not. Here a and e differ,
  -- and so do c and g.
  pub roots_array_root-recomputed :
      {v u : Val} {a b c d e g : Buf}
      → FourRoots v e b c d
      → FourRoots u a b g d
      → same_text e a ≡ false
      → same_text g c ≡ false
      → env.enable_cache ≡ true
      → (name : Text) → is_named name ≡ true
      → (w : Caches env)
      → Kept w name (a ∷ b ∷ c ∷ d ∷ []) (
          (a ∷ b ∷ c ∷ d ∷ [])
          ∷ (env.sha (a ++ b) ∷ env.sha (c ++ d) ∷ [])
          ∷ (env.sha (env.sha (a ++ b) ++ env.sha (c ++ d)) ∷ [])
          ∷ [])
      → (w' w'' : Caches env) × (roots_array_root env v name w
          ≡ (ok (to_bytes32 (env.sha (env.sha (e ++ b) ++ env.sha (c ++ d)))), w'))
        × (roots_array_root env u name w'
            ≡ (ok (to_bytes32 (env.sha (env.sha (e ++ b) ++ env.sha (g ++ d)))), w''))
  roots_array_root-recomputed {v} {u} r q n m on name h w k =
      let (w', i, k') = first_changed r n name w k in
      let (w'', j) = third_changed q m name w' k' in
      let t : (env.enable_cache && is_named name) ≡ true = rw (on, h) refl in
      (w', w'', on_lem v name w t i, on_lem u name w' t j)

  -- rootsArraySSZ.Root where the cache is enabled, of a named field for which leaves and layers of hashes are
  -- kept, and of a value with one leaf that is not the kept one: the root belongs to layers over the
  -- kept lowest layer with that leaf in place. The layers that are kept then are those, but for the
  -- lowest, which stays as it was, as the kept leaves do.
  pub roots_array_root-Layered :
      (v : Val) {vs : Vals} {old leaves layer : List Buf} {root leaf : Buf} {rest : List (List Buf)}
      (idx : ℕ)
      → items v ≡ ok vs
      → scan_leaves (some old) 0 vs ≡ ok (leaves, idx ∷ [])
      → get_elem? leaves idx ≡ some leaf
      → idx < length layer
      → Layered env.sha root (layer ∷ rest)
      → env.enable_cache ≡ true
      → (name : Text) → is_named name ≡ true
      → (w : Caches env) → Kept w name old (layer ∷ rest)
      → (root' : Buf) × (rest' : List (List Buf)) × (w' : Caches env) × (roots_array_root env v name
            w
          ≡ (ok (to_bytes32 root'), w'))
        × Layered env.sha root' (set_elem layer idx leaf ∷ rest')
        × Kept w' name old (layer ∷ rest')
  unfolding put
  roots_array_root-Layered v {vs} {old} {leaves} {layer} {root} {leaf} {rest} idx e s g l t on name
        h w (m, o) =
      let (root', rest', q, t') = recompute_root-Layered env.sha layer rest t idx l leaves leaf g in
      let tracked : (env.enable_cache && is_named name) ≡ true = rw (on, h) refl in
      (
        root',
        rest',
        record w { layers = put w.layers name (layer ∷ rest') },
        on_lem v name w tracked
            (of_items v name w e (of_leaves vs name w o (one_changed vs idx s name w (m, o) q))),
        t',
        (m, (rw (same_text_refl name) refl)),
      )
