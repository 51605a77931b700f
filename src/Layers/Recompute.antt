-- ===== src/Layers/Recompute.antt =====
-- recomputeRoot against the layers that merkleize builds.
use go_ssz.Prelude.{ℕ, zero, suc, ◌/◌, ◌%◌, ◌<◌, ◌≡◌, refl, arith}
use go_ssz.Prelude.{
  List, [], ◌∷◌, ◌++◌, some, length, get_elem?, ok, Result, err, panic, stuck, ◌>>=◌,
}
use go_ssz.Buffer.{Buf}
use go_ssz.Marshal.{to_bytes32}
use go_ssz.Layers.{set_elem, sibling, parent_hash, recompute_layers, recompute_root, pair_layer}

module _ (sha : Buf → Buf) where
  -- Layers of hashes: each is made from the one below it, and the last holds the root only.
  pub data Layered : Buf → List (List Buf) → Type 0 where
    top : (root : Buf) → Layered root ((root ∷ []) ∷ [])
    above :
        {root : Buf} (layer next : List Buf) {rest : List (List Buf)}
        → pair_layer sha layer ≡ ok next
        → Layered root (next ∷ rest)
        → Layered root (layer ∷ next ∷ rest)

  -- What a round made of a pair and of the nodes behind it.
  bind_cons :
      (h : Buf) (r : Result (List Buf)) {next : List Buf}
      → (r >>= λ above. ok (h ∷ above)) ≡ ok next
      → (hs : List Buf) × (r ≡ ok hs) × (next ≡ h ∷ hs)
  bind_cons h (ok hs) e = (hs, refl, cc)
  bind_cons h (err x) e = cc
  bind_cons h panic e = cc
  bind_cons h stuck e = cc

  -- What the layer above becomes when a node changes, and what is read on the way.
  abbrev Changed : List Buf → List Buf → ℕ → Buf → Type 0
  Changed layer next idx c =
      (item : Buf) × (old : Buf) × (get_elem? layer (sibling idx) ≡ some item)
      × (get_elem? next (idx / 2) ≡ some old)
      × (pair_layer sha (set_elem layer idx c)
          ≡ ok (set_elem next (idx / 2) (parent_hash sha idx c item)))

  half_next : (i : ℕ) → suc (suc i) / 2 ≡ suc (i / 2)
  half_next i = omega arith

  parent_hash_next :
      (i : ℕ) (c item : Buf) → parent_hash sha (suc (suc i)) c item ≡ parent_hash sha i c item
  unfolding parent_hash
  parent_hash_next i c item = let p : suc (suc i) % 2 ≡ i % 2 = omega arith in rw p refl

  Changed-next :
      (a b : Buf) (layer hs : List Buf) (i : ℕ) (c : Buf)
      → Changed layer hs i c
      → Changed (a ∷ b ∷ layer) (sha (a ++ b) ∷ hs) (suc (suc i)) c
  unfolding pair_layer
  Changed-next a b layer hs i c (item, old, g, o, p) =
      rw (half_next i) (item, old, g, o, rw (p, parent_hash_next i c item) refl)

  pair_layer-Changed :
      (layer next : List Buf) (idx : ℕ) (c : Buf)
      → pair_layer sha layer ≡ ok next
      → idx < length layer
      → Changed layer next idx c
  unfolding pair_layer parent_hash
  pair_layer-Changed [] next idx c e l = absurd (omega arith)
  pair_layer-Changed (a ∷ []) next idx c e l = cc
  pair_layer-Changed (a ∷ b ∷ layer) next zero c e l =
      let (hs, p, q) = bind_cons (sha (a ++ b)) (pair_layer sha layer) e in
      rw q (b, sha (a ++ b), refl, refl, rw p refl)
  pair_layer-Changed (a ∷ b ∷ layer) next (suc zero) c e l =
      let (hs, p, q) = bind_cons (sha (a ++ b)) (pair_layer sha layer) e in
      rw q (a, sha (a ++ b), refl, refl, rw p refl)
  pair_layer-Changed (a ∷ b ∷ layer) next (suc (suc i)) c e l =
      let (hs, p, q) = bind_cons (sha (a ++ b)) (pair_layer sha layer) e in
      rw q (Changed-next a b layer hs i c (pair_layer-Changed layer hs i c p (omega arith)))

  get_elem?-set_elem-sibling :
      (xs : List Buf) (i : ℕ) (x : Buf)
      → get_elem? (set_elem xs i x) (sibling i) ≡ get_elem? xs (sibling i)
  get_elem?-set_elem-sibling [] i x = refl
  get_elem?-set_elem-sibling (y ∷ ys) zero x = refl
  get_elem?-set_elem-sibling (y ∷ ys) (suc zero) x = refl
  get_elem?-set_elem-sibling (y ∷ []) (suc (suc i)) x = refl
  get_elem?-set_elem-sibling (y ∷ z ∷ ys) (suc (suc i)) x = get_elem?-set_elem-sibling ys i x

  get_elem?_bound : (xs : List Buf) (i : ℕ) {x : Buf} → get_elem? xs i ≡ some x → i < length xs
  get_elem?_bound [] i e = cc
  get_elem?_bound (y ∷ ys) zero e = omega arith
  get_elem?_bound (y ∷ ys) (suc i) e = let l = get_elem?_bound ys i e in omega (arith, l)

  -- The nodes on the way from `idx` to the root are replaced, in the layers above `read`, the layer as
  -- the loop finds it.
  abbrev Recomputes : ℕ → Buf → List Buf → List Buf → List (List Buf) → Type 0
  Recomputes idx c read layer rest =
      (root : Buf) × (rest' : List (List Buf)) × (recompute_layers sha idx c (read ∷ rest)
        ≡ ok (root, read ∷ rest'))
      × Layered root (set_elem layer idx c ∷ rest')

  recompute_layers-Layered :
      {r : Buf} (layer : List Buf) (rest : List (List Buf))
      → Layered r (layer ∷ rest)
      → (idx : ℕ) (c : Buf) (read : List Buf) → idx < length layer
      → get_elem? read (sibling idx) ≡ get_elem? layer (sibling idx)
      → Recomputes idx c read layer rest
  unfolding recompute_layers
  recompute_layers-Layered layer rest (Layered.top root) zero c read l g =
      (c, [], refl, Layered.top c)
  recompute_layers-Layered layer rest (Layered.top root) (suc i) c read l g = absurd (omega arith)
  recompute_layers-Layered layer rest (Layered.above layer' next {rest = up} e t) idx c read l g =
      let (item, old, gi, go, p) = pair_layer-Changed layer' next idx c e l in
      let parent = parent_hash sha idx c item in
      let changed = set_elem next (idx / 2) parent in
      let (root, rest', q, t') =
        recompute_layers-Layered next up t (idx / 2) parent changed
          (get_elem?_bound next (idx / 2) go) (get_elem?-set_elem-sibling next (idx / 2) parent) in
      (
        root,
        changed ∷ rest',
        rw (g, gi, go, q) refl,
        Layered.above (set_elem layer' idx c) changed p t',
      )

  -- recomputeRoot, where the layers kept are those over the leaves `layer`, the index lies among
  -- these and `c` is the chunk at the index: it returns the root of the leaves with that chunk at that
  -- index, and the layers above the leaves become those over these leaves. The layer of the
  -- leaves itself is left as it was.
  pub recompute_root-Layered :
      {r : Buf} (layer : List Buf) (rest : List (List Buf))
      → Layered r (layer ∷ rest)
      → (idx : ℕ) → idx < length layer
      → (chunks : List Buf) (c : Buf) → get_elem? chunks idx ≡ some c
      → (root : Buf) × (rest' : List (List Buf)) × (recompute_root sha idx chunks (layer ∷ rest)
          ≡ ok (to_bytes32 root, layer ∷ rest'))
        × Layered root (set_elem layer idx c ∷ rest')
  unfolding recompute_root
  recompute_root-Layered layer rest t idx l chunks c e =
      let (root, rest', q, t') = recompute_layers-Layered layer rest t idx c layer l refl in
      (root, rest', rw (e, q) refl, t')
