-- ===== src/Layers.antt =====
-- types/array_roots.go, from `recomputeRoot` on: the layers of hashes that rootsArraySSZ keeps for a
-- field, the leaves first. SHA-256 is a parameter.
pub mod Recompute
pub mod Powers
pub mod Built
use go_ssz.Prelude.{found}
use go_ssz.Prelude.{
  ℕ, zero, suc, ◌+◌, ◌-◌, ◌/◌, ◌%◌, ◌*◌, Bool, true, false, List, [], ◌∷◌, ◌++◌, Option, none, some,
}
use go_ssz.Prelude.{
  length, replicate, get_elem?, if◌then◌else◌, ◌==◌, Result, ok, panic, stuck, ◌>>=◌,
}
use go_ssz.Buffer.{Buf}
use go_ssz.Chunks.{bytes_per_chunk}
use go_ssz.Marshal.{to_bytes32}

-- `list[i] = x`, within the range
abbrev pub set_elem {ℓ} : {A : Type ℓ} → List A → ℕ → A → List A
set_elem [] i x = []
set_elem (y ∷ ys) zero x = x ∷ ys
set_elem (y ∷ ys) (suc i) x = y ∷ set_elem ys i x

-- `i ^ 1`
abbrev pub sibling : ℕ → ℕ
sibling zero = 1
sibling (suc zero) = 0
sibling (suc (suc i)) = suc (suc (sibling i))

-- `a & b`, on the lowest `width` bits
unfoldable pub bit_and : ℕ → ℕ → ℕ → ℕ
bit_and zero a b = 0
bit_and (suc width) a b = (if a % 2 == 0 then 0 else b % 2) + 2 * bit_and width (a / 2) (b / 2)

unfoldable pub is_power_of_2 : ℕ → Bool
is_power_of_2 n = if n == 0 then false else bit_and 64 n (n - 1) == 0

-- The loop that appends zero chunks, on fuel.
unfoldable pub pad_leaves : ℕ → List Buf → Result (List Buf)
pad_leaves zero chunks = stuck
pad_leaves (suc f) chunks =
    let rest = pad_leaves f (chunks ++ (replicate bytes_per_chunk 0 ∷ [])) in
    if is_power_of_2 (length chunks) then ok chunks else rest

-- `hashLayer[0]` of the last layer
unfoldable pub top_hash : List Buf → List (List Buf) → Result Buf
top_hash [] [] = panic
top_hash (a ∷ layer) [] = ok a
top_hash layer (above ∷ layers) = top_hash above layers

module _ (sha : Buf → Buf) where
  -- The hash above a node: its parent hashes the left of the two siblings first.
  unfoldable pub parent_hash : ℕ → Buf → Buf → Buf
  parent_hash idx root item = if idx % 2 == 0 then sha (root ++ item) else sha (item ++ root)

  -- The loop of recomputeRoot from the layer that `idx` counts in: at every round the index
  -- is halved. It returns the root and the layers.
  unfoldable pub recompute_layers : ℕ → Buf → List (List Buf) → Result (Buf × List (List Buf))
  unfolding parent_hash
  recompute_layers idx root [] = ok (root, [])
  recompute_layers idx root (layer ∷ []) = ok (root, layer ∷ [])
  recompute_layers idx root (layer ∷ next ∷ rest) =
      found (get_elem? layer (sibling idx)) >>= λ item. found (get_elem? next (idx / 2)) >>= λ old.
      let parent = parent_hash idx root item in
      recompute_layers (idx / 2) parent (set_elem next (idx / 2) parent ∷ rest) >>= λ (r, layers).
      ok (r, layer ∷ layers)

  -- recomputeRoot
  unfoldable pub recompute_root : ℕ → List Buf → List (List Buf) → Result (Buf × List (List Buf))
  recompute_root idx chunks layers = found (get_elem? chunks idx) >>= λ leaf.
      recompute_layers idx leaf layers >>= λ (root, layers'). ok (to_bytes32 root, layers')

  -- The loop of rootsArraySSZ.Root over the changed indices: the last root counts.
  unfoldable pub recompute_all :
      List ℕ → List Buf → Buf → List (List Buf) → Result (Buf × List (List Buf))
  unfolding recompute_root
  recompute_all [] chunks rt layers = ok (rt, layers)
  recompute_all (idx ∷ changed) chunks rt layers =
      recompute_root idx chunks layers >>= λ (r, layers'). recompute_all changed chunks r layers'

  -- One round of the loop of `merkleize`: the layer above.
  unfoldable pub pair_layer : List Buf → Result (List Buf)
  pair_layer [] = ok []
  pair_layer (a ∷ []) = panic
  pair_layer (a ∷ b ∷ layer) = pair_layer layer >>= λ above. ok (sha (a ++ b) ∷ above)

  -- The layers above `layer`, on fuel.
  unfoldable pub layers_above : ℕ → List Buf → Result (List (List Buf))
  unfolding pair_layer
  layers_above zero layer = stuck
  layers_above (suc f) (a ∷ b ∷ layer) =
      pair_layer (a ∷ b ∷ layer) >>= λ above. layers_above f above >>= λ layers. ok (above ∷ layers)
  layers_above (suc f) layer = ok []

  -- The method `merkleize`, with what it stores as the layers of the field where the cache is enabled
  -- and the field has a name; a single chunk stores none. `f` is fuel for its two loops.
  unfoldable pub merkleize : ℕ → List Buf → Result (Buf × List (List Buf))
  merkleize f (chunk ∷ []) = ok (to_bytes32 chunk, [])
  merkleize f chunks = pad_leaves f chunks >>= λ leaves. layers_above f leaves >>= λ layers.
      top_hash leaves layers >>= λ root. ok (to_bytes32 root, leaves ∷ layers)
