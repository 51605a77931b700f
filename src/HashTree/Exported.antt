-- ===== src/HashTree/Exported.antt =====
-- HashTreeRoot and HashTreeRootWithCapacity of ssz.go return roots that the specification describes.
use go_ssz.Prelude.{ℕ, ◌+◌, ◌*◌, ◌≤◌, ◌<◌, ◌≡◌, true, arith, [], some, Result, ok}
use go_ssz.Buffer.{Buf}
use go_ssz.Reflect.{Typ, Val, type_of}
use go_ssz.Unmarshal.{is_slice}
use go_ssz.Ssz.{Schema, Item, depth}
use go_ssz.HashTree.Capped.{Caps, HasRoot}
use go_ssz.Represents.Factory.{ssz_factory-choice}
use go_ssz.Represents.Capacities.{CapRep, CapRep-ValRep, max_capacity}
use go_ssz.Hashing.{Env, Caches, Hashing}
use go_ssz.HashTree.{root_at, hash_tree_root, hash_tree_root_with_capacity}
use go_ssz.HashTree.Calls.{Laws, IsSound}
use go_ssz.HashTree.Leaves.{Finds}
use go_ssz.Ssz.Tree.{Limits, TreeRoot}
use go_ssz.HashTree.Limits.{Takes}
use go_ssz.HashTree.Specified.{HasRoot-TreeRoot}
use go_ssz.HashTree.Refines.{value-Finds}

module _ (env : Env) where
  -- A call that ended in the root of the item by its capacities, and left sound caches behind.
  abbrev pub ReturnsCapped : Result Buf × Caches env → Schema → Caps → ℕ → Item → Type 0
  ReturnsCapped call s c max x =
      (r : Result Buf) × (w : Caches env) × (call ≡ (r, w))
      × HasRoot env.sha env.merkleize s c max x r
      × IsSound env w

  pub Finds-ReturnsCapped :
      (laws : Laws env) (m : Hashing env Buf) {s : Schema} {c : Caps} {max : ℕ} {x : Item}
      → Finds env laws m s c max x
      → (w : Caches env) → IsSound env w
      → ReturnsCapped (m w) s c max x
  Finds-ReturnsCapped laws m (r, h, l, g) w v = let (w', e, v') = g w v in (r, w', e, h, v')

  root_at-ReturnsCapped :
      Laws env
      → {v : Val} {t : Typ} {s : Schema} {x : Item} {c : Caps} → CapRep v t s x c
      → type_of v ≡ ok t
      → (f : ℕ) → 8 * depth s + 4 ≤ f
      → (max : ℕ) → max < max_capacity
      → (w : Caches env) → IsSound env w
      → ReturnsCapped (root_at env f v max w) s c max x
  unfolding root_at
  root_at-ReturnsCapped laws r e f h max l w v =
      rw (e, ssz_factory-choice (CapRep-ValRep r) f (omega (arith, h)))
        (Finds-ReturnsCapped laws _ (value-Finds env laws r f h [] max l) w v)

  pub hash_tree_root-ReturnsCapped :
      Laws env
      → {v : Val} {t : Typ} {s : Schema} {x : Item} {c : Caps} → CapRep v t s x c
      → type_of v ≡ ok t
      → (f : ℕ) → 8 * depth s + 4 ≤ f
      → (w : Caches env) → IsSound env w
      → ReturnsCapped (hash_tree_root env f (some v) w) s c 0 x
  unfolding hash_tree_root
  hash_tree_root-ReturnsCapped laws r e f h = root_at-ReturnsCapped laws r e f h 0 (omega arith)

  hash_tree_root_with_capacity-ReturnsCapped :
      Laws env
      → {v : Val} {t : Typ} {s : Schema} {x : Item} {c : Caps} → CapRep v t s x c
      → type_of v ≡ ok t
      → is_slice v ≡ true
      → (f : ℕ) → 8 * depth s + 4 ≤ f
      → (max : ℕ) → max < max_capacity
      → (w : Caches env) → IsSound env w
      → ReturnsCapped (hash_tree_root_with_capacity env f (some v) max w) s c max x
  unfolding hash_tree_root_with_capacity
  hash_tree_root_with_capacity-ReturnsCapped laws r e i f h max l =
      rw i (root_at-ReturnsCapped laws r e f h max l)

  -- A call that ended in what the specification has as the root of the item under these limits, and left
  -- sound caches behind.
  abbrev pub ReturnsRoot : Result Buf × Caches env → Schema → Limits → Item → Type 0
  ReturnsRoot call s l x =
      (r : Result Buf) × (w : Caches env) × (call ≡ (r, w))
      × TreeRoot env.sha env.merkleize s l x r
      × IsSound env w

  pub Takes-ReturnsRoot :
      {call : Result Buf × Caches env} {s : Schema} {c : Caps} {max : ℕ} {x : Item} {l : Limits}
      → Takes s c max x l
      → ReturnsCapped call s c max x
      → ReturnsRoot call s l x
  Takes-ReturnsRoot t (r, w, e, h, v) = (r, w, e, HasRoot-TreeRoot env.sha env.merkleize h t, v)

  -- HashTreeRoot of a value that stands for an item: from any caches in which every entry for a basic value
  -- is the root of its key, it returns what the SSZ specification has as the hash tree root of
  -- the item, with the length of every list mixed in as a uint256, and leaves such caches behind. The
  -- root is that for the limits of the lists that the program takes: the capacities that the tags of the
  -- fields give, and what Takes says for a list without one. It is an error where a list is over its limit;
  -- a list of numbers that is over it must be so by more than fits in the last chunk. The value is one that
  -- CapRep covers, at its own type; the caches of arrays are off, and the model has the fuel that the depth of
  -- the schema asks for.
  pub hash_tree_root-ReturnsRoot :
      Laws env
      → {v : Val} {t : Typ} {s : Schema} {x : Item} {c : Caps} → CapRep v t s x c
      → {l : Limits} → Takes s c 0 x l
      → type_of v ≡ ok t
      → (f : ℕ) → 8 * depth s + 4 ≤ f
      → (w : Caches env) → IsSound env w
      → ReturnsRoot (hash_tree_root env f (some v) w) s l x
  hash_tree_root-ReturnsRoot laws r k e f h w v =
      Takes-ReturnsRoot k (hash_tree_root-ReturnsCapped laws r e f h w v)

  -- HashTreeRootWithCapacity of a slice that stands for a list of items, under the same conditions and
  -- for a capacity below 2^58: it returns what the SSZ specification has as the root of a list with that
  -- limit. For the capacity 0, and for lists inside the items, the limit is what Takes says.
  pub hash_tree_root_with_capacity-ReturnsRoot :
      Laws env
      → {v : Val} {t : Typ} {s : Schema} {x : Item} {c : Caps} → CapRep v t s x c
      → {l : Limits} (max : ℕ) → Takes s c max x l
      → type_of v ≡ ok t
      → is_slice v ≡ true
      → (f : ℕ) → 8 * depth s + 4 ≤ f
      → max < max_capacity
      → (w : Caches env) → IsSound env w
      → ReturnsRoot (hash_tree_root_with_capacity env f (some v) max w) s l x
  hash_tree_root_with_capacity-ReturnsRoot laws r max k e i f h m w v =
      Takes-ReturnsRoot k (hash_tree_root_with_capacity-ReturnsCapped laws r e i f h max m w v)
