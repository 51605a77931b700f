-- ===== src/SequenceRoots.antt =====
-- The Root methods of slices and arrays but for arrays of roots (types/slice_basic.go,
-- types/slice_composite.go, types/array_basic.go, types/array_composite.go).
use go_ssz.Prelude.{ℕ, Bool, ◌&&◌, List, [], ◌∷◌, Option, none, some}
use go_ssz.Prelude.{if◌then◌else◌, ◌==◌, length, replicate, Result, ok}
use go_ssz.Buffer.{Buf}
use go_ssz.Reflect.{Typ, Text, Val, Vals, nil, cons, kind, elem_type, type_of, items}
use go_ssz.Reflect.{count_vals}
use go_ssz.Size.{is_basic_type, determine_fixed_size}
use go_ssz.Factory.{Factory, ssz_factory}
use go_ssz.Marshal.{marshal_with}
use go_ssz.Chunks.{pack, bitwise_merkleize, mix_in_length, item_limit, length_chunk}
use go_ssz.Hashing.{Env, Hashing, lift, done, caches, modify, ◌>>=◌, ◌>>◌}
use go_ssz.RootArrays.{key_elements, is_cached_key}

-- The factory of the items, by the first; without items there is none, and none is used.
unfoldable pub first_factory : ℕ → Vals → Typ → Result Factory
first_factory f nil t = ok Factory.basic
first_factory f (cons v vs) t = ssz_factory f v t

-- `elemSize`: that of the items where they are numbers, and 32 elsewhere.
unfoldable pub elem_size : ℕ → Val → Typ → Result ℕ
elem_size f val t = if is_basic_type (kind t) then determine_fixed_size f val t else ok 32

unfoldable pub slice_limit : ℕ → ℕ → ℕ → ℕ
unfolding item_limit
slice_limit max size n =
    let limit = item_limit max size in if limit == 0 then (if n == 0 then 1 else n) else limit

module _ (env : Env) where
  -- The Root method of a factory: the value, its type, the field's name and the capacity.
  abbrev pub Hasher : Type 0
  Hasher = Val → Typ → Text → ℕ → Hashing env Buf

  -- One root or leaf for each item.
  unfoldable pub hash_items : (Val → Hashing env Buf) → Vals → Hashing env (List Buf)
  hash_items self nil = done []
  hash_items self (cons v vs) = do root ← self v; roots ← hash_items self vs; done (root ∷ roots)

  -- pack, then bitwiseMerkleize of all chunks.
  unfoldable pub packed_root : (ℕ → ℕ) → List Buf → Hashing env Buf
  packed_root limit leaves = do
    chunks ← lift (pack leaves)
    lift (bitwise_merkleize env.sha env.merkleize chunks (length chunks) (limit (length chunks)))

  unfoldable pub store_array_root : Bool → Buf → Buf → Hashing env Buf
  store_array_root cached key root = do
    modify (λ w. if cached then record w { arrays = env.set w.arrays key root } else w)
    done root

  unfoldable pub array_root_of : Bool → Buf → List Buf → Option Buf → Hashing env Buf
  array_root_of cached key leaves (some root) = done root
  array_root_of cached key leaves none = do
    root ← packed_root (λ n. n) leaves
    store_array_root cached key root

  unfoldable pub basic_array_root : ℕ → (Factory → Hasher) → Hasher
  unfolding items
  basic_array_root f run val typ name max = do
    vs ← lift (items val)
    t ← lift (elem_type typ)
    factory ← lift (first_factory f vs t)
    leaves ← hash_items (λ v. run factory v t [] 0) vs
    w ← caches
    let key = env.sum (key_elements leaves)
    let cached = is_cached_key env (count_vals vs) key
    array_root_of cached key leaves (if cached then env.get w.arrays key else none)

  -- A leaf of basicSliceSSZ: a number is marshalled, another item hashed.
  unfoldable pub slice_leaf :
      ℕ → (Factory → Hasher) → Factory → Typ → ℕ → Text → Val → Hashing env Buf
  slice_leaf f run factory t size name v = do
    u ← lift (type_of v)
    (if is_basic_type (kind u)
        then (do (buf, index) ← lift (marshal_with f factory v t (replicate size 0) 0); done buf)
        else run factory v t name 0)

  unfoldable pub mixed_root : (ℕ → ℕ) → ℕ → List Buf → Hashing env Buf
  mixed_root limit n leaves = do
    root ← packed_root limit leaves
    done (mix_in_length env.sha env.merkleize root (length_chunk n))

  -- basicSliceSSZ.Root
  unfoldable pub basic_slice_root : ℕ → (Factory → Hasher) → Hasher
  unfolding items
  basic_slice_root f run val typ name max = do
    vs ← lift (items val)
    t ← lift (elem_type typ)
    factory ← lift (first_factory f vs t)
    size ← lift (elem_size f val t)
    leaves ← hash_items (slice_leaf f run factory t size name) vs
    mixed_root (λ n. slice_limit max size (count_vals vs)) (count_vals vs) leaves

  -- compositeSliceSSZ.Root of a slice that is empty and has no capacity
  unfoldable pub no_items_root : Hashing env Buf
  no_items_root = do
    root ← lift (bitwise_merkleize env.sha env.merkleize [] 0 0)
    done (mix_in_length env.sha env.merkleize root (replicate 32 0))

  -- compositeSliceSSZ.Root
  unfoldable pub composite_slice_root : ℕ → (Factory → Hasher) → Hasher
  unfolding items
  composite_slice_root f run val typ name max = do
    vs ← lift (items val)
    (if count_vals vs == 0 && max == 0 then no_items_root else (do
      t ← lift (elem_type typ)
      factory ← lift (first_factory f vs t)
      roots ← hash_items (λ v. run factory v t name 0) vs
      mixed_root (λ n. if max == 0 then count_vals vs else max) (count_vals vs) roots))

  -- compositeArraySSZ.Root
  unfoldable pub composite_array_root : ℕ → (Factory → Hasher) → Hasher
  unfolding items
  composite_array_root f run val typ name max = do
    vs ← lift (items val)
    t ← lift (elem_type typ)
    factory ← lift (first_factory f vs t)
    size ← lift (elem_size f val t)
    roots ← hash_items (λ v. run factory v t [] 0) vs
    (if count_vals vs == 0
        then lift (bitwise_merkleize env.sha env.merkleize [] 0 (item_limit (count_vals vs) size))
        else packed_root (λ n. item_limit (count_vals vs) size) roots)
