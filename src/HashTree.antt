-- ===== src/HashTree.antt =====
-- structSSZ.Root and FieldsHasher (types/struct.go), the dispatch to the Root of each factory, and
-- the functions of ssz.go that return roots.
pub mod Capped
pub mod Limits
pub mod Specified
pub mod Calls
pub mod Leaves
pub mod Items
pub mod Arrays
pub mod RootVectors
pub mod Slices
pub mod Numbers
pub mod Containers
pub mod Refines
pub mod Exported
pub mod Unique
pub mod Signing
pub mod Refusals
pub mod Ends
pub mod Bits
pub mod Stale
use go_ssz.Prelude.{ℕ, zero, suc, List, [], ◌∷◌, ◌++◌, Option, none, some}
use go_ssz.Prelude.{if◌then◌else◌, replicate, Result, ok, err, panic, stuck}
use go_ssz.Prelude.{untyped_nil, not_a_slice, nil_value}
use go_ssz.Buffer.{Buf}
use go_ssz.Reflect.{Typ, Fields, Text, Val, Vals, cons, end, field, type_of, field_vals}
use go_ssz.Reflect.{zero_value}
use go_ssz.Tags.{has_prefix, xxx, determine_field_type, determine_field_capacity}
use go_ssz.Factory.{Factory, ssz_factory}
use go_ssz.Chunks.{bitwise_merkleize, bitlist_root, bitvector4_root}
use go_ssz.Roots.{basic_root, string_root}
use go_ssz.Hashing.{Env, Hashing, lift, done, ◌>>=◌}
use go_ssz.RootArrays.{roots_array_root}
use go_ssz.Unmarshal.{count_fields, is_slice}
use go_ssz.SequenceRoots.{
  Hasher, basic_array_root, basic_slice_root, composite_slice_root, composite_array_root,
}

module _ (env : Env) where
  -- What the loop of FieldsHasher ends in: all roots, with an empty one for a field that it skips, and
  -- the number of fields that it counts; or `none`, where a bitlist has no root and the method returns
  -- 32 zero bytes.
  abbrev pub FieldRoots : Type 0
  FieldRoots = Option (List Buf × ℕ)

  unfoldable pub with_root : Buf → Hashing env FieldRoots → Hashing env FieldRoots
  with_root root rest = do
    found ← rest
    elim found [ none ↦ done none | some (roots, n) ↦ done (some (root ∷ roots, suc n)) ]

  unfoldable pub without_root : Hashing env FieldRoots → Hashing env FieldRoots
  without_root rest = do
    found ← rest
    elim found [ none ↦ done none | some (roots, n) ↦ done (some ([] ∷ roots, n)) ]

  -- A field that is no bitlist
  unfoldable pub field_root :
      ℕ → (Factory → Hasher env) → Text → Option Text → ℕ → Typ → Val → Hashing env Buf
  field_root f run name size max t v = do
    f_type ← lift (determine_field_type size t)
    factory ← lift (ssz_factory f v f_type)
    run factory v f_type name max

  -- The field `b`, a bitlist
  unfoldable pub bitlist_field :
      Option env.Bitfield → ℕ → Hashing env FieldRoots → Hashing env FieldRoots
  bitlist_field b max rest =
      elim (bitlist_root env.sha env.merkleize env.bit_length env.bytes b max) [
        | ok root ↦ with_root root rest
        | err e ↦ done none
        | panic ↦ lift panic
        | stuck ↦ lift stuck
      ]

  -- The loop of FieldsHasher over the first `n` fields, which are exported: Interface panics on others.
  unfoldable pub field_roots :
      ℕ → (Factory → Hasher env) → Text → ℕ → Fields → Vals → Hashing env FieldRoots
  field_roots f run struct_name zero fs vs = done (some ([], 0))
  field_roots f run struct_name (suc n) (field name size max t fs) (cons v vs) =
      let rest = field_roots f run struct_name n fs vs in
      let capacity = determine_field_capacity max in
      let hashed =
        (field_root f run (struct_name ++ (b'.' ∷ name)) size capacity t v >>= λ root.
        with_root root rest) in
      let kept : Hashing env FieldRoots = elim (env.as_bitlist v) [
        | some b ↦ bitlist_field b capacity rest
        | none ↦ hashed
      ] in
      if has_prefix name xxx then without_root rest else kept
  field_roots f run struct_name (suc n) fs vs = lift panic

  -- structSSZ.FieldsHasher
  unfoldable pub fields_hasher : ℕ → (Factory → Hasher env) → Val → Fields → ℕ → Hashing env Buf
  unfolding field_vals
  fields_hasher f run val fs n = do
    vs ← lift (field_vals val)
    found ← field_roots f run (env.type_name fs) n fs vs
    elim found [
      | none ↦ done (replicate 32 0)
      | some (roots, count) ↦ lift (bitwise_merkleize env.sha env.merkleize roots count count)
    ]

  -- Type.NumField
  unfoldable pub num_field : Fields → ℕ
  num_field end = 0
  num_field (field name size max t fs) = suc (num_field fs)

  unfoldable pub of_basic : (env.Cache → Result Buf × env.Cache) → Hashing env Buf
  of_basic m w = let (r, cache) = m w.basic in (r, record w { basic = cache })

  -- The Root of each factory. A pointer reaches structSSZ only.
  unfoldable pub root_with : ℕ → Factory → Hasher env
  unfolding zero_value
  root_with zero factory val typ name max = lift stuck
  root_with (suc f) Factory.basic val typ name max =
      of_basic (λ cache. basic_root env.sha env.merkleize env.get env.set f cache val typ)
  root_with (suc f) Factory.string val typ name max =
      lift (string_root env.sha env.merkleize val max)
  root_with (suc f) Factory.roots_array val typ name max = roots_array_root env val name
  root_with (suc f) Factory.basic_slice val typ name max =
      basic_slice_root env f (root_with f) val typ name max
  root_with (suc f) Factory.composite_slice val typ name max =
      composite_slice_root env f (root_with f) val typ name max
  root_with (suc f) Factory.basic_array val typ name max =
      basic_array_root env f (root_with f) val typ name max
  root_with (suc f) Factory.composite_array val typ name max =
      composite_array_root env f (root_with f) val typ name max
  root_with (suc f) Factory.struct val (Typ.struct fs) name max =
      fields_hasher f (root_with f) val fs (num_field fs)
  root_with (suc f) Factory.struct (Val.nil_ptr u) (Typ.ptr t) name max =
      root_with f Factory.struct (zero_value t) t name max
  root_with (suc f) Factory.struct (Val.ptr v) (Typ.ptr t) name max =
      root_with f Factory.struct v t name max
  root_with (suc f) Factory.struct val typ name max = lift panic

  -- SSZFactory, and the Root of what it finds, without a field's name
  unfoldable pub root_at : ℕ → Val → ℕ → Hashing env Buf
  root_at f val max = do
    t ← lift (type_of val)
    factory ← lift (ssz_factory f val t)
    root_with f factory val t [] max

  -- HashTreeRoot; `none` is an untyped nil.
  unfoldable pub hash_tree_root : ℕ → Option Val → Hashing env Buf
  hash_tree_root f none = lift (err untyped_nil)
  hash_tree_root f (some val) = root_at f val 0

  -- HashTreeRootWithCapacity
  unfoldable pub hash_tree_root_with_capacity : ℕ → Option Val → ℕ → Hashing env Buf
  hash_tree_root_with_capacity f none max = lift (err untyped_nil)
  hash_tree_root_with_capacity f (some val) max =
      if is_slice val then root_at f val max else lift (err not_a_slice)

  -- HashTreeRootBitfield; `none` is a nil interface, which is no Bitvector4.
  unfoldable pub hash_tree_root_bitfield : Option env.Bitfield → ℕ → Result Buf
  hash_tree_root_bitfield none max =
      bitlist_root env.sha env.merkleize env.bit_length env.bytes none max
  hash_tree_root_bitfield (some b) max =
      if env.is_bitvector4 b
      then bitvector4_root env.sha env.merkleize env.bit_length env.bytes (some b) 4
      else bitlist_root env.sha env.merkleize env.bit_length env.bytes (some b) max

  -- FieldsHasher of all fields but one, of the number that there are; `make` panics at a negative
  -- number.
  unfoldable pub all_but_one : ℕ → Fields → Vals → ℕ → Hashing env Buf
  all_but_one f fs vs zero = lift panic
  all_but_one f fs vs (suc n) = fields_hasher f (root_with f) (Val.struct fs vs) fs n

  -- `totalFields` counts the fields that are no protobuf metadata.
  unfoldable pub signing_fields : ℕ → Val → Hashing env Buf
  unfolding count_fields
  signing_fields f (Val.struct fs vs) = all_but_one f fs vs (count_fields fs)
  signing_fields f val = lift panic

  -- SigningRoot
  unfoldable pub signing_root : ℕ → Option Val → Hashing env Buf
  signing_root f none = lift (err untyped_nil)
  signing_root f (some (Val.nil_ptr t)) = lift (err nil_value)
  signing_root f (some (Val.ptr v)) = signing_fields f v
  signing_root f (some val) = signing_fields f val
