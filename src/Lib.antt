-- ===== src/Lib.antt =====
-- go-ssz, an implementation of Ethereum's Simple Serialize (SSZ) by reflection.
--
-- The program. `Marshal` (ssz.go) allocates a buffer of the size that `DetermineSize`
-- (types/determine_size.go) finds, picks an implementation of `SSZAble` for the value's type by
-- `SSZFactory` (types/factory.go), and lets it write the value; composite implementations call
-- `SSZFactory` again for their items and fields. `HashTreeRoot` calls Root of the same
-- implementations. Struct tags (types/struct.go) change the types of fields: "ssz-size" turns slices
-- into arrays.
--
-- The files.
-- Reflect: what the code uses of package reflect. A type is a finite tree, with the tags of struct
--   fields as `Tag.Lookup` finds them; a value holds as much of its type as reflect reads from it.
-- Tags: types/struct.go from `determineFieldType` on, with strconv.ParseUint and strings.Split.
-- Size: types/determine_size.go.
-- Factory: `SSZFactory`.
-- Buffer: Go's index and copy expressions on a byte slice, and encoding/binary; Buffer/Writes says
--   what it means that a writer replaces a stretch of a buffer.
-- Marshal: the Marshal methods of types/basic.go, string.go, struct.go, slice_basic.go,
--   slice_composite.go, array_basic.go, array_composite.go and array_roots.go, and `Marshal` of ssz.go.
--   Its children prove what the loops (Layout, Loops), the leaves (Bytes), sequences (Sequences), the
--   recursion (Refines) and the exported function (Exported) write.
-- Input: the byte slice that Unmarshal reads, with its capacity. Equal: identity of types. Grow: the
--   slice-growing helpers of types/helpers.go.
-- Decode, DecodeSlices and Unmarshal: the Unmarshal methods of the same files, and `Unmarshal` of
--   ssz.go. The children of Unmarshal say which items are decoded at which types (Decodes), and prove
--   what the leaves (Leaves), sequences of items of fixed size (InOrder, Slices) and of variable
--   size (Offsets, Composites, Places), structs (FieldSizes, FieldOffsets, FieldSteps, Structs,
--   StructReads), all of them (RoundTrip), what they leave (Plain, SameValue), loops over offsets
--   (Ends, OffsetLoops), arrays of roots (RootArrays) and the exported function (Exported) read; Rooms,
--   Targets and Zeros are about the values that are written to.
-- DeepEqual: deep_equal.go; DeepEqual/Canon is about what it finds equal, DeepEqual/Unexported about
--   unexported fields.
-- Ssz: schemas, items and their serialization, as the SSZ specification describes them. Ssz/Tree: the
--   hash tree roots of items whose lists have limits. Ssz/Lengths: the length that is mixed in.
-- Represents: which Go types and values stand for which schemas and items. Its children prove what
--   the functions of Size and Factory find of these; Represents/Capacities adds those of lists.
-- Chunks: `pack`, `bitwiseMerkleize` and `mixInLength` of types/helpers.go, and types/bitlist.go.
--   Its children are about `pack` (Cut, Pack), roots within a limit (Limited) and bitlists (Bitfields).
-- Roots: the Root methods of types/basic.go and types/string.go, with the cache as a state;
--   Roots/Cached is about the former, Roots/Strings about the latter.
-- Layers: `merkleize`, `isPowerOf2` and `recomputeRoot` of types/array_roots.go, on the layers that are
--   kept for one field. Its children are about the powers of two (Powers), the layers built (Built)
--   and the layers recomputed (Recompute).
-- Hashing: what the Root methods share, as a state and error monad over the caches of
--   types/array_basic.go, types/array_roots.go and types/basic.go. RootArrays: rootsArraySSZ.Root.
--   SequenceRoots: the Root methods of the other slices and arrays. HashTree: `FieldsHasher`, the Root
--   of structs, and the functions of ssz.go that return roots. The children of HashTree say what roots
--   come from capacities (Capped), which limits the program gives lists (Limits) and that the roots
--   are then those of Ssz/Tree (Specified), what a call gives from any sound caches (Calls), and prove what the leaves (Leaves, Numbers), items (Items),
--   arrays (Arrays, RootVectors), slices (Slices), structs (Containers), all of them (Refines) and
--   the functions of ssz.go (Exported, Signing) give. Unique compares two calls, Ends is about
--   what a call ends in, Bits about bitfields, Refusals about errors, panics and roots that miss a
--   field, and Stale about what is kept between calls.
-- Tests: runs and instances.
--
-- Conventions. A call ends in `ok`, a returned error, a run-time panic, or `stuck`. The last is no
-- outcome of the program: functions that recur on values and types whose parts are computed (struct
-- tags change types, nil pointers become zero values) take fuel, and it stands for too little of
-- it. The theorems give the fuel that is enough: eight times the depth of the schema, and three
-- to five more where a function begins with a pointer or with a call of another. Numbers are natural numbers: those of Go
-- values are bit patterns below 2^w, uint64 sums wrap, and a length is below 2^64 by hypothesis, which
-- a Go slice's always is. Texts of errors are left out.
--
-- A call of Unmarshal takes the value that it writes to and returns the value that it leaves; what a
-- failed call leaves is not modelled, nor are targets that share memory with each other or the input.
-- A slice expression may reach behind the length of the input, up to its capacity, as in Go.
--
-- SHA-256, Merkleize and GetDepth of zssz, highwayhash, the caches of ristretto and the bitfields of
-- go-bitfield are parameters, with the names of struct types and what ToggleCache last set. Of
-- a cache it is assumed that Get returns nothing but what Set stored under the same key, of Merkleize that
-- it reads as many leaves as it is told to and builds a Merkle tree over leaves of 32 bytes, and of SHA-256 and of
-- Merkleize that they return 32 bytes. The loops of `merkleize` take fuel, and a number above the
-- padded number of leaves is enough. The loops over the offsets of an input have a round for each
-- byte of its capacity, and one more.
--
-- SSZ gives every list a limit by its type. The program has capacities for fields only: a list without
-- one gets a limit from the number of its own items (types/slice_basic.go, types/slice_composite.go) or one
-- chunk (types/string.go). That is no rule of SSZ: HashTree/Limits has it as a relation between an item
-- and limits, and the theorems on roots are about the roots that SSZ has for these limits. The
-- program counts chunks, so a list of numbers that exceeds its limit must fill another chunk to be
-- refused; the relation leaves out the lists between.
--
-- The serialization of Ssz.antt has its offsets modulo 2^32, as uint32(...) in types/struct.go has. For
-- an item of less than 2^32 bytes that is the serialization of SSZ, which refuses longer ones.
--
-- Limits. The fields of structs are exported ones: Interface() and the Set methods of reflect panic on
-- values of others, which only DeepEqual models, for names that begin with an ASCII letter. Embedded
-- fields are as others. Defined types (`type T []byte`) and types that contain themselves are not modelled, so the
-- type assertions on unnamed types never fail for a value of the right kind. A value that stands for an
-- item has items of its own type in every sequence of variable size, since DetermineSize reads them at
-- their own types; byte slices in the place of byte arrays are covered. Pointers are covered as
-- pointers to structs, the only ones under a composite that a factory accepts.
-- The round trips are for the types of Unmarshal/Decodes: arrays have items and are not arrays of
-- roots, structs have fields, no size tags, and protobuf metadata at their end only.
-- The theorems on HashTreeRoot are for the values of Represents/Capacities: capacities are below 2^58,
-- metadata stands at the end, arrays of composite items are not empty, and no value is a Bitlist. The
-- caches of arrays are off there, as they are unless ToggleCache is called; HashTree/Stale has them on.
-- Not modelled: the addresses that DeepEqual compares, its map of visited pairs, and interfaces; the
-- locks of the caches, and calls at the same time.
pub mod Prelude
pub mod Reflect
pub mod Tags
pub mod Size
pub mod Factory
pub mod Buffer
pub mod Marshal
pub mod Ssz
pub mod Chunks
pub mod Roots
pub mod Layers
pub mod Hashing
pub mod RootArrays
pub mod SequenceRoots
pub mod HashTree
pub mod Equal
pub mod Grow
pub mod Input
pub mod DeepEqual
pub mod Decode
pub mod DecodeSlices
pub mod Unmarshal
pub mod Represents
mod Tests
