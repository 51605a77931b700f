-- ===== src/Ssz/Tree.antt =====
-- The hash tree root of an item, as the SSZ specification describes it, over SHA-256 and Merkleize: every
-- list has a limit on its number of items, and its length is mixed in as a number of 32 bytes. A root is an
-- error where a list in the item is over its limit.
use go_ssz.Prelude.{
  ℕ, ◌+◌, ◌*◌, ◌/◌, ◌<◌, Bool, true, false, List, [], ◌∷◌, ◌++◌, length, replicate, ◌≡◌,
}
use go_ssz.Prelude.{if◌then◌else◌, ltb, ◌==◌, Result, ok, err, ◌>>=◌, over_limit}
use go_ssz.Buffer.{Buf, le_bytes}
use go_ssz.Chunks.Cut.{InChunks, padding}
use go_ssz.Ssz.{Schema, Schemas, Item, Items, serialize, count_items}

-- Numbers and booleans, with their width
abbrev pub is_number : Schema → Bool
is_number Schema.boolean = true
is_number (Schema.uint w) = true
is_number _ = false

abbrev pub width : Schema → ℕ
width Schema.boolean = 1
width (Schema.uint w) = w
width _ = 0

-- What is left of a container without its last field
abbrev pub but_last : Schemas → Schemas
but_last Schemas.nil = Schemas.nil
but_last (Schemas.cons s Schemas.nil) = Schemas.nil
but_last (Schemas.cons s (Schemas.cons t ss)) = Schemas.cons s (but_last (Schemas.cons t ss))

abbrev pub but_last_item : Items → Items
but_last_item Items.nil = Items.nil
but_last_item (Items.cons x Items.nil) = Items.nil
but_last_item (Items.cons x (Items.cons y xs)) = Items.cons x (but_last_item (Items.cons y xs))

-- What packs into chunks as it is serialized: numbers, and vectors of numbers.
abbrev pub is_packed : Schema → Bool
is_packed Schema.boolean = true
is_packed (Schema.uint w) = true
is_packed (Schema.vector n s) = is_number s
is_packed _ = false

-- The chunks that hold the bytes, the last of them padded. No bytes are a zero chunk, with which Merkleize
-- pads where there is none.
abbrev pub Chunked : List Buf → Buf → Type 0
Chunked cs bs = InChunks cs (bs ++ padding (length bs))

-- The limits of the lists in an item: none for what has no list in it, one for a list, with those of its
-- items, and those of the parts for a vector or a container.
mutual
  pub data Limits : Type 0 where
    none : Limits
    list : ℕ → LimitList → Limits
    all : LimitList → Limits

  pub data LimitList : Type 0 where
    nil : LimitList
    cons : Limits → LimitList → LimitList

-- Merkleize pads with zero chunks: where a limit leaves room for one, no chunks are a zero chunk.
abbrev pub leaves : ℕ → List Buf → List Buf
leaves limit [] = if limit == 0 then [] else replicate 32 0 ∷ []
leaves limit (root ∷ roots) = root ∷ roots

module _ (sha : Buf → Buf) (merkle : ℕ → ℕ → List Buf → Buf) where
  abbrev pub within : ℕ → List Buf → Result Buf
  within limit chunks =
      if ltb limit (length chunks) then err over_limit else ok (merkle (length chunks) limit chunks)

  -- The root of a list of `n` items: their number is mixed in as a uint256.
  abbrev pub list_within : ℕ → ℕ → List Buf → Result Buf
  list_within limit n chunks = within limit chunks >>= λ root. ok (sha (root ++ le_bytes 32 n))

  -- A list of `n` numbers of `size` bytes, the limit of which is not 0
  abbrev pub numbers_within : ℕ → ℕ → ℕ → Buf → List Buf → Result Buf
  numbers_within limit size n bs chunks =
      if ltb (limit * size) (length bs)
      then err over_limit
      else ok (sha (merkle (length chunks) ((limit * size + 31) / 32) chunks ++ le_bytes 32 n))

  mutual
    pub data TreeRoot : Schema → Limits → Item → Result Buf → Type 0 where
      packed :
          {s : Schema} {x : Item} {cs : List Buf}
          → is_packed s ≡ true
          → Chunked cs (serialize s x)
          → TreeRoot s Limits.none x (ok (merkle (length cs) (length cs) cs))
      numbers :
          {s : Schema} {limit : ℕ} {xs : Items} {cs : List Buf}
          → is_number s ≡ true
          → 0 < limit
          → Chunked cs (serialize (Schema.list s) (Item.seq xs))
          → TreeRoot (Schema.list s) (Limits.list limit LimitList.nil) (Item.seq xs) (
              numbers_within limit
                (width s)
                (count_items xs)
                (serialize (Schema.list s) (Item.seq xs))
                cs)
      list :
          {s : Schema} {limit : ℕ} {ls : LimitList} {xs : Items} {roots : Result (List Buf)}
          → is_number s ≡ false
          → TreeRoots s ls xs roots
          → TreeRoot
              (Schema.list s)
              (Limits.list limit ls)
              (Item.seq xs)
              (roots >>= λ rs. list_within limit (count_items xs) (leaves limit rs))
      vector :
          {n : ℕ} {s : Schema} {ls : LimitList} {xs : Items} {roots : Result (List Buf)}
          → is_number s ≡ false
          → TreeRoots s ls xs roots
          → TreeRoot
              (Schema.vector n s)
              (Limits.all ls)
              (Item.seq xs)
              (roots >>= λ rs. ok (merkle (length rs) (length rs) rs))
      container :
          {ss : Schemas} {ls : LimitList} {xs : Items} {roots : Result (List Buf)}
          → FieldTreeRoots ss ls xs roots
          → TreeRoot
              (Schema.container ss)
              (Limits.all ls)
              (Item.seq xs)
              (roots >>= λ rs. ok (merkle (length rs) (length rs) rs))

    -- The roots of the items of a sequence, up to the first error
    pub data TreeRoots : Schema → LimitList → Items → Result (List Buf) → Type 0 where
      no_items : {s : Schema} → TreeRoots s LimitList.nil Items.nil (ok [])
      each :
          {s : Schema} {l : Limits} {ls : LimitList} {x : Item} {xs : Items} {r : Result Buf}
          {roots : Result (List Buf)}
          → TreeRoot s l x r
          → TreeRoots s ls xs roots
          → TreeRoots s
              (LimitList.cons l ls)
              (Items.cons x xs)
              (r >>= λ root. roots >>= λ rs. ok (root ∷ rs))

    pub data FieldTreeRoots : Schemas → LimitList → Items → Result (List Buf) → Type 0 where
      no_fields : FieldTreeRoots Schemas.nil LimitList.nil Items.nil (ok [])
      keep :
          {s : Schema} {ss : Schemas} {l : Limits} {ls : LimitList} {x : Item} {xs : Items}
          {r : Result Buf} {roots : Result (List Buf)}
          → TreeRoot s l x r
          → FieldTreeRoots ss ls xs roots
          → FieldTreeRoots
              (Schemas.cons s ss)
              (LimitList.cons l ls)
              (Items.cons x xs)
              (r >>= λ root. roots >>= λ rs. ok (root ∷ rs))
