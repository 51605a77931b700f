-- ===== src/HashTree/Capped.antt =====
-- The hash tree root of an item as the program takes it from the capacities of the lists, over SHA-256 and
-- Merkleize: it stands between the Root methods and the specification of Ssz/Tree.antt, which knows
-- limits only. A root is an error where a list in the item is over its limit.
use go_ssz.Prelude.{
  ℕ, ◌+◌, ◌*◌, ◌/◌, Bool, true, false, List, [], ◌∷◌, ◌++◌, length, replicate, ◌≡◌, ◌&&◌,
}
use go_ssz.Prelude.{if◌then◌else◌, ◌==◌, Result, ok, ◌>>=◌}
use go_ssz.Buffer.{Buf}
use go_ssz.Chunks.{length_chunk}
use go_ssz.Ssz.{Schema, Schemas, Item, Items, is_variable, serialize, count_items}
pub use go_ssz.Ssz.Tree.{is_number, width, but_last, but_last_item, is_packed, Chunked, within}

-- The capacities of the lists that stand as fields in an item. `text` is for a list of bytes that
-- takes one chunk where it has no capacity.
mutual
  pub data Caps : Type 0 where
    open_end : Caps
    text : Caps
    fields : FieldCaps → Caps

  pub data FieldCaps : Type 0 where
    nil : FieldCaps
    cons : ℕ → Caps → FieldCaps → FieldCaps

abbrev pub but_last_caps : FieldCaps → FieldCaps
but_last_caps FieldCaps.nil = FieldCaps.nil
but_last_caps (FieldCaps.cons m c FieldCaps.nil) = FieldCaps.nil
but_last_caps (FieldCaps.cons m c (FieldCaps.cons n d cs)) =
    FieldCaps.cons m c (but_last_caps (FieldCaps.cons n d cs))

-- The limit, in chunks, of a list with the capacity `max` and `n` items of `size` bytes.
abbrev pub chunk_limit : ℕ → ℕ → ℕ → ℕ
chunk_limit max size n =
    let limit = (max * size + 31) / 32 in if limit == 0 then (if n == 0 then 1 else n) else limit

abbrev pub text_limit : ℕ → ℕ
text_limit max = let limit = (max + 31) / 32 in if limit == 0 then 1 else limit

abbrev pub or_zero_chunk : List Buf → List Buf
or_zero_chunk [] = replicate 32 0 ∷ []
or_zero_chunk (root ∷ roots) = root ∷ roots

module _ (sha : Buf → Buf) (merkle : ℕ → ℕ → List Buf → Buf) where
  -- The number of items is mixed in.
  abbrev pub mixed : ℕ → ℕ → List Buf → Result Buf
  mixed limit n chunks =
      within sha merkle limit chunks >>= λ root. ok (sha (root ++ length_chunk n))

  -- The root of a list of items with their own roots. If they have a variable size, and neither they
  -- nor a capacity are there, there is no chunk.
  abbrev pub list_root : Bool → ℕ → ℕ → List Buf → Result Buf
  list_root variable max n roots =
      if variable && (n == 0 && max == 0)
      then mixed 0 0 []
      else mixed (chunk_limit max 32 n) n (or_zero_chunk roots)

  mutual
    pub data HasRoot : Schema → Caps → ℕ → Item → Result Buf → Type 0 where
      packed :
          {s : Schema} {c : Caps} {max : ℕ} {x : Item} {cs : List Buf}
          → is_packed s ≡ true
          → Chunked cs (serialize s x)
          → HasRoot s c max x (within sha merkle (length cs) cs)
      number_list :
          {s : Schema} {max : ℕ} {xs : Items} {cs : List Buf}
          → is_number s ≡ true
          → Chunked cs (serialize (Schema.list s) (Item.seq xs))
          → HasRoot
              (Schema.list s)
              Caps.open_end
              max
              (Item.seq xs)
              (mixed (chunk_limit max (width s) (count_items xs)) (count_items xs) cs)
      text :
          {max : ℕ} {xs : Items} {cs : List Buf}
          → Chunked cs (serialize (Schema.list (Schema.uint 1)) (Item.seq xs))
          → HasRoot
              (Schema.list (Schema.uint 1))
              Caps.text
              max
              (Item.seq xs)
              (mixed (text_limit max) (count_items xs) cs)
      vector :
          {n : ℕ} {s : Schema} {c : Caps} {max : ℕ} {xs : Items} {roots : Result (List Buf)}
          → is_number s ≡ false
          → HaveRoots s c xs roots
          → HasRoot
              (Schema.vector n s)
              c
              max
              (Item.seq xs)
              (roots >>= λ rs. within sha merkle (length rs) rs)
      list :
          {s : Schema} {c : Caps} {max : ℕ} {xs : Items} {roots : Result (List Buf)}
          → is_number s ≡ false
          → HaveRoots s c xs roots
          → HasRoot
              (Schema.list s)
              c
              max
              (Item.seq xs)
              (roots >>= λ rs. list_root (is_variable s) max (count_items xs) rs)
      container :
          {ss : Schemas} {cs : FieldCaps} {max : ℕ} {xs : Items} {roots : Result (List Buf)}
          → FieldsHaveRoots ss cs xs roots
          → HasRoot
              (Schema.container ss)
              (Caps.fields cs)
              max
              (Item.seq xs)
              (roots >>= λ rs. within sha merkle (length rs) rs)

    -- The roots of the items of a sequence, up to the first error
    pub data HaveRoots : Schema → Caps → Items → Result (List Buf) → Type 0 where
      no_items : {s : Schema} {c : Caps} → HaveRoots s c Items.nil (ok [])
      each :
          {s : Schema} {c : Caps} {x : Item} {xs : Items} {r : Result Buf}
          {roots : Result (List Buf)}
          → HasRoot s c 0 x r
          → HaveRoots s c xs roots
          → HaveRoots s c (Items.cons x xs) (r >>= λ root. roots >>= λ rs. ok (root ∷ rs))

    pub data FieldsHaveRoots : Schemas → FieldCaps → Items → Result (List Buf) → Type 0 where
      no_fields : FieldsHaveRoots Schemas.nil FieldCaps.nil Items.nil (ok [])
      keep :
          {s : Schema} {ss : Schemas} {max : ℕ} {c : Caps} {cs : FieldCaps} {x : Item} {xs : Items}
          {r : Result Buf} {roots : Result (List Buf)}
          → HasRoot s c max x r
          → FieldsHaveRoots ss cs xs roots
          → FieldsHaveRoots
              (Schemas.cons s ss)
              (FieldCaps.cons max c cs)
              (Items.cons x xs)
              (r >>= λ root. roots >>= λ rs. ok (root ∷ rs))
