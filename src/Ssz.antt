-- ===== src/Ssz.antt =====
-- What the format promises: serialization of the Simple Serialize specification, over schemas
-- and values of its own. doc.go refers to that specification. Offsets are modulo 2^32, so that items of
-- 2^32 bytes or more, which SSZ refuses, have bytes here.
pub mod Parts
pub mod Tree
pub mod Lengths
use go_ssz.Prelude.{ℕ, zero, suc, ◌+◌, Bool, true, false, List, [], ◌∷◌, ◌++◌, ◌||◌, length}
use go_ssz.Buffer.{Buf, le_bytes}
use Parts.{Part, fixed, variable, part, head_length, heads, tails, join}
use Prim.Native.Nat.{max}

-- `uint w` is an unsigned integer of `w` bytes.
mutual
  pub data Schema : Type 0 where
    boolean : Schema
    uint : ℕ → Schema
    list : Schema → Schema
    vector : ℕ → Schema → Schema
    container : Schemas → Schema

  pub data Schemas : Type 0 where
    nil : Schemas
    cons : Schema → Schemas → Schemas

mutual
  pub data Item : Type 0 where
    num : ℕ → Item
    seq : Items → Item

  pub data Items : Type 0 where
    nil : Items
    cons : Item → Items → Items

abbrev pub count_items : Items → ℕ
count_items nil = 0
count_items (cons x xs) = suc (count_items xs)

unfoldable mutual
  pub is_variable : Schema → Bool
  is_variable boolean = false
  is_variable (uint w) = false
  is_variable (list s) = true
  is_variable (vector n s) = is_variable s
  is_variable (container ss) = any_variable ss

  pub any_variable : Schemas → Bool
  any_variable nil = false
  any_variable (cons s ss) = is_variable s || any_variable ss

-- The nesting depth of a schema.
unfoldable mutual
  pub depth : Schema → ℕ
  depth boolean = 1
  depth (uint w) = 1
  depth (list s) = suc (depth s)
  depth (vector n s) = suc (depth s)
  depth (container ss) = suc (depth_all ss)

  pub depth_all : Schemas → ℕ
  depth_all nil = 0
  depth_all (cons s ss) = max (depth s) (depth_all ss)

-- An item that does not fit its schema has no bytes.
unfoldable mutual
  unfolding is_variable join le_bytes

  pub serialize : Schema → Item → Buf
  serialize boolean (num n) = le_bytes 1 n
  serialize (uint w) (num n) = le_bytes w n
  serialize (list s) (seq xs) = join (parts_of s xs)
  serialize (vector n s) (seq xs) = join (parts_of s xs)
  serialize (container ss) (seq xs) = join (parts ss xs)
  serialize _ _ = []

  -- One schema for all items.
  pub parts_of : Schema → Items → List Part
  parts_of s nil = []
  parts_of s (cons x xs) = part (is_variable s) (serialize s x) ∷ parts_of s xs

  -- A schema for each item.
  pub parts : Schemas → Items → List Part
  parts (cons s ss) (cons x xs) = part (is_variable s) (serialize s x) ∷ parts ss xs
  parts _ _ = []
