-- ===== src/HashTree/Limits.antt =====
-- Which limit the Root methods of types/slice_basic.go, types/slice_composite.go and types/string.go give a list:
-- its capacity, where it has one. A list without a capacity gets one from the number of its
-- items; no item of a list or a vector has a capacity. These limits are the program's own.
use go_ssz.Prelude.{ℕ, ◌+◌, ◌*◌, ◌/◌, ◌<◌, ◌≤◌, ◌^◌, ◌≡◌, ◌⊎◌, Bool, true, false, length, ◌&&◌}
use go_ssz.Prelude.{if◌then◌else◌, ◌==◌}
use go_ssz.Buffer.{Buf}
use go_ssz.Ssz.{Schema, Schemas, Item, Items, is_variable, serialize, count_items}
use go_ssz.Ssz.Tree.{Limits, LimitList, is_number, is_packed, width}
use go_ssz.HashTree.Capped.{Caps, FieldCaps}

-- Numbers without a capacity: a chunk for each item.
abbrev pub number_limit : ℕ → ℕ → ℕ → ℕ
number_limit max size n = if max == 0 then (if n == 0 then 1 else n) * (32 / size) else max

-- Bytes without a capacity: a chunk.
abbrev pub byte_limit : ℕ → ℕ
byte_limit max = if max == 0 then 32 else max

-- Composite items without a capacity: as many as there are, but one of a fixed size at least.
abbrev pub item_count_limit : Bool → ℕ → ℕ → ℕ
item_count_limit variable max n =
    if variable && (n == 0 && max == 0)
    then 0
    else if max == 0
    then (if n == 0 then 1 else n)
    else max

-- Bytes that are not over the limit, or fill more chunks than it has. The program counts chunks.
abbrev pub IsClear : ℕ → Buf → Type 0
IsClear limit bs = (length bs ≤ limit) ⊎ (32 * ((limit + 31) / 32) < length bs)

mutual
  pub data Takes : Schema → Caps → ℕ → Item → Limits → Type 0 where
    packed :
        {s : Schema} {c : Caps} {max : ℕ} {x : Item}
        → is_packed s ≡ true
        → Takes s c max x Limits.none
    numbers :
        {s : Schema} {max : ℕ} {xs : Items}
        → is_number s ≡ true
        → 32 / width s * width s ≡ 32
        → count_items xs < 2 ^ 64
        → IsClear
            (number_limit max (width s) (count_items xs) * width s)
            (serialize (Schema.list s) (Item.seq xs))
        → Takes
            (Schema.list s)
            Caps.open_end
            max
            (Item.seq xs)
            (Limits.list (number_limit max (width s) (count_items xs)) LimitList.nil)
    text :
        {max : ℕ} {xs : Items}
        → count_items xs < 2 ^ 64
        → IsClear (byte_limit max * 1) (serialize (Schema.list (Schema.uint 1)) (Item.seq xs))
        → Takes
            (Schema.list (Schema.uint 1))
            Caps.text
            max
            (Item.seq xs)
            (Limits.list (byte_limit max) LimitList.nil)
    vector :
        {n : ℕ} {s : Schema} {c : Caps} {max : ℕ} {xs : Items} {ls : LimitList}
        → is_number s ≡ false
        → TakesAll s c xs ls
        → Takes (Schema.vector n s) c max (Item.seq xs) (Limits.all ls)
    list :
        {s : Schema} {c : Caps} {max : ℕ} {xs : Items} {ls : LimitList}
        → is_number s ≡ false
        → count_items xs < 2 ^ 64
        → TakesAll s c xs ls
        → Takes
            (Schema.list s)
            c
            max
            (Item.seq xs)
            (Limits.list (item_count_limit (is_variable s) max (count_items xs)) ls)
    container :
        {ss : Schemas} {cs : FieldCaps} {max : ℕ} {xs : Items} {ls : LimitList}
        → TakesFields ss cs xs ls
        → Takes (Schema.container ss) (Caps.fields cs) max (Item.seq xs) (Limits.all ls)

  pub data TakesAll : Schema → Caps → Items → LimitList → Type 0 where
    no_items : {s : Schema} {c : Caps} → TakesAll s c Items.nil LimitList.nil
    each :
        {s : Schema} {c : Caps} {x : Item} {xs : Items} {l : Limits} {ls : LimitList}
        → Takes s c 0 x l
        → TakesAll s c xs ls
        → TakesAll s c (Items.cons x xs) (LimitList.cons l ls)

  pub data TakesFields : Schemas → FieldCaps → Items → LimitList → Type 0 where
    no_fields : TakesFields Schemas.nil FieldCaps.nil Items.nil LimitList.nil
    keep :
        {s : Schema} {ss : Schemas} {max : ℕ} {c : Caps} {cs : FieldCaps} {x : Item} {xs : Items}
        {l : Limits} {ls : LimitList}
        → Takes s c max x l
        → TakesFields ss cs xs ls
        → TakesFields
            (Schemas.cons s ss)
            (FieldCaps.cons max c cs)
            (Items.cons x xs)
            (LimitList.cons l ls)
