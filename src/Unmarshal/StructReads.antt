-- ===== src/Unmarshal/StructReads.antt =====
-- The Unmarshal of structs and of pointers to structs.
use go_ssz.Prelude.{ℕ, suc, ◌+◌, ◌*◌, ◌^◌, ◌≤◌, ◌<◌, ◌≡◌, refl, ap, ◌∙◌, arith, true, false, ok, []}
use go_ssz.Prelude.{◌++◌, append_assoc, length, Bool-cases, inl, inr}
use go_ssz.Buffer.{Buf}
use go_ssz.Reflect.{Typ, Fields, Val, Vals, zero_value}
use go_ssz.Ssz.{
  Schema, Schemas, Item, Items, is_variable, any_variable, serialize, parts, depth_all,
}
use go_ssz.Ssz.Parts.{
  tails, head_length, length-join, join, total, part_size, part, length-join-total,
}
use go_ssz.Represents.Factory.{choice}
use go_ssz.Unmarshal.{unmarshal_with, unmarshal_struct}
use go_ssz.Unmarshal.Reads.{input_of}
use go_ssz.Unmarshal.Decodes.{Reads, DecodesFields, Decodes, length-serialize, fixed_size}
use go_ssz.Unmarshal.FieldSizes.{AllSmall, fixed_sizes-sizes_of}
use go_ssz.Unmarshal.FieldOffsets.{ended, read_offsets-part_offsets}
use go_ssz.Unmarshal.FieldSteps.{FieldsRead}
use go_ssz.Unmarshal.Structs.{Fielded, fields_lem}

tails-fixed :
    (ss : Schemas) (xs : Items) → any_variable ss ≡ false → length (tails (parts ss xs)) ≡ 0
unfolding any_variable serialize
tails-fixed Schemas.nil xs z = refl
tails-fixed (Schemas.cons s ss) Items.nil z = refl
tails-fixed (Schemas.cons s ss) (Items.cons x xs) z = elim (Bool-cases (is_variable s)) [
  | inl y ↦ cc (rw y at z)
  | inr y ↦ rw y (tails-fixed ss xs (rw y at z))
]

small_part :
    {t : Typ} {s : Schema} {x : Item} (n : ℕ)
    → Decodes t s x
    → part_size (part (is_variable s) (serialize s x)) + n < 2 ^ 64
    → (is_variable s ≡ false → fixed_size s < 2 ^ 64) × (n < 2 ^ 64)
small_part n d h =
    (λ z. let l = length-serialize d z in omega (arith, l, rw z at h), omega (arith, h))

AllSmall-total :
    {fs : Fields} {ss : Schemas} {xs : Items}
    → DecodesFields fs ss xs
    → total (parts ss xs) < 2 ^ 64
    → AllSmall ss
unfolding serialize
AllSmall-total (DecodesFields.finished m) h = refl
AllSmall-total (DecodesFields.keep {ss = ss} {xs = xs} m d ds) h =
    let (a, b) = small_part (total (parts ss xs)) d h in (a, AllSmall-total ds b)

struct_run :
    (f : ℕ) {fs : Fields} {vs : Vals} {ss : Schemas} {xs : Items}
    → DecodesFields fs ss xs
    → FieldsRead f fs vs ss xs
    → 8 * depth_all ss ≤ f
    → (pre post bytes : Buf) (len : ℕ) → bytes ≡ pre ++ (join (parts ss xs) ++ post)
    → length pre + length (join (parts ss xs)) ≤ len
    → (any_variable ss ≡ true → (pre ≡ []) × (len ≡ length (join (parts ss xs))))
    → length bytes < 2 ^ 64
    → length (join (parts ss xs)) < 2 ^ 32
    → unmarshal_struct f
        (unmarshal_with f)
        (zero_value (Typ.struct fs))
        fs
        (input_of bytes len)
        (length pre)
      ≡ ok (Val.struct fs vs, length pre + head_length (parts ss xs))
unfolding unmarshal_struct zero_value join
struct_run f {fs} {vs} {ss} {xs} ds rs h pre post bytes len e l k b c =
    let ps = parts ss xs in
    let o = head_length ps in
    let j = length-join ps in
    let m = length-join-total ps in
    let sizes = fixed_sizes-sizes_of f ds (AllSmall-total ds (omega (arith, m, c))) h in
    let offsets =
      read_offsets-part_offsets ds pre (tails ps ++ post) bytes len (length pre) (length pre) o
        (e ∙ simp append_assoc) refl (omega (arith, l, j)) b
        (λ y. (ap (λ (ys : Buf). length ys) (k y).0, omega (arith, c, j))) in
    let fielded : Fielded ss xs pre [] post bytes len o (ended len o ps) = (
      e ∙ simp append_assoc,
      b,
      omega (arith, c, j),
      λ y.
          let p = ap (λ (ys : Buf). length ys) (k y).0 in
          let q = (k y).1 in (omega (arith, p), omega (arith, q, j), inl refl),
    ) in
    let run = fields_lem f rs (omega (arith, h)) pre [] post bytes len o (ended len o ps) fielded in
    rw (sizes, offsets, run) refl

struct_index :
    (ss : Schemas) (xs : Items) (n : ℕ)
    → any_variable ss ≡ false
    → n + head_length (parts ss xs) ≡ n + length (join (parts ss xs))
struct_index ss xs n z =
    let j = length-join (parts ss xs) in let t = tails-fixed ss xs z in omega (arith, j, t)

pub struct-Reads :
    (f : ℕ) {fs : Fields} {vs : Vals} {ss : Schemas} {xs : Items}
    → DecodesFields fs ss xs
    → FieldsRead f fs vs ss xs
    → 8 * depth_all ss ≤ f
    → Reads (suc f) (Val.struct fs vs) (Typ.struct fs) (Schema.container ss) (Item.seq xs)
unfolding choice serialize is_variable unmarshal_with
struct-Reads f {fs} {vs} {ss} {xs} ds rs h pre post len l k b c = (
  length pre + head_length (parts ss xs),
  struct_run f ds rs h pre post (pre ++ (join (parts ss xs) ++ post)) len refl l k b c,
  struct_index ss xs (length pre),
)

pub ptr-Reads :
    (f : ℕ) {fs : Fields} {vs : Vals} {ss : Schemas} {xs : Items}
    → DecodesFields fs ss xs
    → FieldsRead f fs vs ss xs
    → 8 * depth_all ss ≤ f
    → Reads
        (suc (suc f))
        (Val.ptr (Val.struct fs vs))
        (Typ.ptr (Typ.struct fs))
        (Schema.container ss)
        (Item.seq xs)
unfolding choice serialize is_variable unmarshal_with
ptr-Reads f {fs} {vs} {ss} {xs} ds rs h pre post len l k b c =
    let run =
      struct_run f ds rs h pre post (pre ++ (join (parts ss xs) ++ post)) len refl l k b c in
    (length pre + head_length (parts ss xs), rw run refl, struct_index ss xs (length pre))
