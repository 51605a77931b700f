-- ===== src/Unmarshal/RoundTrip.antt =====
-- Unmarshal behind Marshal.
use go_ssz.Prelude.{[], ℕ, zero, suc, ◌*◌, ◌≤◌, ◌<◌, ◌≡◌, refl, ap, sym, ◌∙◌, arith, true, false}
use go_ssz.Prelude.{◌++◌, length, Bool-cases, inl, inr}
use mathlib.Core.Path.{subst₂}
use go_ssz.Buffer.{Buf}
use go_ssz.Buffer.Writes.{lengths}
use go_ssz.Reflect.{
  Typ, Fields, Val, Vals, nil, cons, type_of, zero_value, zero_fields, items, count_vals,
}
use go_ssz.Tags.{determine_field_type}
use go_ssz.Size.{is_uint8, is_root}
use go_ssz.Ssz.{
  Schema, Schemas, Item, Items, is_variable, serialize, parts, parts_of, depth, depth_all,
  count_items,
}
use go_ssz.Ssz.Parts.{tails, length-join-total}
use go_ssz.Represents.{
  TypeRep, ValRep, ValsRep, FieldsRep, AllOwnSize, OwnSize, byte_typ, byte_schema,
}
use go_ssz.Unmarshal.Targets.{target}
use go_ssz.Unmarshal.Decodes.{
  AllMetadata, Decodes, DecodesAll, DecodesFields, Reads, fixed_size, length-serialize,
}
use go_ssz.Unmarshal.Leaves.{bool-Reads, uint-Reads, string-Stands, string-Reads}
use go_ssz.Unmarshal.InOrder.{AllRead, fixed_array-Reads}
use go_ssz.Unmarshal.Slices.{AllSized, slice-Reads}
use go_ssz.Unmarshal.Composites.{composite_slice-Reads}
use go_ssz.Unmarshal.Places.{composite_array-Reads}
use go_ssz.Unmarshal.Zeros.{
  uint8_schema, metadata_zero, length-serialize_pos, total_pos, total-parts_pos,
}
use go_ssz.Unmarshal.FieldOffsets.{settled}
use go_ssz.Unmarshal.Plain.{IsPlain, AllPlain, FieldsPlain, IsPlain-type_of}
use go_ssz.Unmarshal.FieldSteps.{FieldsRead}
use go_ssz.Unmarshal.StructReads.{struct-Reads, ptr-Reads}

-- The value stands for the item, and has no nil pointers.
abbrev pub Whole : Val → Typ → Schema → Item → Type 0
Whole v t s x = ValRep v t s x × IsPlain v t

-- An item of no bytes is what the zero value stands for.
blank-Whole :
    {t : Typ} {s : Schema} {x : Item}
    → Decodes t s x
    → is_variable s ≡ true
    → length (serialize s x) ≡ 0
    → Whole (target t) t s x
unfolding serialize is_variable zero_value type_of items
blank-Whole (Decodes.boolean b) z e = cc
blank-Whole (Decodes.uint k h) z e = cc
blank-Whole (Decodes.string DecodesAll.no_items) z e =
    (ValRep.string ValsRep.no_vals, IsPlain.string [])
blank-Whole (Decodes.string (DecodesAll.each {x = x} {xs = xs} d ds)) z e =
    let l = length-join-total (parts_of byte_schema (Items.cons x xs)) in
    let m = total_pos (DecodesAll.each d ds) (omega arith) in absurd (omega (arith, l, m, e))
blank-Whole (Decodes.slice r DecodesAll.no_items) z e =
    (ValRep.slice refl r AllOwnSize.no_vals ValsRep.no_vals, IsPlain.nil_slice _)
blank-Whole (Decodes.slice {s = s} r (DecodesAll.each {x = x} {xs = xs} d ds)) z e =
    let l = length-join-total (parts_of s (Items.cons x xs)) in
    let m = total_pos (DecodesAll.each d ds) (omega arith) in absurd (omega (arith, l, m, e))
blank-Whole (Decodes.array {s = s} {xs = xs} p c o r d) z e =
    let l = length-join-total (parts_of s xs) in
    let m = total_pos d (omega (arith, p, c)) in absurd (omega (arith, l, m, e))
blank-Whole (Decodes.struct {s = s} {ss = ss} {xs = xs} d) z e =
    let l = length-join-total (parts (Schemas.cons s ss) xs) in
    let m = total-parts_pos d in absurd (omega (arith, l, m, e))
blank-Whole (Decodes.ptr {s = s} {ss = ss} {xs = xs} d) z e =
    let l = length-join-total (parts (Schemas.cons s ss) xs) in
    let m = total-parts_pos d in absurd (omega (arith, l, m, e))

settled-Whole :
    {t : Typ} {s : Schema} {x : Item} {v : Val} (n : ℕ)
    → Decodes t s x
    → Whole v t s x
    → (n ≡ 0 → length (serialize s x) ≡ 0)
    → Whole (settled t s v n) t s x
settled-Whole {s = s} zero d r h = elim (Bool-cases (is_variable s)) [
  | inl z ↦ rw z (blank-Whole d z (h refl))
  | inr z ↦ rw z r
]
settled-Whole (suc n) d r h = r

all_sized :
    {t : Typ} {s : Schema} {xs : Items}
    → DecodesAll t s xs
    → is_variable s ≡ false
    → AllSized s (fixed_size s) xs
all_sized DecodesAll.no_items z = AllSized.none_left
all_sized (DecodesAll.each d ds) z = AllSized.each (length-serialize d z) (all_sized ds z)

some_size :
    {t : Typ} {s : Schema} {xs : Items}
    → DecodesAll t s xs
    → is_variable s ≡ false
    → (m : ℕ) × (0 < m) × AllSized s m xs
some_size DecodesAll.no_items z = (1, omega arith, AllSized.none_left)
some_size {s = s} (DecodesAll.each d ds) z =
    let p = length-serialize_pos d z in
    let l = length-serialize d z in
    (fixed_size s, omega (arith, p, l), all_sized (DecodesAll.each d ds) z)

abbrev ArrayRep : ℕ → Vals → Items → Typ → Schema → Type 0
ArrayRep n vs xs t s =
    ValsRep vs t s xs → ValRep (Val.array t vs) (Typ.array n t) (Schema.vector n s) (Item.seq xs)

bytes_rep :
    (n : ℕ) (vs : Vals) (xs : Items) → count_vals vs ≡ n → ArrayRep n vs xs byte_typ byte_schema
bytes_rep n vs xs c r = ValRep.byte_array c r

array-Whole :
    {vs : Vals} {n : ℕ} {t : Typ} {s : Schema} {xs : Items}
    → count_vals vs ≡ n
    → TypeRep t s
    → AllOwnSize vs t
    → ValsRep vs t s xs
    → AllPlain vs t
    → Whole (Val.array t vs) (Typ.array n t) (Schema.vector n s) (Item.seq xs)
unfolding type_of items
array-Whole {vs} {n} {t} {s} {xs} c r o a p =
    let rep : ValRep (Val.array t vs) (Typ.array n t) (Schema.vector n s) (Item.seq xs) =
      elim (Bool-cases (is_uint8 t)) [
        | inl u ↦
            let (b, q) = uint8_schema u r in
            subst₂ (ArrayRep n vs xs) (sym b) (sym q) (bytes_rep n vs xs c) a
        | inr u ↦ ValRep.array refl c u r (λ z. o) a
      ] in
    (rep, IsPlain.array c p)

-- A value that stands for the item and that Unmarshal leaves.
abbrev Back : ℕ → Typ → Schema → Item → Type 0
Back f t s x = (v : Val) × Whole v t s x × Reads f v t s x

abbrev AllBack : ℕ → Typ → Schema → Items → Type 0
AllBack f t s xs =
    (vs : Vals) × ValsRep vs t s xs
    × AllOwnSize vs t
    × AllRead f t s vs xs
    × AllPlain vs t
    × (count_vals vs ≡ count_items xs)

abbrev FieldsBack : ℕ → Fields → Schemas → Items → Type 0
FieldsBack f fs ss xs =
    (vs : Vals) × FieldsRep fs vs ss xs × FieldsRead f fs vs ss xs × FieldsPlain vs fs

slice-Back :
    (f : ℕ) {t : Typ} {s : Schema} {xs : Items}
    → TypeRep t s
    → DecodesAll t s xs
    → 8 * depth s ≤ f
    → AllBack f t s xs
    → Back (suc f) (Typ.slice t) (Schema.list s) (Item.seq xs)
unfolding type_of items
slice-Back f {t} {s} {xs} r ds h (vs, rep, own, read, plain, c) =
    let reads : Reads (suc f) (Val.slice t vs) (Typ.slice t) (Schema.list s) (Item.seq xs) =
      elim (Bool-cases (is_variable s)) [
        | inl z ↦ composite_slice-Reads f r (omega (arith, h)) z read
        | inr z ↦ let (m, p, a) = some_size ds z in slice-Reads f m r (omega (arith, h)) z read a p
      ] in
    (Val.slice t vs, (ValRep.slice refl r own rep, IsPlain.slice plain), reads)

array-Back :
    (f n : ℕ) {t : Typ} {s : Schema} {xs : Items}
    → 0 < n
    → count_items xs ≡ n
    → is_root t ≡ false
    → TypeRep t s
    → DecodesAll t s xs
    → 8 * depth s ≤ f
    → AllBack f t s xs
    → Back (suc f) (Typ.array n t) (Schema.vector n s) (Item.seq xs)
unfolding is_variable
array-Back f n {t} {s} {xs} p c o r ds h (vs, rep, own, read, plain, k) =
    let reads : Reads (suc f) (Val.array t vs) (Typ.array n t) (Schema.vector n s) (Item.seq xs) =
      elim (Bool-cases (is_variable s)) [
        | inl z ↦ composite_array-Reads f n r (omega (arith, h)) z o p c read
        | inr z ↦
            let y = length-serialize_pos (Decodes.array p c o r ds) z in
            fixed_array-Reads f n r (omega (arith, h)) z o c y read
      ] in
    (Val.array t vs, array-Whole (k ∙ c) r own rep plain, reads)

bare_end : (a b : Buf) → length (a ++ b) ≡ 0 → length a ≡ 0
bare_end a b e = omega (lengths, e)

depth_pos : (s : Schema) → 0 < depth s
unfolding depth
depth_pos Schema.boolean = omega arith
depth_pos (Schema.uint w) = omega arith
depth_pos (Schema.list s) = omega arith
depth_pos (Schema.vector n s) = omega arith
depth_pos (Schema.container ss) = omega arith

metadata_plain : {fs : Fields} → AllMetadata fs → FieldsPlain (zero_fields fs) fs
unfolding zero_value
metadata_plain AllMetadata.no_more = FieldsPlain.no_fields
metadata_plain (AllMetadata.one_more m r) = FieldsPlain.skip m (metadata_plain r)

mutual
  unfolding depth determine_field_type type_of

  pub back :
      {t : Typ} {s : Schema} {x : Item} → Decodes t s x → (f : ℕ) → 8 * depth s ≤ f → Back f t s x
  back {s = s} d zero h = let p = depth_pos s in absurd (omega (arith, h, p))
  back {s = s} d (suc zero) h = let p = depth_pos s in absurd (omega (arith, h, p))
  back (Decodes.boolean b) (suc (suc f)) h =
      (Val.bool b, (ValRep.boolean, IsPlain.boolean b), bool-Reads b (suc f))
  back (Decodes.uint {k = k} {w = w} {n = n} e l) (suc (suc f)) h =
      (Val.num k n, (ValRep.uint e l, IsPlain.number k n e), uint-Reads k w n (suc f) e l)
  back (Decodes.string {xs = xs} d) (suc (suc f)) h = (
    Val.str (serialize (Schema.list byte_schema) (Item.seq xs)),
    ((string-Stands d).0, IsPlain.string _),
    string-Reads xs (suc f),
  )
  back (Decodes.slice r d) (suc (suc f)) h =
      slice-Back (suc f) r d (omega (arith, h)) (back_all d (suc f) (omega (arith, h)))
  back (Decodes.array {n = n} p c o r d) (suc (suc f)) h =
      array-Back (suc f) n p c o r d (omega (arith, h)) (back_all d (suc f) (omega (arith, h)))
  back (Decodes.struct {fs = fs} d) (suc (suc f)) h =
      let (vs, rep, read, plain) = back_fields d (suc f) (omega (arith, h)) in
      (
        Val.struct fs vs,
        (ValRep.struct rep, IsPlain.struct plain),
        struct-Reads (suc f) d read (omega (arith, h)),
      )
  back (Decodes.ptr {fs = fs} d) (suc (suc f)) h =
      let (vs, rep, read, plain) = back_fields d f (omega (arith, h)) in
      (
        Val.ptr (Val.struct fs vs),
        (ValRep.ptr rep, IsPlain.ptr (IsPlain.struct plain)),
        ptr-Reads f d read (omega (arith, h)),
      )

  back_all :
      {t : Typ} {s : Schema} {xs : Items}
      → DecodesAll t s xs
      → (f : ℕ) → 8 * depth s ≤ f
      → AllBack f t s xs
  back_all DecodesAll.no_items f h =
      (nil, ValsRep.no_vals, AllOwnSize.no_vals, AllRead.none_left, AllPlain.no_vals, refl)
  back_all (DecodesAll.each d ds) f h =
      let (v, (r, p), read) = back d f h in
      let (vs, rs, os, reads, ps, c) = back_all ds f h in
      (
        cons v vs,
        ValsRep.each r rs,
        AllOwnSize.each (OwnSize.same (IsPlain-type_of p)) os,
        AllRead.each read reads,
        AllPlain.each p ps,
        ap suc c,
      )

  back_fields :
      {fs : Fields} {ss : Schemas} {xs : Items}
      → DecodesFields fs ss xs
      → (f : ℕ) → 8 * depth_all ss ≤ f
      → FieldsBack f fs ss xs
  back_fields (DecodesFields.finished {fs = fs} m) f h =
      (zero_fields fs, metadata_zero m, FieldsRead.finished m, metadata_plain m)
  back_fields (DecodesFields.keep {s = s} {ss = ss} {x = x} {xs = xs} m d ds) f h =
      let (v, stands, read) = back d f (omega (arith, h)) in
      let (vs, rs, reads, ps) = back_fields ds f (omega (arith, h)) in
      let bs = serialize s x in
      let rest = tails (parts ss xs) in
      let (r, p) = settled-Whole (length (bs ++ rest)) d stands (bare_end bs rest) in
      (_, FieldsRep.keep m refl r rs, FieldsRead.keep m d read reads, FieldsPlain.keep m p ps)
