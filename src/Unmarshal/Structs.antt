-- ===== src/Unmarshal/Structs.antt =====
-- The loop of structSSZ.Unmarshal over the fields, and the structs that it decodes.
use go_ssz.Prelude.{ℕ, ◌+◌, ◌*◌, ◌^◌, ◌≤◌, ◌<◌, ◌≡◌, refl, ap, ◌∙◌, arith, true, false, ok, List}
use go_ssz.Prelude.{◌++◌, append_assoc, length, Bool-cases, inl, inr}
use go_ssz.Buffer.{Buf, le_bytes}
use go_ssz.Buffer.Writes.{lengths}
use go_ssz.Reflect.{Typ, Fields, Val, Vals, cons}
use go_ssz.Ssz.{
  Schema, Schemas, Item, Items, is_variable, any_variable, serialize, parts, depth, depth_all,
}
use go_ssz.Ssz.Parts.{heads, tails, head_length, length-le_bytes, length-heads}
use go_ssz.Represents.Factory.{choice}
use go_ssz.Unmarshal.{unmarshal_with, unmarshal_variable, unmarshal_fields, count_fields}
use go_ssz.Unmarshal.Targets.{target}
use go_ssz.Unmarshal.Reads.{input_of}
use go_ssz.Unmarshal.Decodes.{Reads}
use go_ssz.Unmarshal.FieldSizes.{sizes_of, ready, count_fields-AllMetadata}
use go_ssz.Unmarshal.FieldOffsets.{Left, settled, settled_fixed, variable_read}
use go_ssz.Unmarshal.FieldSteps.{FieldsRead, fixed_read, fields_step, variable_place, fixed_place}

-- The input before a round: the fixed parts and offsets that are read, the others, and likewise the
-- variable parts; and where the next variable part begins.
abbrev pub Fielded : Schemas → Items → Buf → Buf → Buf → Buf → ℕ → ℕ → List ℕ → Type 0
Fielded ss xs pre mid post bytes len o os =
    (bytes ≡ pre ++ (heads o (parts ss xs) ++ (mid ++ (tails (parts ss xs) ++ post))))
    × (length bytes < 2 ^ 64)
    × (head_length (parts ss xs) + length (tails (parts ss xs)) < 2 ^ 32)
    × (any_variable ss ≡ true
        → (o ≡ length pre + (head_length (parts ss xs) + length mid))
          × (len ≡ o + length (tails (parts ss xs)))
          × Left len o (parts ss xs) os)

Fielded-fixed :
    (s : Schema) (ss : Schemas) (x : Item) (xs : Items) (pre mid post bytes : Buf) (len o : ℕ)
    (os : List ℕ)
    → is_variable s ≡ false
    → Fielded (Schemas.cons s ss) (Items.cons x xs) pre mid post bytes len o os
    → Fielded ss xs (pre ++ serialize s x) mid post bytes len o os
      × (after : Buf) × (bytes ≡ pre ++ (serialize s x ++ after))
      × (length (serialize s x) < 2 ^ 32)
unfolding serialize any_variable
Fielded-fixed s ss x xs pre mid post bytes len o os z (e, b, c, w) =
    let bs = serialize s x in
    let e' = rw z at e in
    let c' = rw z at c in
    let w' = rw z at w in
    let after = heads o (parts ss xs) ++ (mid ++ (tails (parts ss xs) ++ post)) in
    (
      (
        e' ∙ simp append_assoc,
        b,
        omega (arith, c'),
        λ y. let (p, l, k) = w' y in (omega (lengths, p), l, k),
      ),
      after,
      e' ∙ simp append_assoc,
      omega (arith, c'),
    )

length-before :
    (pre hs mid : Buf) (o h : ℕ)
    → length hs ≡ h
    → length (pre ++ ((le_bytes 4 o ++ hs) ++ mid)) ≡ length pre + (4 + h + length mid)
length-before pre hs mid o h e = let m = length-le_bytes 4 o in omega (lengths, m, e)

Fielded-variable :
    (f : ℕ) (t : Typ) (s : Schema) (v : Val) (ss : Schemas) (x : Item) (xs : Items)
    (pre mid post bytes : Buf) (len o : ℕ) (os : List ℕ)
    → Reads f v t s x
    → is_variable s ≡ true
    → Fielded (Schemas.cons s ss) (Items.cons x xs) pre mid post bytes len o os
    → (os' : List ℕ) × (unmarshal_variable
          (unmarshal_with f (choice t s))
          (target t)
          t
          (input_of bytes len)
          os
        ≡ ok (settled t s v (length (serialize s x ++ tails (parts ss xs))), os'))
      × Fielded ss xs
          (pre ++ le_bytes 4 o)
          (mid ++ serialize s x)
          post
          bytes
          len
          (o + length (serialize s x))
          os'
unfolding serialize any_variable
Fielded-variable f t s v ss x xs pre mid post bytes len o os r z (e, b, c, w) =
    let bs = serialize s x in
    let ps = parts ss xs in
    let hs = heads (o + length bs) ps in
    let e' : bytes ≡ pre ++ ((le_bytes 4 o ++ hs) ++ (mid ++ ((bs ++ tails ps) ++ post))) =
      rw z at e in
    let c' : 4 + head_length ps + length (bs ++ tails ps) < 2 ^ 32 = rw z at c in
    let (p, l, k) = (rw z at w) refl in
    let before = pre ++ ((le_bytes 4 o ++ hs) ++ mid) in
    let m = length-le_bytes 4 o in
    let n = length-heads (o + length bs) ps in
    let d = length-before pre hs mid o (head_length ps) n in
    let q : o ≡ length before = omega (arith, p, d) in
    let (os', i, left) =
      variable_read f t s v x ps before (tails ps ++ post) bytes len o os r z
        (e' ∙ simp append_assoc) q l b (omega (lengths, c')) k in
    (
      os',
      i,
      (
        e' ∙ simp append_assoc,
        b,
        omega (lengths, c'),
        λ y. (omega (lengths, p, m), omega (lengths, l), left),
      ),
    )

pub fields_lem :
    (f : ℕ) {fs : Fields} {vs : Vals} {ss : Schemas} {xs : Items}
    → FieldsRead f fs vs ss xs
    → 4 * depth_all ss ≤ f + 4
    → (pre mid post bytes : Buf) (len o : ℕ) (os : List ℕ)
    → Fielded ss xs pre mid post bytes len o os
    → unmarshal_fields f
        (unmarshal_with f)
        (count_fields fs)
        fs
        (ready fs ss)
        (sizes_of ss)
        (input_of bytes len)
        (length pre)
        os
      ≡ ok (vs, length pre + head_length (parts ss xs))
unfolding serialize depth count_fields
fields_lem f {fs} (FieldsRead.finished m) h pre mid post bytes len o os a =
    let e : length pre + 0 ≡ length pre = omega arith in
    rw (count_fields-AllMetadata m, e) (unfold unmarshal_fields in refl)
fields_lem f (FieldsRead.keep {name} {max} {t} {fs} {s} {ss} {x} {xs} {v} {vs} g d r ds) h pre mid
      post bytes len o os a =
    elim (Bool-cases (is_variable s)) [
      | inl z ↦
          let (os', i, b) = Fielded-variable f t s v ss x xs pre mid post bytes len o os r z a in
          let k = length-le_bytes 4 o in
          let n = ap (λ (ys : Buf). length ys) (b.0) in
          let ih =
            fields_lem f ds (omega arith) (pre ++ le_bytes 4 o) (mid ++ serialize s x) post bytes
              len (o + length (serialize s x)) os' b in
          let p : length pre + 4 ≡ length (pre ++ le_bytes 4 o) = omega (lengths, k) in
          let j : length (pre ++ le_bytes 4 o) + head_length (parts ss xs)
              ≡ length pre + (4 + head_length (parts ss xs)) =
            omega (lengths, k) in
          let w = settled t s v (length (serialize s x ++ tails (parts ss xs))) in
          let place =
            variable_place (unmarshal_with f (choice t s)) s (target t) t (input_of bytes len)
              (length pre) os os' w z i (omega (lengths, n, b.1, k)) in
          rw g (
            fields_step f (count_fields fs) name max fs (ready fs ss) (sizes_of ss)
              (input_of bytes len) (length pre) (length pre + 4)
              (length (pre ++ le_bytes 4 o) + head_length (parts ss xs)) os os' w vs d (omega arith)
              place (rw p ih)
            ∙ ap (λ (u : ℕ). ok (cons w vs, u)) (rw z j))
      | inr z ↦
          let (b, after, e, c) = Fielded-fixed s ss x xs pre mid post bytes len o os z a in
          let bs = serialize s x in
          let ih = fields_lem f ds (omega arith) (pre ++ bs) mid post bytes len o os b in
          let p : length pre + length bs ≡ length (pre ++ bs) = omega lengths in
          let j : length (pre ++ bs) + head_length (parts ss xs)
              ≡ length pre + (length bs + head_length (parts ss xs)) =
            omega lengths in
          let u = settled_fixed t s v (length (bs ++ tails (parts ss xs))) z in
          let place =
            fixed_place (unmarshal_with f (choice t s)) s (target t) t (input_of bytes len)
              (length pre) (length pre + length bs) os v z
              (fixed_read f t s v x pre after bytes len d r z e b.1 c) in
          rw (g, u)
            (fields_step f (count_fields fs) name max fs (ready fs ss) (sizes_of ss)
                (input_of bytes len) (length pre) (length pre + length bs)
                (length (pre ++ bs) + head_length (parts ss xs)) os os v vs d (omega arith) place
                (rw p ih)
              ∙ ap (λ (w : ℕ). ok (cons v vs, w)) (rw z j))
    ]
