-- ===== src/Unmarshal/FieldOffsets.antt =====
-- The offsets that structSSZ.Unmarshal reads, and the fields that it takes from between them.
use go_ssz.Prelude.{
  ℕ, zero, suc, ◌+◌, ◌^◌, ◌≤◌, ◌<◌, ◌≡◌, refl, ap, ◌∙◌, arith, true, false, ok, List, [], ◌∷◌,
}
use go_ssz.Prelude.{
  ◌++◌, append_assoc, length, none, some, if◌then◌else◌, Bool-cases, inl, inr, Result, ltb, ◌==◌,
  ◌⊎◌,
}
use go_ssz.Prelude.{Option}
use go_ssz.Buffer.{Buf, le_bytes}
use go_ssz.Buffer.Writes.{lengths}
use go_ssz.Reflect.{Typ, Fields, Val}
use go_ssz.Size.{◌+u64◌}
use go_ssz.Input.{Input, slice_input, read_le}
use go_ssz.Decode.{Decoder}
use go_ssz.Ssz.{Schema, Schemas, Item, Items, is_variable, any_variable, serialize, parts}
use go_ssz.Ssz.Parts.{Part, fixed, variable, heads, tails, head_length, length-le_bytes}
use go_ssz.Represents.Factory.{choice}
use go_ssz.Unmarshal.{unmarshal_with, unmarshal_variable, read_offsets}
use go_ssz.Unmarshal.Targets.{target}
use go_ssz.Unmarshal.Reads.{input_of, slice_input-append, read_le-append}
use go_ssz.Unmarshal.Decodes.{Reads, fixed_size, DecodesFields, length-serialize}
use go_ssz.Unmarshal.Composites.{item_read}
use go_ssz.Unmarshal.FieldSizes.{sizes_of}

-- Where the variable parts begin.
abbrev pub part_offsets : ℕ → List Part → List ℕ
part_offsets o [] = []
part_offsets o (fixed bs ∷ ps) = part_offsets o ps
part_offsets o (variable bs ∷ ps) = o ∷ part_offsets (o + length bs) ps

-- With the end of the input behind them
abbrev pub ended : ℕ → ℕ → List Part → List ℕ
ended len o ps = part_offsets o ps ++ (len ∷ [])

-- The first of them is where the next variable part begins, be it the end.
pub ended_first :
    (len o : ℕ) (ps : List Part)
    → len ≡ o + length (tails ps)
    → (os : List ℕ) × (ended len o ps ≡ o ∷ os)
ended_first len o [] e = ([], ap (λ (n : ℕ). n ∷ []) (omega (arith, e)))
ended_first len o (fixed bs ∷ ps) e = ended_first len o ps e
ended_first len o (variable bs ∷ ps) e = (ended len (o + length bs) ps, refl)

-- A field that begins where the input ends is left as it is, whatever offsets there are.
unmarshal_variable_end :
    (self : Decoder) (v : Val) (t : Typ) (input : Input) (os : List ℕ)
    → unmarshal_variable self v t input (input.len ∷ os) ≡ ok (v, input.len ∷ os)
unfolding unmarshal_variable
unmarshal_variable_end self v t input [] =
    let e : (input.len == input.len) ≡ true = ground arith in rw e refl
unmarshal_variable_end self v t input (o ∷ os) =
    let e : (input.len == input.len) ≡ true = ground arith in rw e refl

-- The offsets that are left: those of the parts, or from the end of the input on.
abbrev pub Left : ℕ → ℕ → List Part → List ℕ → Type 0
Left len o ps os = (os ≡ ended len o ps) ⊎ ((o ≡ len) × (rest : List ℕ) × (os ≡ len ∷ rest))

-- What a field of variable size holds when it was passed over at the end of the input.
abbrev pub settled : Typ → Schema → Val → ℕ → Val
settled t s v zero = if is_variable s then target t else v
settled t s v (suc n) = v

read_fixed :
    (input : Input) (start counter n : ℕ) (sizes : List (Option ℕ)) (m : ℕ) {r : Result (List ℕ)}
    → counter +u64 n ≡ m
    → read_offsets input start m sizes ≡ r
    → read_offsets input start counter (some n ∷ sizes) ≡ r
unfolding read_offsets
read_fixed input start counter n sizes m e h = rw e h

read_variable :
    (pre rest bytes : Buf) (len o : ℕ) (sizes : List (Option ℕ)) {os : List ℕ}
    → bytes ≡ pre ++ (le_bytes 4 o ++ rest)
    → length pre + 4 ≤ len
    → length bytes < 2 ^ 64
    → o < 2 ^ 32
    → read_offsets (input_of bytes len) 0 (length pre + 4) sizes ≡ ok os
    → read_offsets (input_of bytes len) 0 (length pre) (none ∷ sizes) ≡ ok (o ∷ os)
unfolding read_offsets
read_variable pre rest bytes len o sizes e h b c r =
    let l = length-le_bytes 4 o in
    let n = ap (λ (bs : Buf). length bs) e in
    let p : length pre +u64 4 ≡ length pre + 4 = omega (lengths, l, b, n) in
    let q : ltb len (length pre + 4) ≡ false = ground (arith, h) in
    let m : 0 +u64 o ≡ o = omega (arith, c) in
    let d : read_le (input_of bytes len) (length pre) 4 ≡ ok o =
      rw e (read_le-append pre rest 4 o len (length pre) (omega (arith, c)) refl (rw (← e) b)) in
    rw (p, q, d, r, m) refl

pub read_offsets-part_offsets :
    {fs : Fields} {ss : Schemas} {xs : Items}
    → DecodesFields fs ss xs
    → (pre rest bytes : Buf) (len start counter o : ℕ)
    → bytes ≡ pre ++ (heads o (parts ss xs) ++ rest)
    → counter ≡ length pre
    → length pre + head_length (parts ss xs) ≤ len
    → length bytes < 2 ^ 64
    → (any_variable ss ≡ true → (start ≡ 0) × (o + length (tails (parts ss xs)) < 2 ^ 32))
    → read_offsets (input_of bytes len) start counter (sizes_of ss)
      ≡ ok (part_offsets o (parts ss xs))
unfolding serialize any_variable
read_offsets-part_offsets (DecodesFields.finished m) pre rest bytes len start counter o e c l b w =
    unfold read_offsets in refl
read_offsets-part_offsets (DecodesFields.keep {s = s} {ss = ss} {x = x} {xs = xs} m d ds) pre rest
      bytes len start counter o e c l b w =
    elim (Bool-cases (is_variable s)) [
      | inl z ↦
          let (p, q) = w (rw z refl) in
          let bs = serialize s x in
          let after = heads (o + length bs) (parts ss xs) ++ rest in
          let e' : bytes ≡ pre ++ (le_bytes 4 o ++ after) = (rw z at e) ∙ simp append_assoc in
          let l' : length pre + (4 + head_length (parts ss xs)) ≤ len = rw z at l in
          let q' : o + length (bs ++ tails (parts ss xs)) < 2 ^ 32 = rw z at q in
          let k = length-le_bytes 4 o in
          let ih =
            read_offsets-part_offsets ds (pre ++ le_bytes 4 o) rest bytes len 0 (length pre + 4)
              (o + length bs) (e' ∙ simp append_assoc) (omega (lengths, k)) (omega (lengths, k, l'))
              b (λ y. (refl, omega (lengths, q'))) in
          rw (z, c, p)
            (read_variable pre after bytes len o (sizes_of ss) e' (omega (arith, l')) b
              (omega (lengths, q')) ih)
      | inr z ↦
          let bs = serialize s x in
          let k = length-serialize d z in
          let e' : bytes ≡ pre ++ (bs ++ (heads o (parts ss xs) ++ rest)) =
            (rw z at e) ∙ simp append_assoc in
          let l' : length pre + (length bs + head_length (parts ss xs)) ≤ len = rw z at l in
          let n = ap (λ (ys : Buf). length ys) e' in
          let ih =
            read_offsets-part_offsets ds (pre ++ bs) rest bytes len start (length pre + length bs) o
              (e' ∙ simp append_assoc) (omega lengths) (omega (lengths, l')) b
              (λ y. (rw z at w) y) in
          rw z (
            read_fixed (input_of bytes len) start counter (fixed_size s) (sizes_of ss)
              (length pre + length bs) (omega (lengths, c, k, n, b)) ih)
    ]

settled_end :
    (t : Typ) (s : Schema) (v : Val) (n : ℕ)
    → is_variable s ≡ true
    → n ≡ 0
    → settled t s v n ≡ target t
settled_end t s v zero z e = rw z refl
settled_end t s v (suc n) z e = absurd (omega (arith, e))

settled_inside : (t : Typ) (s : Schema) (v : Val) (n : ℕ) → 0 < n → settled t s v n ≡ v
settled_inside t s v zero h = absurd (omega (arith, h))
settled_inside t s v (suc n) h = refl

pub settled_fixed :
    (t : Typ) (s : Schema) (v : Val) (n : ℕ) → is_variable s ≡ false → settled t s v n ≡ v
settled_fixed t s v zero z = rw z refl
settled_fixed t s v (suc n) z = refl

-- A field of variable size, whose bytes stand behind `before`, and the offsets left behind it.
abbrev VariableRead : ℕ → Typ → Schema → Item → Val → List Part → Buf → ℕ → ℕ → List ℕ → Type 0
VariableRead f t s x v ps bytes len o os =
    (os' : List ℕ) × (unmarshal_variable (unmarshal_with f (choice t s)) (target t) t
        (input_of bytes len) os
      ≡ ok (settled t s v (length (serialize s x ++ tails ps)), os'))
    × Left len (o + length (serialize s x)) ps os'

passed :
    (f : ℕ) (t : Typ) (s : Schema) (v : Val) (x : Item) (ps : List Part) (bytes : Buf) (len o : ℕ)
    (rest : List ℕ)
    → is_variable s ≡ true
    → len ≡ o + length (serialize s x ++ tails ps)
    → o ≡ len
    → VariableRead f t s x v ps bytes len o (len ∷ rest)
passed f t s v x ps bytes len o rest z l e =
    let n : length (serialize s x ++ tails ps) ≡ 0 = omega (arith, l, e) in
    let m : o + length (serialize s x) ≡ len = omega (lengths, l, e) in
    (
      len ∷ rest,
      rw (settled_end t s v (length (serialize s x ++ tails ps)) z n) (
          unmarshal_variable_end (unmarshal_with f (choice t s)) (target t) t (input_of bytes len)
            rest),
      inr (m, rest, refl),
    )

taken :
    (f : ℕ) (t : Typ) (s : Schema) (v : Val) (x : Item) (ps : List Part) (before after bytes : Buf)
    (len o : ℕ)
    → Reads f v t s x
    → bytes ≡ before ++ (serialize s x ++ after)
    → o ≡ length before
    → len ≡ o + length (serialize s x ++ tails ps)
    → length bytes < 2 ^ 64
    → length (serialize s x) < 2 ^ 32
    → o < len
    → VariableRead f t s x v ps bytes len o (o ∷ ended len (o + length (serialize s x)) ps)
unfolding unmarshal_variable
taken f t s v x ps before after bytes len o r e p l b c h =
    let bs = serialize s x in
    let (os, q) = ended_first len (o + length bs) ps (omega (lengths, l)) in
    let n = ap (λ (ys : Buf). length ys) e in
    let (index, i) = item_read f v t s x after r (omega (lengths, n, b)) c in
    let w : (o == len) ≡ false = ground (arith, h) in
    let d : slice_input (input_of bytes len) o (o + length bs)
        ≡ ok (input_of (bs ++ after) (length bs)) =
      rw e (slice_input-append before bs after len o (o + length bs) p (omega (arith, p))) in
    (
      (o + length bs) ∷ os,
      rw (q, w, d, i, settled_inside t s v (length (bs ++ tails ps)) (omega (arith, l, h))) refl,
      inl (rw q refl),
    )

pub variable_read :
    (f : ℕ) (t : Typ) (s : Schema) (v : Val) (x : Item) (ps : List Part) (before after bytes : Buf)
    (len o : ℕ) (os : List ℕ)
    → Reads f v t s x
    → is_variable s ≡ true
    → bytes ≡ before ++ (serialize s x ++ after)
    → o ≡ length before
    → len ≡ o + length (serialize s x ++ tails ps)
    → length bytes < 2 ^ 64
    → length (serialize s x) < 2 ^ 32
    → Left len o (variable (serialize s x) ∷ ps) os
    → VariableRead f t s x v ps bytes len o os
variable_read f t s v x ps before after bytes len o os r z e p l b c (inr (q, rest, i)) =
    rw i (passed f t s v x ps bytes len o rest z l q)
variable_read f t s v x ps before after bytes len o os r z e p l b c (inl i) =
    let later = ended len (len + length (serialize s x)) ps in
    elim (Bool-cases (o == len)) [
      | inl q ↦
          let w : o ≡ len = ground (arith, q) in
          rw (i, w) (passed f t s v x ps bytes len len later z (rw w at l) refl)
      | inr q ↦
          let w : o < len = ground (arith, q, l) in
          rw i (taken f t s v x ps before after bytes len o r e p l b c w)
    ]
