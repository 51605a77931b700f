-- ===== src/Ssz/Parts.antt =====
-- The two sections of a composite: fixed parts and offsets, then the variable parts.
use go_ssz.Prelude.{
  ℕ, zero, suc, ◌+◌, ◌/◌, ◌≡◌, refl, ap, ◌∙◌, Bool, true, false, List, [], ◌∷◌, ◌++◌,
}
use go_ssz.Prelude.{length, length-append, arith}
use go_ssz.Buffer.{Buf, le_bytes}

pub data Part : Type 0 where
  fixed : Buf → Part
  variable : Buf → Part

abbrev pub part : Bool → Buf → Part
part false bs = fixed bs
part true bs = variable bs

-- How many bytes the fixed parts and the offsets take.
abbrev pub head_length : List Part → ℕ
head_length [] = 0
head_length (fixed bs ∷ ps) = length bs + head_length ps
head_length (variable bs ∷ ps) = 4 + head_length ps

-- The first section; the next variable part starts at `offset`.
abbrev pub heads : ℕ → List Part → Buf
heads offset [] = []
heads offset (fixed bs ∷ ps) = bs ++ heads offset ps
heads offset (variable bs ∷ ps) = le_bytes 4 offset ++ heads (offset + length bs) ps

abbrev pub tails : List Part → Buf
tails [] = []
tails (fixed bs ∷ ps) = tails ps
tails (variable bs ∷ ps) = bs ++ tails ps

unfoldable pub join : List Part → Buf
join ps = heads (head_length ps) ps ++ tails ps

pub length-le_bytes : (w n : ℕ) → length (le_bytes w n) ≡ w
unfolding le_bytes
length-le_bytes zero n = refl
length-le_bytes (suc w) n = ap suc (length-le_bytes w (n / 256))

pub length-heads : (o : ℕ) (ps : List Part) → length (heads o ps) ≡ head_length ps
length-heads o [] = refl
length-heads o (fixed bs ∷ ps) = omega (arith, length-append bs (heads o ps), length-heads o ps)
length-heads o (variable bs ∷ ps) = omega (
  arith,
  length-append (le_bytes 4 o) (heads (o + length bs) ps),
  length-le_bytes 4 o,
  length-heads (o + length bs) ps,
)

pub length-join : (ps : List Part) → length (join ps) ≡ head_length ps + length (tails ps)
unfolding join
length-join ps =
    omega (
      arith,
      length-append (heads (head_length ps) ps) (tails ps),
      length-heads (head_length ps) ps,
    )

-- The bytes that a part takes, its offset included.
abbrev pub part_size : Part → ℕ
part_size (fixed bs) = length bs
part_size (variable bs) = length bs + 4

abbrev pub total : List Part → ℕ
total [] = 0
total (p ∷ ps) = part_size p + total ps

total_lem : (ps : List Part) → head_length ps + length (tails ps) ≡ total ps
total_lem [] = omega arith
total_lem (fixed bs ∷ ps) = omega (arith, total_lem ps)
total_lem (variable bs ∷ ps) = omega (arith, total_lem ps, length-append bs (tails ps))

pub length-join-total : (ps : List Part) → length (join ps) ≡ total ps
length-join-total ps = length-join ps ∙ total_lem ps
