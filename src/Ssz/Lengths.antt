-- ===== src/Ssz/Lengths.antt =====
-- The length that types/string.go and types/bitlist.go mix in is a uint256.
use go_ssz.Prelude.{
  ℕ, zero, suc, ◌+◌, ◌/◌, ◌%◌, ◌^◌, ◌<◌, ◌≡◌, inl, inr, refl, sym, ap, arith, List, ◌∷◌, ◌++◌,
  length, replicate, Bool-cases, ltb,
}
use go_ssz.Buffer.{Buf, le_bytes}
use go_ssz.Chunks.{length_chunk}
use go_ssz.Chunks.Limited.{limited}
use go_ssz.Ssz.Tree.{list_within}

zero_bytes : (k : ℕ) → le_bytes k 0 ≡ replicate k 0
unfolding le_bytes
zero_bytes zero = refl
zero_bytes (suc k) = ap (λ (bs : Buf). 0 ∷ bs) (zero_bytes k)

-- More bytes than a number needs are zeros.
le_bytes_wide :
    (w m k n : ℕ) → m ≡ w + k → n < 256 ^ w → le_bytes m n ≡ le_bytes w n ++ replicate k 0
unfolding le_bytes
le_bytes_wide zero m k n e h =
    let z : n ≡ 0 = omega (arith, h) in let q : m ≡ k = omega (arith, e) in rw (z, q) (zero_bytes k)
le_bytes_wide (suc w) zero k n e h = absurd (omega (arith, e))
le_bytes_wide (suc w) (suc m) k n e h =
    ap (λ (bs : Buf). (n % 256) ∷ bs)
      (le_bytes_wide w m k (n / 256) (omega (arith, e)) (omega (arith, h)))

-- The length that is mixed in is a uint256.
pub length_chunk-le_bytes : (n : ℕ) → n < 2 ^ 64 → length_chunk n ≡ le_bytes 32 n
unfolding length_chunk
length_chunk-le_bytes n h = sym (le_bytes_wide 8 32 24 n refl h)

-- A root within a limit, as the specification has it
pub limited-list_within :
    (sha : Buf → Buf) (merkle : ℕ → ℕ → List Buf → Buf) (limit n : ℕ) (chunks : List Buf)
    → n < 2 ^ 64
    → limited sha merkle limit n chunks ≡ list_within sha merkle limit n chunks
limited-list_within sha merkle limit n chunks h =
    let e = length_chunk-le_bytes n h in
    elim (Bool-cases (ltb limit (length chunks))) [ inl q ↦ rw (q) refl | inr q ↦ rw (q, e) refl ]
