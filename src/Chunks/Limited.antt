-- ===== src/Chunks/Limited.antt =====
-- Merkleization within a limit, with the length mixed in.
use go_ssz.Prelude.{ℕ, ◌≡◌, refl, inl, inr, List, ◌++◌, length, ok, err, over_limit, Result, ◌>>=◌}
use go_ssz.Prelude.{if◌then◌else◌, ltb, Bool-cases}
use go_ssz.Buffer.{Buf}
use go_ssz.Chunks.{bitwise_merkleize, mix_in_length, length_chunk}

module _ (sha : Buf → Buf) (merkleize : ℕ → ℕ → List Buf → Buf) where
  -- The root of chunks that are within the limit, with the length mixed in.
  abbrev pub limited : ℕ → ℕ → List Buf → Result Buf
  limited limit n chunks =
      if ltb limit (length chunks)
      then err over_limit
      else ok (sha (merkleize (length chunks) limit chunks ++ length_chunk n))

  pub limited_lem :
      (limit n : ℕ) (chunks : List Buf)
      → (bitwise_merkleize sha merkleize chunks (length chunks) limit >>= λ root.
          ok (mix_in_length sha merkleize root (length_chunk n)))
        ≡ limited limit n chunks
  unfolding bitwise_merkleize mix_in_length
  limited_lem limit n chunks = elim (Bool-cases (ltb limit (length chunks))) [
    | inl e ↦ rw e refl
    | inr e ↦ rw e refl
  ]
