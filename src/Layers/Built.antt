-- ===== src/Layers/Built.antt =====
-- What merkleize builds: the layers over the chunks and zero chunks behind them.
use go_ssz.Prelude.{
  ℕ, zero, suc, ◌+◌, ◌-◌, ◌*◌, ◌^◌, ◌<◌, ◌≤◌, ◌≡◌, ◌≢◌, inl, inr, refl, sym, arith,
}
use go_ssz.Prelude.{
  List, [], ◌∷◌, ◌++◌, append_assoc, append-nil, length, length-append, replicate, length-replicate,
}
use go_ssz.Prelude.{ok, true, false, Bool-cases}
use go_ssz.Buffer.{Buf}
use go_ssz.Marshal.{to_bytes32}
use go_ssz.Layers.{pad_leaves, is_power_of_2, pair_layer, layers_above, top_hash, merkleize}
use go_ssz.Layers.Recompute.{Layered}
use go_ssz.Layers.Powers.{
  is_power_of_2-power, is_power_of_2_unique, power_pos, power_monotone, power_above,
}

abbrev zero_chunk : Buf
zero_chunk = replicate 32 0

-- The chunks, brought to n by zero chunks.
abbrev pub padded : List Buf → ℕ → List Buf
padded chunks n = chunks ++ replicate (n - length chunks) zero_chunk

length_chunks : (xs ys : List Buf) → length (xs ++ ys) ≡ length xs + length ys
length_chunks = length-append

pad_stop :
    (f : ℕ) (xs : List Buf) → is_power_of_2 (length xs) ≡ true → pad_leaves (suc f) xs ≡ ok xs
unfolding pad_leaves
pad_stop f xs h = rw h refl

pad_more :
    (f : ℕ) (xs : List Buf)
    → is_power_of_2 (length xs) ≡ false
    → pad_leaves (suc f) xs ≡ pad_leaves f (xs ++ (zero_chunk ∷ []))
unfolding pad_leaves
pad_more f xs h = rw h refl

padded-more :
    (xs : List Buf) (n : ℕ) → length xs < n → padded (xs ++ (zero_chunk ∷ [])) n ≡ padded xs n
padded-more xs n l =
    let k = length_chunks xs (zero_chunk ∷ []) in
    let e : n - length xs ≡ suc (n - length (xs ++ (zero_chunk ∷ []))) = omega (arith, k, l) in
    rw e (
      append_assoc xs (zero_chunk ∷ [])
        (replicate (n - length (xs ++ (zero_chunk ∷ []))) zero_chunk))

padded-done : (xs : List Buf) (n : ℕ) → length xs ≡ n → padded xs n ≡ xs
padded-done xs n h = let e : n - length xs ≡ 0 = omega (arith, h) in rw e (append-nil xs)

not_power : (xs : List Buf) (k : ℕ) → k < 64 → is_power_of_2 (length xs) ≡ false → length xs ≢ 2 ^ k
not_power xs k w t e = let p = is_power_of_2-power k w in cc

pad_leaves-padded :
    (f k : ℕ) (xs : List Buf)
    → k < 64
    → length xs ≤ 2 ^ k
    → 2 ^ k < 2 * length xs
    → 2 ^ k < 2 ^ 64
    → 2 ^ k - length xs < f
    → pad_leaves f xs ≡ ok (padded xs (2 ^ k))
pad_leaves-padded zero k xs w h l b e = absurd (omega arith)
pad_leaves-padded (suc f) k xs w h l b e = elim (Bool-cases (is_power_of_2 (length xs))) [
  | inl t ↦
      let n = is_power_of_2_unique (length xs) k (omega (arith, h, b)) h l t in
      rw (padded-done xs (2 ^ k) n) (pad_stop f xs t)
  | inr t ↦
      let q = not_power xs k w t in
      let n = length_chunks xs (zero_chunk ∷ []) in
      let m : length xs < 2 ^ k = omega (arith, h, q) in
      let ih =
        pad_leaves-padded f k (xs ++ (zero_chunk ∷ [])) w (omega (arith, m, n))
          (omega (arith, l, n)) b (omega (arith, e, m, n)) in
      rw (pad_more f xs t, sym (padded-more xs (2 ^ k) m)) ih
]

pair_layer-even :
    (sha : Buf → Buf) (n : ℕ) (layer : List Buf)
    → length layer ≡ 2 * n
    → (next : List Buf) × (pair_layer sha layer ≡ ok next) × (length next ≡ n)
unfolding pair_layer
pair_layer-even sha n [] h = ([], refl, omega arith)
pair_layer-even sha n (a ∷ []) h = absurd (omega arith)
pair_layer-even sha zero (a ∷ b ∷ layer) h = absurd (omega arith)
pair_layer-even sha (suc n) (a ∷ b ∷ layer) h =
    let (next, e, l) = pair_layer-even sha n layer (omega (arith, h)) in
    (sha (a ++ b) ∷ next, rw e refl, omega (arith, l))

-- The layers above 2^k nodes, with the root.
abbrev Built : (Buf → Buf) → ℕ → List Buf → Type 0
Built sha f layer =
    (root : Buf) × (layers : List (List Buf)) × (layers_above sha f layer ≡ ok layers)
    × (top_hash layer layers ≡ ok root)
    × Layered sha root (layer ∷ layers)

layers_above-Built :
    (sha : Buf → Buf) (f k : ℕ) (layer : List Buf)
    → length layer ≡ 2 ^ k
    → k < f
    → Built sha f layer
unfolding layers_above top_hash
layers_above-Built sha zero k layer h l = absurd (omega arith)
layers_above-Built sha (suc f) zero [] h l = absurd (omega (arith, h))
layers_above-Built sha (suc f) zero (a ∷ []) h l = (a, [], refl, refl, Layered.top a)
layers_above-Built sha (suc f) zero (a ∷ b ∷ layer) h l = absurd (omega (arith, h))
layers_above-Built sha (suc f) (suc k) [] h l = let p = power_pos k in absurd (omega (arith, h, p))
layers_above-Built sha (suc f) (suc k) (a ∷ []) h l = absurd (omega (arith, h))
layers_above-Built sha (suc f) (suc k) (a ∷ b ∷ layer) h l =
    let (next, e, n) = pair_layer-even sha (2 ^ k) (a ∷ b ∷ layer) (omega (arith, h)) in
    let (root, layers, p, q, t) = layers_above-Built sha f k next n (omega (arith, l)) in
    (root, next ∷ layers, rw (e, p) refl, q, Layered.above (a ∷ b ∷ layer) next e t)

merkleize_many :
    (sha : Buf → Buf) (f : ℕ) (chunks : List Buf) {leaves : List Buf} {layers : List (List Buf)}
    {root : Buf}
    → 2 ≤ length chunks
    → pad_leaves f chunks ≡ ok leaves
    → layers_above sha f leaves ≡ ok layers
    → top_hash leaves layers ≡ ok root
    → merkleize sha f chunks ≡ ok (to_bytes32 root, leaves ∷ layers)
unfolding merkleize
merkleize_many sha f [] l p q r = absurd (omega (arith, l))
merkleize_many sha f (c ∷ []) l p q r = absurd (omega (arith, l))
merkleize_many sha f (c ∷ d ∷ cs) l p q r = rw (p, q, r) refl

pub length-padded : (chunks : List Buf) (n : ℕ) → length chunks ≤ n → length (padded chunks n) ≡ n
length-padded chunks n l =
    let a = length_chunks chunks (replicate (n - length chunks) zero_chunk) in
    let b = length-replicate (n - length chunks) zero_chunk in omega (arith, a, b, l)

-- The method merkleize of rootsArraySSZ on two chunks or more: with fuel above 2^k, for the k with 2^k
-- the least power of two that the number of chunks does not exceed (k below 64), it stores as
-- its lowest layer the chunks, brought to 2^k by zero chunks. Each layer above holds the hashes of the
-- pairs of the layer below, up to the root, and the root is what it returns.
pub merkleize-Layered :
    (sha : Buf → Buf) (chunks : List Buf)
    → 2 ≤ length chunks
    → (k : ℕ) → k < 64
    → length chunks ≤ 2 ^ k
    → 2 ^ k < 2 * length chunks
    → (f : ℕ) → 2 ^ k < f
    → (root : Buf) × (layers : List (List Buf)) × (merkleize sha f chunks
        ≡ ok (to_bytes32 root, padded chunks (2 ^ k) ∷ layers))
      × Layered sha root (padded chunks (2 ^ k) ∷ layers)
merkleize-Layered sha chunks m k w h l f e =
    let p = pad_leaves-padded f k chunks w h l (power_monotone k 64 w) (omega (arith, e)) in
    let (root, layers, q, r, t) =
      layers_above-Built sha f k (padded chunks (2 ^ k)) (length-padded chunks (2 ^ k) h)
        (omega (arith, power_above k, e)) in
    (root, layers, merkleize_many sha f chunks m p q r, t)
