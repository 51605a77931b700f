-- ===== src/Unmarshal/Reads.antt =====
-- Reads from an input, by what stands where the read begins.
use go_ssz.Prelude.{ℕ, zero, suc, ◌+◌, ◌-◌, ◌/◌, ◌^◌, ◌<◌, ◌≡◌, refl, arith, true}
use go_ssz.Prelude.{[], ◌∷◌, ◌++◌, length, drop, drop-append, take-append, ok, leb, get_elem?}
use go_ssz.Prelude.{le→leb, lt→ltb, some}
use go_ssz.Buffer.{Buf, le_bytes}
use go_ssz.Buffer.Writes.{lengths}
use go_ssz.Ssz.Parts.{length-le_bytes}
use go_ssz.Size.{◌+u64◌}
use go_ssz.Input.{Input, slice_input, byte_at, le_value, read_le}

abbrev pub input_of : Buf → ℕ → Input
input_of bytes len = record { bytes = bytes; len = len }

-- `input[a:b]`, where `mid` begins at a and ends at b.
pub slice_input-append :
    (pre mid post : Buf) (len a b : ℕ)
    → a ≡ length pre
    → b ≡ length pre + length mid
    → slice_input (input_of (pre ++ (mid ++ post)) len) a b
      ≡ ok (input_of (mid ++ post) (length mid))
unfolding slice_input
slice_input-append pre mid post len a b e h =
    let p : leb a b ≡ true = le→leb a b (omega (arith, e, h)) in
    let q : leb b (length (pre ++ (mid ++ post))) ≡ true =
      le→leb b (length (pre ++ (mid ++ post))) (omega (lengths, e, h)) in
    let d : drop a (pre ++ (mid ++ post)) ≡ mid ++ post = rw e (drop-append pre (mid ++ post)) in
    let n : b - a ≡ length mid = omega (arith, e, h) in rw (p, q, d, n) refl

get_elem?-append :
    (pre : Buf) (b : ℕ) (post : Buf) → get_elem? (pre ++ (b ∷ post)) (length pre) ≡ some b
get_elem?-append [] b post = refl
get_elem?-append (p ∷ pre) b post = get_elem?-append pre b post

pub byte_at-append :
    (pre : Buf) (b : ℕ) (post : Buf) (len : ℕ)
    → length pre < len
    → byte_at (input_of (pre ++ (b ∷ post)) len) (length pre) ≡ ok b
unfolding byte_at
byte_at-append pre b post len h = rw (lt→ltb (length pre) len h, get_elem?-append pre b post) refl

pub le_value-le_bytes : (w n : ℕ) → n < 256 ^ w → le_value (le_bytes w n) ≡ n
unfolding le_bytes
le_value-le_bytes zero n h = omega arith
le_value-le_bytes (suc w) n h =
    let ih = le_value-le_bytes w (n / 256) (omega (arith, h)) in omega (arith, ih)

-- A number of `w` bytes that begins at `start`.
pub read_le-append :
    (pre post : Buf) (w n len start : ℕ)
    → n < 256 ^ w
    → start ≡ length pre
    → length (pre ++ (le_bytes w n ++ post)) < 2 ^ 64
    → read_le (input_of (pre ++ (le_bytes w n ++ post)) len) start w ≡ ok n
unfolding read_le
read_le-append pre post w n len start h e b =
    let l = length-le_bytes w n in
    let s : start +u64 w ≡ length pre + length (le_bytes w n) = omega (lengths, l, e, b) in
    rw
      (
        slice_input-append pre (le_bytes w n) post len start (start +u64 w) e s,
        take-append (le_bytes w n) post,
        le_value-le_bytes w n h,
      )
      refl
