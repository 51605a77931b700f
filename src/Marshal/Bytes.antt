-- ===== src/Marshal/Bytes.antt =====
-- What the Marshal methods of numbers, strings and byte arrays write.
use go_ssz.Prelude.{ℕ, zero, suc, ◌+◌, ◌%◌, ◌^◌, ◌<◌, ◌≡◌, refl, ap, subst, arith}
use go_ssz.Prelude.{[], ◌∷◌, ◌++◌, append_assoc, length, ok, ◌>>=◌, Bool, true, false}
use go_ssz.Prelude.{if◌then◌else◌, some, replicate, length-replicate, take-append}
use go_ssz.Buffer.{Buf, put_bytes, le_bytes}
use go_ssz.Buffer.Writes.{Writes, lengths, put_bytes-append, copy_bytes-append}
use go_ssz.Reflect.{Scalar, Typ, Val, Vals, Text, count_vals, bytes_as_vals}
use go_ssz.Size.{◌+u64◌}
use go_ssz.Marshal.{marshal_bool, marshal_num, marshal_basic, marshal_byte_array, marshal_string}
use go_ssz.Marshal.{write_bytes, bytes_of, as_num, marshal_root, root_bytes, to_bytes32}
use go_ssz.Marshal.Loops.{concat}
use go_ssz.Ssz.{Schema, Item, Items, serialize}
use go_ssz.Ssz.Parts.{length-le_bytes}
use go_ssz.Represents.{ValRep, ValsRep, byte_typ, byte_schema, uint_width, zero_bytes}

-- A write of all bytes at once, whose end is computed as a uint64.
put-Writes :
    (bs : Buf) (w : ℕ)
    → length bs ≡ w
    → Writes (λ buf off. put_bytes buf off bs >>= λ buf'. ok (buf', off +u64 w)) bs
put-Writes bs w l pre mid post e b =
    let n : (length pre + w) % 2 ^ 64 ≡ length pre + length bs = omega lengths in
    rw (put_bytes-append pre mid post bs e, n)

pub marshal_bool-Writes :
    (c : Bool)
    → Writes (marshal_bool (Val.bool c)) (serialize Schema.boolean (Item.num (if c then 1 else 0)))
unfolding marshal_bool serialize
marshal_bool-Writes true = put-Writes (1 ∷ []) 1 refl
marshal_bool-Writes false = put-Writes (0 ∷ []) 1 refl

as_num_same : (k : Scalar) (n : ℕ) → as_num k (Val.num k n) ≡ ok n
unfolding as_num
as_num_same k n = ground arith

-- A number of w bytes, as its type asks.
num-Writes : (k : Scalar) (w n : ℕ) → Writes (marshal_num k w (Val.num k n)) (le_bytes w n)
unfolding marshal_num
num-Writes k w n = rw (as_num_same k n) (put-Writes (le_bytes w n) w (length-le_bytes w n))

at_width :
    (k : Scalar) (w : ℕ) {w' : ℕ} (n : ℕ)
    → some w ≡ some w'
    → Writes (marshal_num k w (Val.num k n)) (le_bytes w' n)
at_width k w n e =
    subst (λ u. Writes (marshal_num k w (Val.num k n)) (le_bytes u n)) (cc) (num-Writes k w n)

pub marshal_basic-Writes :
    (k : Scalar) (w n : ℕ)
    → uint_width k ≡ some w
    → Writes (marshal_basic (Val.num k n) (Typ.scalar k)) (serialize (Schema.uint w) (Item.num n))
unfolding marshal_basic serialize
marshal_basic-Writes Scalar.uint8 w n h = at_width Scalar.uint8 1 n h
marshal_basic-Writes Scalar.uint16 w n h = at_width Scalar.uint16 2 n h
marshal_basic-Writes Scalar.int32 w n h = at_width Scalar.int32 4 n h
marshal_basic-Writes Scalar.uint32 w n h = at_width Scalar.uint32 4 n h
marshal_basic-Writes Scalar.uint64 w n h = at_width Scalar.uint64 8 n h
marshal_basic-Writes _ w n h = cc

-- The bytes of items that stand for bytes.
abbrev ByteItems : Vals → Items → Type 0
ByteItems vs xs = ValsRep vs byte_typ byte_schema xs

small_byte : (n : ℕ) → n < 256 ^ 1 → n < 256
small_byte n h = h

bytes_of-concat :
    {vs : Vals} {xs : Items} → ByteItems vs xs → bytes_of vs ≡ ok (concat byte_schema xs)
unfolding bytes_of serialize
bytes_of-concat ValsRep.no_vals = refl
bytes_of-concat (ValsRep.each (ValRep.uint {n = n} e l) rs) =
    let m : n % 256 ≡ n = omega (arith, small_byte n l) in rw (bytes_of-concat rs, m)

length-concat_bytes :
    {vs : Vals} {xs : Items} → ByteItems vs xs → length (concat byte_schema xs) ≡ count_vals vs
unfolding serialize
length-concat_bytes ValsRep.no_vals = refl
length-concat_bytes (ValsRep.each (ValRep.uint e l) rs) = omega (arith, length-concat_bytes rs)

write_bytes-append :
    {vs : Vals} {xs : Items}
    → ByteItems vs xs
    → (pre mid post : Buf) → length mid ≡ length (concat byte_schema xs)
    → write_bytes vs (pre ++ (mid ++ post)) (length pre)
      ≡ ok (pre ++ (concat byte_schema xs ++ post))
unfolding write_bytes serialize
write_bytes-append ValsRep.no_vals pre [] post h = refl
write_bytes-append ValsRep.no_vals pre (m ∷ mid) post h = absurd (omega arith)
write_bytes-append (ValsRep.each (ValRep.uint e l) rs) pre [] post h = absurd (omega arith)
write_bytes-append {xs = Items.cons x xs} (ValsRep.each (ValRep.uint {n = n} e l) rs) pre (m ∷ mid)
      post h =
    let b : Buf = (n % 256) ∷ [] in
    let next : length pre + 1 ≡ length (pre ++ b) = omega lengths in
    let rest = write_bytes-append rs (pre ++ b) mid post (omega arith) in
    rw (
      put_bytes-append pre (m ∷ []) (mid ++ post) b refl,
      next,
      ← append_assoc pre b (mid ++ post),
      rest,
      append_assoc pre b (concat byte_schema xs ++ post),
    )

-- A string, byte by byte.
pub marshal_string-Writes :
    (cs : Text) {xs : Items}
    → ByteItems (bytes_as_vals cs) xs
    → Writes (marshal_string (Val.str cs)) (concat byte_schema xs)
unfolding marshal_string
marshal_string-Writes cs {xs} r pre mid post e b =
    let n : (length pre + count_vals (bytes_as_vals cs)) % 2 ^ 64
        ≡ length pre + length (concat byte_schema xs) =
      omega (lengths, length-concat_bytes r) in
    rw (write_bytes-append r pre mid post e, n)

-- The three forms of a byte array.
pub byte_array-Writes :
    (n : ℕ) {vs : Vals} {xs : Items}
    → ByteItems vs xs
    → Writes (marshal_byte_array n (Val.array byte_typ vs)) (concat byte_schema xs)
unfolding marshal_byte_array
byte_array-Writes n {vs} {xs} r pre mid post e b =
    let m : (length pre + count_vals vs) % 2 ^ 64 ≡ length pre + length (concat byte_schema xs) =
      omega (lengths, length-concat_bytes r) in
    rw (write_bytes-append r pre mid post e, m)

pub byte_slice-Writes :
    (n : ℕ) {vs : Vals} {xs : Items}
    → ByteItems vs xs
    → Writes (marshal_byte_array n (Val.slice byte_typ vs)) (concat byte_schema xs)
unfolding marshal_byte_array
byte_slice-Writes n {vs} {xs} r pre mid post e b =
    let m : (length pre + count_vals vs) % 2 ^ 64 ≡ length pre + length (concat byte_schema xs) =
      omega (lengths, length-concat_bytes r) in
    rw (bytes_of-concat r, copy_bytes-append pre mid post (concat byte_schema xs) e, m)

concat-zero_bytes : (n : ℕ) → concat byte_schema (zero_bytes n) ≡ replicate n 0
unfolding serialize
concat-zero_bytes zero = refl
concat-zero_bytes (suc n) = ap (λ (t : Buf). 0 ∷ t) (concat-zero_bytes n)

abbrev zeros : ℕ → Buf
zeros n = replicate n 0

length-zeros : (n : ℕ) → length (zeros n) ≡ n
length-zeros n = length-replicate n _

zeros-Writes : (n : ℕ) → Writes (marshal_byte_array n (Val.nil_slice byte_typ)) (zeros n)
unfolding marshal_byte_array
zeros-Writes n pre mid post e b =
    let m : (length pre + n) % 2 ^ 64 ≡ length pre + length (zeros n) =
      omega (lengths, length-zeros n) in
    rw (copy_bytes-append pre mid post (zeros n) e, m)

pub nil_bytes-Writes :
    (n : ℕ)
    → Writes (marshal_byte_array n (Val.nil_slice byte_typ)) (concat byte_schema (zero_bytes n))
nil_bytes-Writes n = rw (concat-zero_bytes n) (zeros-Writes n)

-- The items of an array of roots.
marshal_root_put :
    (v : Val) (bs : Buf) → root_bytes v ≡ ok bs → length bs ≡ 32 → Writes (marshal_root v) bs
unfolding marshal_root
marshal_root_put v bs e l = rw e (put-Writes bs 32 l)

pub to_bytes32_lem : (bs : Buf) → length bs ≡ 32 → to_bytes32 bs ≡ bs
unfolding to_bytes32
to_bytes32_lem bs l = rw l at (take-append bs (replicate 32 0))

root_bytes_array :
    {vs : Vals} {xs : Items}
    → count_vals vs ≡ 32
    → ByteItems vs xs
    → root_bytes (Val.array byte_typ vs) ≡ ok (concat byte_schema xs)
unfolding root_bytes
root_bytes_array c r = rw (c, bytes_of-concat r)

root_bytes_slice :
    {vs : Vals} {xs : Items}
    → count_vals vs ≡ 32
    → ByteItems vs xs
    → root_bytes (Val.slice byte_typ vs) ≡ ok (concat byte_schema xs)
unfolding root_bytes
root_bytes_slice {vs} {xs} c r = rw (
  bytes_of-concat r,
  to_bytes32_lem (concat byte_schema xs) (omega (arith, length-concat_bytes r)),
)

zero_root : root_bytes (Val.nil_slice byte_typ) ≡ ok (zeros 32)
unfolding root_bytes to_bytes32
zero_root = refl

-- An item of an array of roots has 32 bytes, those of its serialization.
pub root_bytes-concat :
    {v : Val} {xs : Items}
    → ValRep v (Typ.array 32 byte_typ) (Schema.vector 32 byte_schema) (Item.seq xs)
    → (root_bytes v ≡ ok (concat byte_schema xs)) × (length (concat byte_schema xs) ≡ 32)
root_bytes-concat (ValRep.array e c u r o rs) = cc
root_bytes-concat (ValRep.byte_array c r) =
    (root_bytes_array c r, omega (arith, length-concat_bytes r))
root_bytes-concat (ValRep.byte_slice c r) =
    (root_bytes_slice c r, omega (arith, length-concat_bytes r))
root_bytes-concat (ValRep.nil_bytes e) =
    (rw (e, concat-zero_bytes 32) zero_root, rw (e, concat-zero_bytes 32))

pub marshal_root-Writes :
    {v : Val} {xs : Items}
    → ValRep v (Typ.array 32 byte_typ) (Schema.vector 32 byte_schema) (Item.seq xs)
    → Writes (marshal_root v) (concat byte_schema xs)
marshal_root-Writes {v} {xs} r =
    let (e, l) = root_bytes-concat r in marshal_root_put v (concat byte_schema xs) e l
