-- ===== src/Marshal/Refines.antt =====
-- Marshal writes what the format says.
use go_ssz.Prelude.{ℕ, zero, suc, ◌+◌, ◌*◌, ◌%◌, ◌^◌, ◌≤◌, ◌<◌, ◌≡◌, refl, ap, arith}
use go_ssz.Prelude.{[], ◌∷◌, List, length, ok, ◌>>=◌, Bool, true, false}
use go_ssz.Prelude.{if◌then◌else◌, Option, some}
use native.Mathlib.Nat.{zero-add}
use go_ssz.Buffer.{Buf}
use go_ssz.Buffer.Writes.{Writes, lengths}
use go_ssz.Reflect.{Scalar, Typ, Fields, Val, Vals, Text, zero_fields, zero_value, bytes_as_vals}
use go_ssz.Tags.{is_metadata, determine_field_type}
use go_ssz.Size.{is_variable_size_type, determine_fixed_size}
use go_ssz.Factory.{Factory, ssz_factory}
use go_ssz.Marshal.{
  Marshaler, marshal_with, marshal_fields, fixed_length, marshal_basic, marshal_byte_array,
}
use go_ssz.Marshal.Layout.{Lays, Lays-nil, Lays-Writes}
use go_ssz.Marshal.Loops.{
  EachWrites, concat, join-concat, marshal_fields-Lays, marshal_fields-Lays_skip,
}
use go_ssz.Marshal.Bytes.{marshal_bool-Writes, marshal_basic-Writes, marshal_string-Writes}
use go_ssz.Marshal.Bytes.{byte_array-Writes, byte_slice-Writes, nil_bytes-Writes}
use go_ssz.Marshal.Sequences.{ItemWrites, slice-Writes, array-Writes}
use go_ssz.Ssz.{Schema, Schemas, Item, Items, is_variable, serialize, parts, depth, depth_all}
use go_ssz.Ssz.Parts.{Part, part, part_size, total, head_length, length-join-total}
use go_ssz.Represents.{ValRep, ValsRep, FieldsRep, byte_typ, byte_schema, uint_width}
use go_ssz.Represents.Variable.{is_variable_size_type-is_variable, ValRep-TypeRep}
use go_ssz.Represents.Factory.{choice, array_choice, ssz_factory-choice}
use go_ssz.Represents.Size.{determine_fixed_size-serialize}

-- The first loop over the fields adds up the fixed parts and the offsets.
field_length :
    (f : ℕ) (name : Text) (size max : Option Text) (t u : Typ) (fs : Fields) (v : Val) (vs : Vals)
    (b : Bool) (bs : Buf) (ps : List Part) (acc : ℕ)
    → is_metadata name ≡ false
    → determine_field_type size t ≡ ok u
    → is_variable_size_type f u ≡ ok b
    → (b ≡ false → determine_fixed_size f v u ≡ ok (length bs))
    → acc + (part_size (part b bs) + total ps) < 2 ^ 64
    → ((n : ℕ) → n + total ps < 2 ^ 64 → fixed_length f fs vs n ≡ ok (n + head_length ps))
    → fixed_length f (Fields.field name size max t fs) (Vals.cons v vs) acc
      ≡ ok (acc + head_length (part b bs ∷ ps))
unfolding fixed_length
field_length f name size max t u fs v vs true bs ps acc k d e q b ih =
    let n : (acc + 4) % 2 ^ 64 ≡ acc + 4 = omega arith in
    rw (k, d, e, n, ih (acc + 4) (omega arith)) (ap ok (omega arith))
field_length f name size max t u fs v vs false bs ps acc k d e q b ih =
    let n : (acc + length bs) % 2 ^ 64 ≡ acc + length bs = omega arith in
    rw (k, d, e, q refl, n, ih (acc + length bs) (omega arith)) (ap ok (omega arith))

part_bound : (b : Bool) (bs : Buf) → length bs ≤ part_size (part b bs)
part_bound true bs = omega arith
part_bound false bs = omega arith

fixed_length-head_length :
    {fs : Fields} {vs : Vals} {ss : Schemas} {xs : Items}
    → FieldsRep fs vs ss xs
    → (f : ℕ) (acc : ℕ) → 8 * depth_all ss ≤ f
    → acc + total (parts ss xs) < 2 ^ 64
    → fixed_length f fs vs acc ≡ ok (acc + head_length (parts ss xs))
unfolding serialize depth fixed_length
fixed_length-head_length FieldsRep.no_fields f acc h b = ap ok (omega arith)
fixed_length-head_length (FieldsRep.skip m rs) f acc h b =
    rw m (fixed_length-head_length rs f acc h b)
fixed_length-head_length
      (FieldsRep.keep {name = name} {size = size} {max = max} {t = t} {u = u} {fs = fs} {v = v}
        {vs = vs} {s = s} {ss = ss} {x = x} {xs = xs} m d r rs)
      f acc h b =
    field_length f name size max t u fs v vs (is_variable s) (serialize s x) (parts ss xs) acc m d
      (is_variable_size_type-is_variable (ValRep-TypeRep r) f (omega arith))
      (λ q.
        determine_fixed_size-serialize r q
          (omega (arith, part_bound (is_variable s) (serialize s x))) f (omega arith))
      b (λ n l. fixed_length-head_length rs f n (omega arith) l)

-- SSZFactory, then the Marshal of what it finds.
abbrev pub find : ℕ → Marshaler
find f v t buf off = ssz_factory f v t >>= λ factory. marshal_with f factory v t buf off

Lays-end : (f start : ℕ) → Lays (marshal_fields f (find f) start Fields.end Vals.nil) start []
unfolding marshal_fields
Lays-end f start = Lays-nil start

abbrev Marshals : Val → Typ → Schema → Item → Type 0
Marshals v t s x =
    (f : ℕ) → 8 * depth s ≤ f → Writes (marshal_with f (choice t s) v t) (serialize s x)

abbrev FieldsLay : Fields → Vals → Schemas → Items → Type 0
FieldsLay fs vs ss xs =
    (f : ℕ)
    → 8 * depth_all ss ≤ f
    → (start : ℕ) → Lays (marshal_fields f (find f) start fs vs) start (parts ss xs)

struct-Writes :
    {fs : Fields} {vs : Vals} {ss : Schemas} {xs : Items}
    → FieldsRep fs vs ss xs
    → FieldsLay fs vs ss xs
    → (f : ℕ) → 8 * depth_all ss ≤ f
    → Writes
        (marshal_with (suc f) Factory.struct (Val.struct fs vs) (Typ.struct fs))
        (serialize (Schema.container ss) (Item.seq xs))
unfolding marshal_with serialize
struct-Writes {fs} {vs} {ss} {xs} r l f h pre mid post e b =
    rw
      (
        fixed_length-head_length r f 0 h (omega (lengths, length-join-total (parts ss xs))),
        zero-add,
      )
      (Lays-Writes (λ start. marshal_fields f (find f) start fs vs) (parts ss xs) (l f h) pre mid
        post e b)

factory-Writes :
    {v : Val} {t : Typ} {s : Schema} {x : Item}
    → ValRep v t s x
    → (f : ℕ) → 4 * depth s ≤ f
    → Writes (marshal_with f (choice t s) v t) (serialize s x)
    → Writes (find f v t) (serialize s x)
factory-Writes r f h w = rw (ssz_factory-choice r f (omega arith)) w

-- A pointer to a struct is written as the struct, a nil pointer as its zero value.
ptr-Writes :
    (f : ℕ) (fs : Fields) (vs : Vals) (bs : Buf)
    → Writes (marshal_with f Factory.struct (Val.struct fs vs) (Typ.struct fs)) bs
    → Writes
        (marshal_with (suc f) Factory.struct (Val.ptr (Val.struct fs vs)) (Typ.ptr (Typ.struct fs)))
        bs
unfolding marshal_with
ptr-Writes f fs vs bs w = w

nil_ptr-Writes :
    (f : ℕ) (fs : Fields) {vs : Vals} (bs : Buf)
    → zero_fields fs ≡ vs
    → Writes (marshal_with f Factory.struct (Val.struct fs vs) (Typ.struct fs)) bs
    → Writes
        (marshal_with
          (suc f)
          Factory.struct
          (Val.nil_ptr (Typ.struct fs))
          (Typ.ptr (Typ.struct fs)))
        bs
unfolding marshal_with zero_value
nil_ptr-Writes f fs bs e w = rw e w

-- Numbers, strings and byte arrays, under their factories.
bool-Marshals :
    (c : Bool)
    → Marshals (Val.bool c) (Typ.scalar Scalar.bool) Schema.boolean (Item.num (if c then 1 else 0))
unfolding marshal_with choice marshal_basic depth
bool-Marshals c zero h = absurd (omega arith)
bool-Marshals c (suc f) h = marshal_bool-Writes c

uint-Marshals :
    (k : Scalar) (w n : ℕ)
    → uint_width k ≡ some w
    → Marshals (Val.num k n) (Typ.scalar k) (Schema.uint w) (Item.num n)
unfolding marshal_with choice depth
uint-Marshals k w n e zero h = absurd (omega arith)
uint-Marshals k w n e (suc f) h = marshal_basic-Writes k w n e

string-Marshals :
    (cs : Text) {xs : Items}
    → ValsRep (bytes_as_vals cs) byte_typ byte_schema xs
    → Marshals (Val.str cs) Typ.string (Schema.list byte_schema) (Item.seq xs)
unfolding marshal_with choice depth serialize
string-Marshals cs r zero h = absurd (omega arith)
string-Marshals cs {xs} r (suc f) h =
    rw (join-concat byte_schema xs refl) (marshal_string-Writes cs r)

bytes-Marshals :
    (v : Val) (n : ℕ) (xs : Items)
    → Writes (marshal_byte_array n v) (concat byte_schema xs)
    → Marshals v (Typ.array n byte_typ) (Schema.vector n byte_schema) (Item.seq xs)
unfolding marshal_with choice array_choice marshal_basic depth serialize
bytes-Marshals v n xs w zero h = absurd (omega arith)
bytes-Marshals v n xs w (suc f) h = rw (join-concat byte_schema xs refl) w

mutual
  unfolding choice depth serialize

  val-Marshals : {v : Val} {t : Typ} {s : Schema} {x : Item} → ValRep v t s x → Marshals v t s x
  val-Marshals (ValRep.boolean {b = c}) f h = bool-Marshals c f h
  val-Marshals (ValRep.uint {k = k} {w = w} {n = n} e l) f h = uint-Marshals k w n e f h
  val-Marshals (ValRep.string {cs = cs} r) f h = string-Marshals cs r f h
  val-Marshals (ValRep.slice e q o rs) zero h = absurd (omega arith)
  val-Marshals (ValRep.slice {v = v} e q o rs) (suc f) h =
      slice-Writes f v e q rs (items_marshal rs f (omega arith)) (omega arith)
  val-Marshals (ValRep.array e c u q o rs) zero h = absurd (omega arith)
  val-Marshals (ValRep.array {v = v} {n = n} e c u q o rs) (suc f) h =
      array-Writes f n v e u q rs (items_marshal rs f (omega arith)) (omega arith) (omega arith)
  val-Marshals (ValRep.byte_array {n = n} {xs = xs} c r) f h =
      bytes-Marshals _ n xs (byte_array-Writes n r) f h
  val-Marshals (ValRep.byte_slice {n = n} {xs = xs} c r) f h =
      bytes-Marshals _ n xs (byte_slice-Writes n r) f h
  val-Marshals (ValRep.nil_bytes {n = n} {xs = xs} e) f h =
      bytes-Marshals _ n xs (rw e (nil_bytes-Writes n)) f h
  val-Marshals (ValRep.struct r) zero h = absurd (omega arith)
  val-Marshals (ValRep.struct r) (suc f) h = struct-Writes r (fields_marshal r) f (omega arith)
  val-Marshals (ValRep.ptr r) zero h = absurd (omega arith)
  val-Marshals (ValRep.ptr r) (suc zero) h = absurd (omega arith)
  val-Marshals (ValRep.ptr {fs = fs} {vs = vs} r) (suc (suc f)) h =
      ptr-Writes (suc f) fs vs _ (struct-Writes r (fields_marshal r) f (omega arith))
  val-Marshals (ValRep.nil_ptr e r) zero h = absurd (omega arith)
  val-Marshals (ValRep.nil_ptr e r) (suc zero) h = absurd (omega arith)
  val-Marshals (ValRep.nil_ptr {fs = fs} e r) (suc (suc f)) h =
      nil_ptr-Writes (suc f) fs _ e (struct-Writes r (fields_marshal r) f (omega arith))

  items_marshal :
      {vs : Vals} {t : Typ} {s : Schema} {xs : Items}
      → ValsRep vs t s xs
      → (f : ℕ) → 8 * depth s ≤ f
      → ItemWrites f t s vs xs
  items_marshal ValsRep.no_vals f h = EachWrites.none_left
  items_marshal (ValsRep.each r rs) f h =
      EachWrites.each (val-Marshals r f h) (items_marshal rs f h)

  fields_marshal :
      {fs : Fields} {vs : Vals} {ss : Schemas} {xs : Items}
      → FieldsRep fs vs ss xs
      → FieldsLay fs vs ss xs
  fields_marshal FieldsRep.no_fields f h start = Lays-end f start
  fields_marshal
        (FieldsRep.skip {name = name} {size = size} {max = max} {t = t} {fs = fs} {v = v} {vs = vs}
          {ss = ss} {xs = xs} m r)
        f h start =
      marshal_fields-Lays_skip f (find f) start name size max t fs v vs (parts ss xs) m
        (fields_marshal r f h start)
  fields_marshal
        (FieldsRep.keep {name = name} {size = size} {max = max} {t = t} {u = u} {fs = fs} {v = v}
          {vs = vs} {s = s} {ss = ss} {x = x} {xs = xs} m d r rs)
        f h start =
      marshal_fields-Lays f (find f) start name size max t u fs v vs (is_variable s) (serialize s x)
        (parts ss xs) m d (is_variable_size_type-is_variable (ValRep-TypeRep r) f (omega arith))
        (factory-Writes r f (omega arith) (val-Marshals r f (omega arith)))
        (fields_marshal rs f (omega arith) start)

pub marshal_with-Writes :
    {v : Val} {t : Typ} {s : Schema} {x : Item}
    → ValRep v t s x
    → (f : ℕ) → 8 * depth s ≤ f
    → Writes (marshal_with f (choice t s) v t) (serialize s x)
marshal_with-Writes r = val-Marshals r

-- SSZFactory and the Marshal that it finds write a value that stands for an item into any stretch
-- of a buffer, shorter than 2^64 bytes, that has the length of the item's serialization: the
-- serialization is written there, the rest of the buffer stays as it is, and the offset behind the
-- stretch is returned, given the fuel that the depth of the schema asks for. From 2^32 bytes on, where SSZ
-- refuses, offsets are modulo 2^32.
pub find-Writes :
    {v : Val} {t : Typ} {s : Schema} {x : Item}
    → ValRep v t s x
    → (f : ℕ) → 8 * depth s ≤ f
    → Writes (find f v t) (serialize s x)
find-Writes r f h = factory-Writes r f (omega arith) (val-Marshals r f h)
