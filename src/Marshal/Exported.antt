-- ===== src/Marshal/Exported.antt =====
-- The exported Marshal.
use go_ssz.Represents.{TypeRep}
use go_ssz.Prelude.{
  ℕ, ◌+◌, ◌*◌, ◌^◌, ◌≤◌, ◌<◌, ◌≡◌, refl, arith, [], ◌++◌, length, ok, ◌>>=◌, Bool, true, false,
}
use go_ssz.Prelude.{zero, suc, some, replicate, length-replicate, append-nil, err, unsupported_kind}
use go_ssz.Buffer.{Buf}
use go_ssz.Buffer.Writes.{Writes}
use go_ssz.Reflect.{Scalar, Typ, Fields, Val, Vals, type_of, elem_type, zero_fields}
use go_ssz.Size.{determine_size, is_variable_size_type, is_basic_scalar}
use go_ssz.Factory.{Factory, ssz_factory}
use go_ssz.Marshal.{Written, marshal_with, marshal_typed, marshal}
use go_ssz.Marshal.Refines.{marshal_with-Writes}
use go_ssz.Ssz.{Schema, Schemas, Item, Items, serialize, depth}
use go_ssz.Represents.{ValRep, FieldsRep}
use go_ssz.Represents.Factory.{choice, ssz_factory-choice}
use go_ssz.Represents.Size.{determine_size-serialize}
use go_ssz.Represents.Size.Claims.{is_pointer, items_no_pointer}

abbrev pub zeros : ℕ → Buf
zeros n = replicate n 0

length-zeros : (n : ℕ) → length (zeros n) ≡ n
length-zeros n = length-replicate n _

-- A writer fills a fresh buffer of the right size.
pub fill :
    (m : Buf → ℕ → Written) (bs : Buf)
    → Writes m bs
    → length bs < 2 ^ 64
    → (m (zeros (length bs)) 0 >>= λ (buf, off). ok buf) ≡ ok bs
fill m bs w b =
    let n = length-zeros (length bs) in
    let l : length (zeros (length bs) ++ []) < 2 ^ 64 = rw append-nil (omega (arith, n)) in
    let run = w [] (zeros (length bs)) [] n l in rw (simp append-nil at run)

marshal_typed_lem :
    (f : ℕ) (v : Val) (t : Typ) (g : Factory) (buf : Buf)
    → is_pointer v ≡ false
    → marshal_typed f v t g buf ≡ marshal_with f g v t buf 0
unfolding marshal_typed
marshal_typed_lem f (Val.ptr v) t g buf p = cc
marshal_typed_lem f (Val.nil_ptr v) t g buf p = cc
marshal_typed_lem f _ t g buf p = refl

marshal_plain :
    (v : Val) {t : Typ} {s : Schema} {x : Item}
    → is_pointer v ≡ false
    → ValRep v t s x
    → type_of v ≡ ok t
    → length (serialize s x) < 2 ^ 64
    → (f : ℕ) → 8 * depth s + 3 ≤ f
    → marshal f (some v) ≡ ok (serialize s x)
unfolding marshal
marshal_plain v {t} {s} {x} p r e b f h =
    rw
      (
        determine_size-serialize r e b f h,
        e,
        ssz_factory-choice r f (omega arith),
        marshal_typed_lem f v t (choice t s) (zeros (length (serialize s x))) p,
      )
      (fill (marshal_with f (choice t s) v t) (serialize s x)
        (marshal_with-Writes r f (omega arith)) b)

-- A pointer to a struct is marshalled as the struct.
marshal_ptr :
    {fs : Fields} {vs : Vals} {ss : Schemas} {xs : Items}
    → FieldsRep fs vs ss xs
    → length (serialize (Schema.container ss) (Item.seq xs)) < 2 ^ 64
    → (f : ℕ) → 8 * depth (Schema.container ss) + 3 ≤ f
    → marshal f (some (Val.ptr (Val.struct fs vs)))
      ≡ ok (serialize (Schema.container ss) (Item.seq xs))
unfolding marshal type_of marshal_typed elem_type choice
marshal_ptr {fs} {vs} {ss} {xs} r b f h =
    rw
      (
        determine_size-serialize (ValRep.ptr r) refl b f h,
        ssz_factory-choice (ValRep.ptr r) f (omega arith),
      )
      (fill (marshal_with f Factory.struct (Val.struct fs vs) (Typ.struct fs))
        (serialize (Schema.container ss) (Item.seq xs))
        (marshal_with-Writes (ValRep.struct r) f (omega arith)) b)

-- Is the value a nil pointer?
abbrev pub is_nil_ptr : Val → Bool
is_nil_ptr (Val.nil_ptr t) = true
is_nil_ptr _ = false

-- The exported Marshal returns the serialization that the format specifies, for every value but a
-- nil pointer that stands for an item at its own type, if the serialization has less than 2^64
-- bytes and the model is given the fuel that the depth of the schema asks for. From 2^32 bytes on, where SSZ
-- refuses, the offsets of both are modulo 2^32.
pub marshal-serialize :
    {v : Val} {t : Typ} {s : Schema} {x : Item}
    → ValRep v t s x
    → type_of v ≡ ok t
    → is_nil_ptr v ≡ false
    → length (serialize s x) < 2 ^ 64
    → (f : ℕ) → 8 * depth s + 3 ≤ f
    → marshal f (some v) ≡ ok (serialize s x)
marshal-serialize (ValRep.boolean {b = c}) e p b f h =
    marshal_plain (Val.bool c) refl ValRep.boolean e b f h
marshal-serialize (ValRep.uint {k = k} {n = n} d l) e p b f h =
    marshal_plain (Val.num k n) refl (ValRep.uint d l) e b f h
marshal-serialize (ValRep.string {cs = cs} r) e p b f h =
    marshal_plain (Val.str cs) refl (ValRep.string r) e b f h
marshal-serialize (ValRep.slice {v = v} d q o rs) e p b f h =
    marshal_plain v (items_no_pointer v d) (ValRep.slice d q o rs) e b f h
marshal-serialize (ValRep.array {v = v} d c u q o rs) e p b f h =
    marshal_plain v (items_no_pointer v d) (ValRep.array d c u q o rs) e b f h
marshal-serialize (ValRep.byte_array c r) e p b f h =
    marshal_plain _ refl (ValRep.byte_array c r) e b f h
marshal-serialize (ValRep.byte_slice c r) e p b f h =
    marshal_plain _ refl (ValRep.byte_slice c r) e b f h
marshal-serialize (ValRep.nil_bytes d) e p b f h = marshal_plain _ refl (ValRep.nil_bytes d) e b f h
marshal-serialize (ValRep.struct r) e p b f h = marshal_plain _ refl (ValRep.struct r) e b f h
marshal-serialize (ValRep.ptr r) e p b f h = marshal_ptr r b f h
marshal-serialize (ValRep.nil_ptr d r) e p b f h = cc

-- The exported Marshal of a nil pointer to a struct whose zero value stands for an item returns
-- zero bytes only, as many as the serialization of that item has, if these are less than 2^64 and
-- the model is given the fuel that the depth of the schema asks for.
pub marshal-nil_ptr :
    {fs : Fields} {ss : Schemas} {xs : Items}
    → FieldsRep fs (zero_fields fs) ss xs
    → length (serialize (Schema.container ss) (Item.seq xs)) < 2 ^ 64
    → (f : ℕ) → 8 * depth (Schema.container ss) + 3 ≤ f
    → marshal f (some (Val.nil_ptr (Typ.struct fs)))
      ≡ ok (replicate (length (serialize (Schema.container ss) (Item.seq xs))) 0)
unfolding marshal type_of marshal_typed choice
marshal-nil_ptr r b f h = rw (
  determine_size-serialize (ValRep.nil_ptr refl r) refl b f h,
  ssz_factory-choice (ValRep.nil_ptr refl r) f (omega arith),
)

no_schema-is_basic_scalar :
    (k : Scalar) → ((s : Schema) → ¬ TypeRep (Typ.scalar k) s) → is_basic_scalar k ≡ false
no_schema-is_basic_scalar Scalar.bool h = absurd (h Schema.boolean TypeRep.boolean)
no_schema-is_basic_scalar Scalar.int32 h = absurd (h (Schema.uint 4) (TypeRep.uint refl))
no_schema-is_basic_scalar Scalar.uint8 h = absurd (h (Schema.uint 1) (TypeRep.uint refl))
no_schema-is_basic_scalar Scalar.uint16 h = absurd (h (Schema.uint 2) (TypeRep.uint refl))
no_schema-is_basic_scalar Scalar.uint32 h = absurd (h (Schema.uint 4) (TypeRep.uint refl))
no_schema-is_basic_scalar Scalar.uint64 h = absurd (h (Schema.uint 8) (TypeRep.uint refl))
no_schema-is_basic_scalar _ h = refl

-- The exported Marshal refuses a number of a type that stands for no schema of the format (TypeRep has none
-- for it) with SSZFactory's error, given two units of fuel.
pub marshal-unsupported :
    (k : Scalar) (n f : ℕ)
    → ((s : Schema) → ¬ TypeRep (Typ.scalar k) s)
    → 2 ≤ f
    → marshal f (some (Val.num k n)) ≡ err unsupported_kind
unfolding marshal determine_size type_of is_variable_size_type ssz_factory
marshal-unsupported k n zero e h = absurd (omega arith)
marshal-unsupported k n (suc zero) e h = absurd (omega arith)
marshal-unsupported k n (suc (suc f)) e h = rw (no_schema-is_basic_scalar k e) refl
