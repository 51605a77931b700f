-- ===== src/Represents/Factory.antt =====
-- SSZFactory on the types that stand for schemas.
use go_ssz.Prelude.{ℕ, ◌+◌, ◌*◌, ◌≤◌, ◌≡◌, refl, Bool, ok, arith}
use go_ssz.Prelude.{if◌then◌else◌}
use go_ssz.Reflect.{Typ, Val, kind}
use go_ssz.Size.{is_variable_size_type, is_basic_type, is_basic_type_array, is_root, is_roots_array}
use go_ssz.Factory.{Factory, ssz_factory, slice_factory, array_factory}
use go_ssz.Ssz.{Schema, Item, is_variable, depth}
use go_ssz.Represents.{ValRep}
use go_ssz.Represents.Variable.{is_variable_size_type-is_variable}

-- The factory for a type whose items have a variable size or not.
unfoldable pub slice_choice : Typ → Bool → Factory
slice_choice t variable =
    if is_basic_type (kind t)
    then Factory.basic_slice
    else if variable
    then Factory.composite_slice
    else Factory.basic_slice

unfoldable pub array_choice : Typ → Bool → Factory
array_choice t variable =
    if is_basic_type (kind t)
    then Factory.basic
    else if is_root t
    then Factory.roots_array
    else if is_basic_type_array t
    then Factory.basic_array
    else if variable
    then Factory.composite_array
    else Factory.basic_array

unfoldable pub choice : Typ → Schema → Factory
choice (Typ.scalar s) schema = Factory.basic
choice Typ.string schema = Factory.string
choice (Typ.slice t) (Schema.list s) = slice_choice t (is_variable s)
choice (Typ.array n t) (Schema.vector m s) = array_choice t (is_variable s)
choice _ _ = Factory.struct

pub slice_lem :
    (f : ℕ) (t : Typ) {b : Bool}
    → is_variable_size_type f t ≡ ok b
    → slice_factory f t ≡ ok (slice_choice t b)
unfolding slice_factory slice_choice
slice_lem f t e = rw e (ground arith)

pub array_lem :
    (f n : ℕ) (t : Typ) {b : Bool}
    → is_variable_size_type f t ≡ ok b
    → array_factory f n t ≡ ok (array_choice t b)
unfolding array_factory array_choice is_basic_type_array is_roots_array
array_lem f n t e = rw e (ground arith)

-- The factory depends on the type and on its schema, not on the value.
pub ssz_factory-choice :
    {v : Val} {t : Typ} {s : Schema} {x : Item}
    → ValRep v t s x
    → (f : ℕ) → 4 * depth s ≤ f + 4
    → ssz_factory f v t ≡ ok (choice t s)
unfolding ssz_factory choice depth is_basic_type array_choice
ssz_factory-choice ValRep.boolean f h = refl
ssz_factory-choice (ValRep.uint {k = k} e l) f h = ground arith
ssz_factory-choice (ValRep.string r) f h = refl
ssz_factory-choice (ValRep.slice {t = t} e r o rs) f h =
    slice_lem f t (is_variable_size_type-is_variable r f (omega arith))
ssz_factory-choice (ValRep.array {n = n} {t = t} e c u r o rs) f h =
    array_lem f n t (is_variable_size_type-is_variable r f (omega arith))
ssz_factory-choice (ValRep.byte_array c r) f h = refl
ssz_factory-choice (ValRep.byte_slice c r) f h = refl
ssz_factory-choice (ValRep.nil_bytes e) f h = refl
ssz_factory-choice (ValRep.struct r) f h = refl
ssz_factory-choice (ValRep.ptr r) f h = refl
ssz_factory-choice (ValRep.nil_ptr e r) f h = refl
