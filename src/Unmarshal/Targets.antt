-- ===== src/Unmarshal/Targets.antt =====
-- The values that Unmarshal writes to, and the room that it makes for items and behind pointers.
use go_ssz.Prelude.{ℕ, zero, suc, ◌+◌, ◌*◌, ◌≤◌, ◌≡◌, refl, ap, arith, ok}
use go_ssz.Reflect.{Scalar, Typ, Val, type_of, zero_value}
use go_ssz.Reflect.{repeat_val, count_vals, elem_type}
use go_ssz.Equal.{same_type_refl}
use go_ssz.Factory.{ssz_factory}
use go_ssz.Size.{is_basic_type}
use go_ssz.Grow.{assign, instantiate}
use go_ssz.Unmarshal.{concrete_field}
use go_ssz.Ssz.{Schema, depth}
use go_ssz.Represents.{TypeRep}
use go_ssz.Represents.Variable.{is_variable_size_type-is_variable}
use go_ssz.Represents.Factory.{choice, array_choice, slice_lem, array_lem}

-- The zero value of a type, or a pointer to the zero value.
abbrev pub target : Typ → Val
target (Typ.ptr u) = Val.ptr (zero_value u)
target t = zero_value t

pub count_vals-repeat_val : (n : ℕ) (v : Val) → count_vals (repeat_val n v) ≡ n
count_vals-repeat_val zero v = refl
count_vals-repeat_val (suc n) v = ap suc (count_vals-repeat_val n v)

pub type_of-zero_value : (t : Typ) → type_of (zero_value t) ≡ ok t
unfolding type_of zero_value
type_of-zero_value (Typ.scalar Scalar.bool) = refl
type_of-zero_value (Typ.scalar _) = refl
type_of-zero_value Typ.string = refl
type_of-zero_value (Typ.slice t) = refl
type_of-zero_value (Typ.array n t) = rw (count_vals-repeat_val n (zero_value t)) refl
type_of-zero_value (Typ.struct fs) = refl
type_of-zero_value (Typ.ptr t) = refl
type_of-zero_value (Typ.other n) = refl

pub type_of-target : (t : Typ) → type_of (target t) ≡ ok t
type_of-target (Typ.ptr u) = unfold type_of in rw (type_of-zero_value u) refl
type_of-target (Typ.scalar k) = type_of-zero_value (Typ.scalar k)
type_of-target Typ.string = type_of-zero_value Typ.string
type_of-target (Typ.slice t) = type_of-zero_value (Typ.slice t)
type_of-target (Typ.array n t) = type_of-zero_value (Typ.array n t)
type_of-target (Typ.struct fs) = type_of-zero_value (Typ.struct fs)
type_of-target (Typ.other n) = type_of-zero_value (Typ.other n)

pub assign_same :
    (val x : Val) (t : Typ) → type_of val ≡ ok t → type_of x ≡ ok t → assign val x ≡ ok x
unfolding assign
assign_same val x t e h = rw (e, h, same_type_refl t) refl

-- A pointer of the type gets a new zero value to point to.
pub instantiate_ptr :
    (v : Val) (u : Typ) → type_of v ≡ ok (Typ.ptr u) → instantiate v u ≡ ok (Val.ptr (zero_value u))
unfolding instantiate
instantiate_ptr v u e =
    assign_same v (Val.ptr (zero_value u)) (Typ.ptr u) e (type_of-target (Typ.ptr u))

-- A value that stands ready: the zero value of its type, or that with a target made.
pub data IsFresh : Val → Typ → Type 0 where
  untouched : (t : Typ) → IsFresh (zero_value t) t
  made : (u : Typ) → IsFresh (Val.ptr (zero_value u)) (Typ.ptr u)

pub IsFresh-target : (t : Typ) → IsFresh (target t) t
IsFresh-target (Typ.ptr u) = IsFresh.made u
IsFresh-target (Typ.scalar k) = IsFresh.untouched (Typ.scalar k)
IsFresh-target Typ.string = IsFresh.untouched Typ.string
IsFresh-target (Typ.slice t) = IsFresh.untouched (Typ.slice t)
IsFresh-target (Typ.array n t) = IsFresh.untouched (Typ.array n t)
IsFresh-target (Typ.struct fs) = IsFresh.untouched (Typ.struct fs)
IsFresh-target (Typ.other n) = IsFresh.untouched (Typ.other n)

pub concrete_field-target : {v : Val} {t : Typ} → IsFresh v t → concrete_field v t ≡ ok (target t)
unfolding concrete_field elem_type
concrete_field-target (IsFresh.made u) =
    instantiate_ptr (target (Typ.ptr u)) u (type_of-target (Typ.ptr u))
concrete_field-target (IsFresh.untouched (Typ.ptr u)) =
    unfold zero_value in instantiate_ptr (Val.nil_ptr u) u (unfold type_of in refl)
concrete_field-target (IsFresh.untouched (Typ.scalar Scalar.bool)) = unfold zero_value in refl
concrete_field-target (IsFresh.untouched (Typ.scalar _)) = unfold zero_value in refl
concrete_field-target (IsFresh.untouched Typ.string) = unfold zero_value in refl
concrete_field-target (IsFresh.untouched (Typ.slice t)) = unfold zero_value in refl
concrete_field-target (IsFresh.untouched (Typ.array n t)) = unfold zero_value in refl
concrete_field-target (IsFresh.untouched (Typ.struct fs)) = unfold zero_value in refl
concrete_field-target (IsFresh.untouched (Typ.other n)) = unfold zero_value in refl

-- The factory is found at a value with or without a target.
pub ssz_factory-fresh :
    {v : Val} {t : Typ} {s : Schema}
    → IsFresh v t
    → TypeRep t s
    → (f : ℕ) → 4 * depth s ≤ f + 4
    → ssz_factory f v t ≡ ok (choice t s)
unfolding ssz_factory choice depth is_basic_type array_choice
ssz_factory-fresh i TypeRep.boolean f h = refl
ssz_factory-fresh i (TypeRep.uint {k = k} e) f h = ground arith
ssz_factory-fresh i TypeRep.string f h = refl
ssz_factory-fresh i (TypeRep.slice {t = t} r) f h =
    slice_lem f t (is_variable_size_type-is_variable r f (omega arith))
ssz_factory-fresh i (TypeRep.array {n = n} {t = t} r) f h =
    array_lem f n t (is_variable_size_type-is_variable r f (omega arith))
ssz_factory-fresh i (TypeRep.struct r) f h = refl
ssz_factory-fresh (IsFresh.made u) (TypeRep.ptr r) f h = refl
ssz_factory-fresh (IsFresh.untouched (Typ.ptr u)) (TypeRep.ptr r) f h = unfold zero_value in refl
