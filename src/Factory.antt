-- ===== src/Factory.antt =====
-- types/factory.go: SSZFactory, which picks the implementation of SSZAble for a type.
use go_ssz.Prelude.{ℕ, if◌then◌else◌, Result, ok, err, ◌>>=◌, unsupported_kind}
use go_ssz.Reflect.{Typ, Val, kind, elem}
use go_ssz.Size.{is_basic_type, is_basic_type_array, is_roots_array, is_variable_size_type}

-- The implementations: basicFactory, stringFactory and so on.
pub data Factory : Type 0 where
  basic string basic_slice composite_slice roots_array basic_array composite_array struct : Factory

unfoldable pub slice_factory : ℕ → Typ → Result Factory
unfolding is_basic_type kind
slice_factory f t =
    if is_basic_type (kind t)
    then ok Factory.basic_slice
    else is_variable_size_type f t >>= λ variable.
        ok (if variable then Factory.composite_slice else Factory.basic_slice)

unfoldable pub array_factory : ℕ → ℕ → Typ → Result Factory
unfolding is_basic_type_array is_roots_array
array_factory f n t =
    if is_basic_type_array (Typ.array n t)
    then ok Factory.basic
    else is_roots_array (Typ.array n t) >>= λ roots.
        if roots
        then ok Factory.roots_array
        else if is_basic_type_array t
        then ok Factory.basic_array
        else is_variable_size_type f t >>= λ variable.
            ok (if variable then Factory.composite_array else Factory.basic_array)

-- `f` is fuel for isVariableSizeType. The value is looked at under a pointer type only.
unfoldable pub ssz_factory : ℕ → Val → Typ → Result Factory
unfolding is_basic_type kind elem slice_factory array_factory
ssz_factory f val (Typ.scalar s) =
    if is_basic_type (kind (Typ.scalar s)) then ok Factory.basic else err unsupported_kind
ssz_factory f val Typ.string = ok Factory.string
ssz_factory f val (Typ.slice t) = slice_factory f t
ssz_factory f val (Typ.array n t) = array_factory f n t
ssz_factory f val (Typ.struct fs) = ok Factory.struct
ssz_factory f val (Typ.ptr t) = elem val >>= λ v. ssz_factory f v t
ssz_factory f val (Typ.other n) = err unsupported_kind
