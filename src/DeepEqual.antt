-- ===== src/DeepEqual.antt =====
-- deep_equal.go, for values that share no memory: no slice or pointer of one value has an address of
-- the other or stands twice, so that the comparisons of addresses decide nothing but for nil pointers,
-- and the map `visited` never has the pair at hand. Interfaces are not covered: they are compared as
-- the values of other kinds are. Numbers and booleans of unexported fields make it panic.
pub mod Canon
pub mod Unexported
use go_ssz.Prelude.{ℕ, zero, suc, Bool, true, false, if◌then◌else◌, Option, none, some, ◌==◌, ◌||◌}
use go_ssz.Prelude.{Result, ok, panic, ◌>>=◌}
use go_ssz.Reflect.{Scalar, Typ, Fields, is_unexported, Val, Vals, nil, cons, type_of, count_vals}
use go_ssz.Equal.{same_text, same_type}

-- The kinds of numbers that are compared.
abbrev pub is_compared : Scalar → Bool
is_compared Scalar.uint64 = true
is_compared Scalar.uint32 = true
is_compared Scalar.int32 = true
is_compared Scalar.uint16 = true
is_compared Scalar.uint8 = true
is_compared _ = false

abbrev pub same_bool : Bool → Bool → Bool
same_bool true b = b
same_bool false true = false
same_bool false false = true

-- What is compared if the types agree.
unfoldable pub at_same_type : Val → Val → Result Bool → Result Bool
unfolding same_type type_of
at_same_type v w r = type_of v >>= λ t. type_of w >>= λ u. if same_type t u then r else ok false

-- The comparison of what `Interface()` returns, which panics on a value that was found in an unexported
-- field. `ro` is that mark, which every value below such a field keeps.
unfoldable pub interface_of : Bool → Bool → Result Bool
interface_of ro same = if ro then panic else ok same

unfoldable mutual
  unfolding at_same_type same_text interface_of

  pub deep_value_equal : Bool → Val → Val → Result Bool
  deep_value_equal ro Val.invalid Val.invalid = ok true
  deep_value_equal ro Val.invalid w = ok false
  deep_value_equal ro v Val.invalid = ok false
  deep_value_equal ro (Val.str a) (Val.str b) =
      at_same_type (Val.str a) (Val.str b) (ok (same_text a b))
  deep_value_equal ro (Val.array t vs) (Val.array u ws) =
      let each = deep_values_equal ro vs ws in at_same_type (Val.array t vs) (Val.array u ws) each
  deep_value_equal ro (Val.nil_slice t) (Val.nil_slice u) =
      at_same_type (Val.nil_slice t) (Val.nil_slice u) (ok true)
  deep_value_equal ro (Val.nil_slice t) (Val.slice u ws) =
      at_same_type (Val.nil_slice t) (Val.slice u ws) (ok (count_vals ws == 0))
  deep_value_equal ro (Val.slice t vs) (Val.nil_slice u) =
      at_same_type (Val.slice t vs) (Val.nil_slice u) (ok (count_vals vs == 0))
  deep_value_equal ro (Val.slice t vs) (Val.slice u ws) =
      let each = deep_values_equal ro vs ws in
      at_same_type (Val.slice t vs) (Val.slice u ws)
        (if count_vals vs == count_vals ws then each else ok false)
  deep_value_equal ro (Val.nil_ptr t) (Val.nil_ptr u) =
      at_same_type (Val.nil_ptr t) (Val.nil_ptr u) (ok true)
  deep_value_equal ro (Val.ptr v) (Val.ptr w) =
      let target = deep_value_equal ro v w in at_same_type (Val.ptr v) (Val.ptr w) target
  deep_value_equal ro (Val.struct fs vs) (Val.struct gs ws) =
      let each = deep_fields_equal ro fs vs ws in
      at_same_type (Val.struct fs vs) (Val.struct gs ws) each
  deep_value_equal ro (Val.num k n) (Val.num j m) =
      at_same_type (Val.num k n) (Val.num j m)
        (if is_compared k then interface_of ro (n == m) else ok false)
  deep_value_equal ro (Val.bool a) (Val.bool b) =
      at_same_type (Val.bool a) (Val.bool b) (interface_of ro (same_bool a b))
  deep_value_equal ro v w = at_same_type v w (ok false)

  -- The loops over items
  pub deep_values_equal : Bool → Vals → Vals → Result Bool
  deep_values_equal ro nil ws = ok true
  deep_values_equal ro (cons v vs) nil = panic
  deep_values_equal ro (cons v vs) (cons w ws) =
      let rest = deep_values_equal ro vs ws in
      deep_value_equal ro v w >>= λ same. if same then rest else ok false

  -- The loop over fields
  pub deep_fields_equal : Bool → Fields → Vals → Vals → Result Bool
  deep_fields_equal ro Fields.end vs ws = ok true
  deep_fields_equal ro (Fields.field name size max t fs) (cons v vs) (cons w ws) =
      let rest = deep_fields_equal ro fs vs ws in
      deep_value_equal (ro || is_unexported name) v w >>= λ same. if same then rest else ok false
  deep_fields_equal ro (Fields.field name size max t fs) vs ws = panic

-- The exported DeepEqual; `none` is an untyped nil.
unfoldable pub deep_equal : Option Val → Option Val → Result Bool
deep_equal none none = ok true
deep_equal none (some w) = ok false
deep_equal (some v) none = ok false
deep_equal (some v) (some w) = at_same_type v w (deep_value_equal false v w)
