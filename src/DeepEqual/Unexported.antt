-- ===== src/DeepEqual/Unexported.antt =====
-- DeepEqual of structs with unexported fields, which the comment above it says are compared.
use go_ssz.Prelude.{ℕ, ◌≡◌, true, Bool}
use go_ssz.Reflect.{Scalar, Typ, Val}
use go_ssz.DeepEqual.{is_compared}

-- What is reached through pointers from an unexported field
pub data Below : Typ → Val → Val → Type 0 where
  number :
      (k : Scalar) (n m : ℕ)
      → is_compared k ≡ true
      → Below (Typ.scalar k) (Val.num k n) (Val.num k m)
  boolean : (a b : Bool) → Below (Typ.scalar Scalar.bool) (Val.bool a) (Val.bool b)
  ptr : {t : Typ} {v w : Val} → Below t v w → Below (Typ.ptr t) (Val.ptr v) (Val.ptr w)
