-- ===== src/Prelude/Outcome.antt =====
-- What a Go call ends in: a value, a returned error, or a run-time panic.
use mathlib.Core.Path.{◌≡◌, refl}
use mathlib.Core.Option.{Option, none, some}

-- The errors that the code returns; their texts are left out.
pub data Error : Type 0 where
  tag_syntax : Error
  tag_range : Error
  unsupported_kind : Error
  not_serializable : Error
  not_a_root : Error
  untyped_nil : Error
  over_limit : Error
  past_end : Error
  not_a_bool : Error
  no_input : Error
  not_a_pointer : Error
  nil_target : Error
  wrong_length : Error
  not_a_slice : Error
  nil_value : Error

-- `stuck` is no outcome of the program: the recursion of the model ran out of fuel.
pub data Result {ℓ} (A : Type ℓ) : Type ℓ where
  ok : A → Result A
  err : Error → Result A
  panic : Result A
  stuck : Result A

infixl 5 ◌>>=◌
abbrev pub ◌>>=◌ {ℓ κ} : {A : Type ℓ} {B : Type κ} → Result A → (A → Result B) → Result B
ok a >>= f = f a
err e >>= f = err e
panic >>= f = panic
stuck >>= f = stuck

-- `list[i]` of what is found at the index, if anything is
abbrev pub found {ℓ} : {A : Type ℓ} → Option A → Result A
found none = panic
found (some a) = ok a

-- A chain of calls that succeeds, cut behind the first.
pub bind_ok {ℓ κ} :
    {A : Type ℓ} {B : Type κ} (m : Result A) (k : A → Result B) {b : B}
    → (m >>= k) ≡ ok b
    → (a : A) × (m ≡ ok a) × (k a ≡ ok b)
bind_ok (ok a) k e = (a, refl, e)
bind_ok (err x) k e = cc
bind_ok panic k e = cc
bind_ok stuck k e = cc
