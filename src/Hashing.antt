-- ===== src/Hashing.antt =====
-- What the Root methods share: the functions of other packages that they call, the caches that they
-- keep, and calls that read and write these.
use go_ssz.Prelude.{ℕ, List, Option, some, Bool, if◌then◌else◌, Result, ok, err, panic, stuck}
use go_ssz.Buffer.{Buf}
use go_ssz.Reflect.{Text, Fields, Val}
use go_ssz.Equal.{same_text}

-- SHA-256, zssz's Merkleize and GetDepth, highwayhash.Sum under the fixed key, and the caches of
-- ristretto with Get and Set. Bitfields of go-bitfield have Len and Bytes, and `as_bitlist` is the
-- type assertion to Bitlist, a slice type, so that what it finds may be nil. `type_name` is the name of a
-- struct type, and `enable_cache` what ToggleCache last set.
pub record Env : Type 1 where
  pub sha : Buf → Buf
  pub merkleize : ℕ → ℕ → List Buf → Buf
  pub get_depth : ℕ → ℕ
  pub sum : Buf → Buf
  pub Cache : Type 0
  pub get : Cache → Buf → Option Buf
  pub set : Cache → Buf → Buf → Cache
  pub Bitfield : Type 0
  pub bit_length : Bitfield → ℕ
  pub bytes : Bitfield → Buf
  pub as_bitlist : Val → Option (Option Bitfield)
  pub is_bitvector4 : Bitfield → Bool
  pub type_name : Fields → Text
  pub enable_cache : Bool

-- A Go map with string keys
abbrev pub Table : Type 0 → Type 0
Table A = Text → Option A

unfoldable pub put {ℓ} : {A : Type ℓ} → (Text → Option A) → Text → A → Text → Option A
unfolding same_text
put table key a k = if same_text k key then some a else table k

-- The caches of basicFactory, basicArrayFactory and rootsArrayFactory, and what the last keeps by field.
pub record Caches (env : Env) : Type 0 where
  pub basic : env.Cache
  pub arrays : env.Cache
  pub roots : env.Cache
  pub cached_leaves : Table (List Buf)
  pub layers : Table (List (List Buf))

-- A call: what was written to the caches stays written when it fails.
abbrev pub Hashing : Env → Type 0 → Type 0
Hashing env A = Caches env → Result A × Caches env

module _ {env : Env} where
  abbrev pub lift : {A : Type 0} → Result A → Hashing env A
  lift r w = (r, w)

  abbrev pub done : {A : Type 0} → A → Hashing env A
  done a w = (ok a, w)

  abbrev pub caches : Hashing env (Caches env)
  caches w = (ok w, w)

  abbrev pub modify : (Caches env → Caches env) → Hashing env (Unit {0})
  modify f w = (ok tt, f w)

-- The call behind one that ended.
abbrev resume :
    {env : Env} {A B : Type 0} → Result A × Caches env → (A → Hashing env B) → Result B × Caches env
resume (ok a, w) f = f a w
resume (err e, w) f = (err e, w)
resume (panic, w) f = (panic, w)
resume (stuck, w) f = (stuck, w)

infixl 5 ◌>>=◌ ◌>>◌
abbrev pub ◌>>=◌ : {env : Env} {A B : Type 0} → Hashing env A → (A → Hashing env B) → Hashing env B
◌>>=◌ m f w = resume (m w) f

abbrev pub ◌>>◌ : {env : Env} {B : Type 0} → Hashing env (Unit {0}) → Hashing env B → Hashing env B
m >> k = m >>= λ u. k
