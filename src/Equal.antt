-- ===== src/Equal.antt =====
-- Comparison of types: `==` on reflect.Type. Types are the same when they are built alike, with
-- equal field names and tags.
use go_ssz.Prelude.{ℕ, Bool, true, false, ◌&&◌, ◌==◌, [], ◌∷◌, Option, none, some, ◌≡◌, refl, arith}
use go_ssz.Reflect.{Scalar, Text, Typ, Fields}

abbrev scalar_code : Scalar → ℕ
scalar_code Scalar.bool = 0
scalar_code Scalar.int = 1
scalar_code Scalar.int8 = 2
scalar_code Scalar.int16 = 3
scalar_code Scalar.int32 = 4
scalar_code Scalar.int64 = 5
scalar_code Scalar.uint = 6
scalar_code Scalar.uint8 = 7
scalar_code Scalar.uint16 = 8
scalar_code Scalar.uint32 = 9
scalar_code Scalar.uint64 = 10
scalar_code Scalar.uintptr = 11
scalar_code Scalar.float = 12

unfoldable pub same_text : Text → Text → Bool
same_text [] [] = true
same_text (c ∷ cs) (d ∷ ds) = c == d && same_text cs ds
same_text _ _ = false

unfoldable pub same_tag : Option Text → Option Text → Bool
unfolding same_text
same_tag none none = true
same_tag (some a) (some b) = same_text a b
same_tag _ _ = false

unfoldable mutual
  unfolding same_text same_tag

  pub same_type : Typ → Typ → Bool
  same_type (Typ.scalar a) (Typ.scalar b) = scalar_code a == scalar_code b
  same_type Typ.string Typ.string = true
  same_type (Typ.slice t) (Typ.slice u) = same_type t u
  same_type (Typ.array n t) (Typ.array m u) = n == m && same_type t u
  same_type (Typ.struct fs) (Typ.struct gs) = same_fields fs gs
  same_type (Typ.ptr t) (Typ.ptr u) = same_type t u
  same_type (Typ.other n) (Typ.other m) = n == m
  same_type _ _ = false

  pub same_fields : Fields → Fields → Bool
  same_fields Fields.end Fields.end = true
  same_fields (Fields.field name size max t fs) (Fields.field name' size' max' t' gs) =
      same_text name name'
      && same_tag size size'
      && same_tag max max'
      && same_type t t'
      && same_fields fs gs
  same_fields _ _ = false

eqb_refl : (n : ℕ) → (n == n) ≡ true
eqb_refl n = ground arith

pub same_text_refl : (s : Text) → same_text s s ≡ true
unfolding same_text
same_text_refl [] = refl
same_text_refl (c ∷ cs) = rw (eqb_refl c) (same_text_refl cs)

same_tag_refl : (s : Option Text) → same_tag s s ≡ true
unfolding same_tag
same_tag_refl none = refl
same_tag_refl (some s) = same_text_refl s

mutual
  unfolding same_type

  pub same_type_refl : (t : Typ) → same_type t t ≡ true
  same_type_refl (Typ.scalar k) = eqb_refl (scalar_code k)
  same_type_refl Typ.string = refl
  same_type_refl (Typ.slice t) = same_type_refl t
  same_type_refl (Typ.array n t) = rw (eqb_refl n) (same_type_refl t)
  same_type_refl (Typ.struct fs) = same_fields_refl fs
  same_type_refl (Typ.ptr t) = same_type_refl t
  same_type_refl (Typ.other n) = eqb_refl n

  pub same_fields_refl : (fs : Fields) → same_fields fs fs ≡ true
  same_fields_refl Fields.end = refl
  same_fields_refl (Fields.field name size max t fs) =
      rw (same_text_refl name, same_tag_refl size, same_tag_refl max, same_type_refl t)
        (same_fields_refl fs)
