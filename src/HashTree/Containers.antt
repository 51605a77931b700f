-- ===== src/HashTree/Containers.antt =====
-- FieldsHasher of a struct, for HashTree.antt.
use go_ssz.Prelude.{ℕ, suc, ◌≡◌, refl, subst, arith, List, [], ◌∷◌, ◌++◌, length}
use go_ssz.Prelude.{
  Result, ok, err, panic, stuck, false, ltb, replicate, Option, none, some, ◌>>=◌ as bind,
}
use go_ssz.Buffer.{Buf}
use go_ssz.Reflect.{Typ, Fields, Val, Vals, Text, field_vals}
use go_ssz.Tags.{
  has_prefix, contains, is_metadata, xxx, determine_field_type, determine_field_capacity,
}
use go_ssz.Factory.{Factory, ssz_factory}
use go_ssz.Chunks.{bitwise_merkleize}
use go_ssz.Represents.Capacities.{Metadata}
use go_ssz.Hashing.{Env, Hashing, lift, done, ◌>>=◌}
use go_ssz.SequenceRoots.{Hasher}
use go_ssz.HashTree.{
  FieldRoots, with_root, without_root, field_root, field_roots, fields_hasher, num_field,
}
use go_ssz.HashTree.Calls.{Laws, Gives, lift-Gives, bind-Gives}
use go_ssz.HashTree.Arrays.{vector_root}

no_prefix : (name : Text) → is_metadata name ≡ false → has_prefix name xxx ≡ false
unfolding is_metadata contains
no_prefix [] h = h
no_prefix (c ∷ cs) h = ground (arith, h)

module _ (env : Env) (laws : Laws env) where
  -- The roots of the fields, with empty ones for the metadata behind them, which are not counted.
  abbrev pub field_list : Result (List Buf) → List Buf → Result (FieldRoots env)
  field_list r es = bind r λ roots. ok (some (roots ++ es, length roots))

  abbrev pub FieldsGive : Hashing env (FieldRoots env) → Result (List Buf) → Type 0
  FieldsGive m r = (es : List Buf) × Gives env m (field_list r es)

  abbrev extended : Buf → FieldRoots env → Result (FieldRoots env)
  extended root none = ok none
  extended root (some (roots, n)) = ok (some (root ∷ roots, suc n))

  extended-Gives :
      (root : Buf) (found : FieldRoots env)
      → Gives env
          (elim found [
            | none ↦ done {env = env} none
            | some (roots, n) ↦ done (some (root ∷ roots, suc n))
          ])
          (extended root found)
  extended-Gives root none = lift-Gives env (ok none)
  extended-Gives root (some (roots, n)) = lift-Gives env (ok (some (root ∷ roots, suc n)))

  extend_lem :
      (r : Result Buf) (rs : Result (List Buf)) (es : List Buf)
      → bind r (λ root. bind (field_list rs es) λ found. extended root found)
        ≡ field_list (bind r λ root. bind rs λ roots. ok (root ∷ roots)) es
  extend_lem (ok root) (ok roots) es = refl
  extend_lem (ok root) (err e) es = refl
  extend_lem (ok root) panic es = refl
  extend_lem (ok root) stuck es = refl
  extend_lem (err e) rs es = refl
  extend_lem panic rs es = refl
  extend_lem stuck rs es = refl

  hashed-Gives :
      (m : Hashing env Buf) (rest : Hashing env (FieldRoots env)) {r : Result Buf}
      (rs : Result (List Buf)) (es : List Buf)
      → Gives env m r
      → Gives env rest (field_list rs es)
      → Gives env
          (m >>= λ root. with_root env root rest)
          (field_list (bind r λ root. bind rs λ roots. ok (root ∷ roots)) es)
  unfolding with_root
  hashed-Gives m rest {r} rs es g gs =
      subst (λ (q : Result (FieldRoots env)). Gives env (m >>= λ root. with_root env root rest) q)
        (extend_lem r rs es)
        (bind-Gives env g λ root h. bind-Gives env gs λ found h'. extended-Gives root found)

  -- A field whose root the factory finds
  pub keep-Gives :
      (f : ℕ) (run : Factory → Hasher env) (struct_name name : Text) (size max : Option Text)
      (t u : Typ) (fs : Fields) (v : Val) (vs : Vals) (g : Factory) {m : ℕ} {r : Result Buf}
      (rs : Result (List Buf)) (n : ℕ)
      → is_metadata name ≡ false
      → determine_field_type size t ≡ ok u
      → determine_field_capacity max ≡ m
      → ssz_factory f v u ≡ ok g
      → Gives env (run g v u (struct_name ++ (b'.' ∷ name)) m) r
      → FieldsGive (field_roots env f run struct_name n fs vs) rs
      → FieldsGive
          (field_roots env f run struct_name
            (suc n)
            (Fields.field name size max t fs)
            (Vals.cons v vs))
          (bind r λ root. bind rs λ roots. ok (root ∷ roots))
  unfolding field_roots field_root
  keep-Gives f run struct_name name size max t u fs v vs g {m} {r} rs n p d k e gr (es, gs) = (
    es,
    rw (no_prefix name p, laws.no_bitlist v, d, k, e)
        (hashed-Gives (run g v u (struct_name ++ (b'.' ∷ name)) m)
          (field_roots env f run struct_name n fs vs) rs es gr gs),
  )

  abbrev pub without : FieldRoots env → Result (FieldRoots env)
  without none = ok none
  without (some (roots, n)) = ok (some ([] ∷ roots, n))

  without_one :
      (found : FieldRoots env)
      → Gives env
          (elim found [
            | none ↦ done {env = env} none
            | some (roots, n) ↦ done (some ([] ∷ roots, n))
          ])
          (without found)
  without_one none = lift-Gives env (ok none)
  without_one (some (roots, n)) = lift-Gives env (ok (some ([] ∷ roots, n)))

  pub without-Gives :
      (m : Hashing env (FieldRoots env)) (r : Result (FieldRoots env))
      → Gives env m r
      → Gives env (without_root env m) (bind r without)
  unfolding without_root
  without-Gives m r g = bind-Gives env g λ found h. without_one found

  -- What is behind the last field has no roots.
  pub Metadata-Gives :
      (f : ℕ) (run : Factory → Hasher env) (struct_name : Text) {fs : Fields} {vs : Vals}
      → Metadata fs vs
      → (es : List Buf) × Gives env
          (field_roots env f run struct_name (num_field env fs) fs vs)
          (ok (some (es, 0)))
  unfolding field_roots num_field
  Metadata-Gives f run struct_name Metadata.no_more = ([], lift-Gives env (ok (some ([], 0))))
  Metadata-Gives f run struct_name (Metadata.more h m) =
      let (es, g) = Metadata-Gives f run struct_name m in
      ([] ∷ es, rw h (without-Gives _ (ok (some (es, 0))) g))

  unfoldable pub top : FieldRoots env → Result Buf
  unfolding bitwise_merkleize
  top none = ok (replicate 32 0)
  top (some (roots, n)) = bitwise_merkleize env.sha env.merkleize roots n n

  top-Gives :
      (found : FieldRoots env)
      → Gives env
          (elim found [
            | none ↦ done {env = env} (replicate 32 0)
            | some (roots, n) ↦ lift (bitwise_merkleize env.sha env.merkleize roots n n)
          ])
          (top found)
  unfolding top
  top-Gives none = lift-Gives env (ok (replicate 32 0))
  top-Gives (some (roots, n)) = lift-Gives env (bitwise_merkleize env.sha env.merkleize roots n n)

  top_lem :
      (r : Result (List Buf)) (es : List Buf) → bind (field_list r es) top ≡ vector_root env laws r
  unfolding bitwise_merkleize top
  top_lem (ok roots) es =
      let h : ltb (length roots) (length roots) ≡ false = ground arith in
      rw (h, laws.first_leaves (length roots) roots es) refl
  top_lem (err e) es = refl
  top_lem panic es = refl
  top_lem stuck es = refl

  -- FieldsHasher, where the roots of the fields are found
  pub hasher-Gives :
      (f : ℕ) (run : Factory → Hasher env) (fs : Fields) (vs : Vals) (r : Result (FieldRoots env))
      (n : ℕ)
      → Gives env (field_roots env f run (env.type_name fs) n fs vs) r
      → Gives env (fields_hasher env f run (Val.struct fs vs) fs n) (bind r top)
  unfolding fields_hasher field_vals
  hasher-Gives f run fs vs r n g = bind-Gives env g λ found h. top-Gives found

  pub container-Gives :
      (f : ℕ) (run : Factory → Hasher env) (fs : Fields) (vs : Vals) (r : Result (List Buf)) (n : ℕ)
      → FieldsGive (field_roots env f run (env.type_name fs) n fs vs) r
      → Gives env (fields_hasher env f run (Val.struct fs vs) fs n) (vector_root env laws r)
  container-Gives f run fs vs r n (es, g) =
      let both = hasher-Gives f run fs vs (field_list r es) n g in rw (top_lem r es) at both
