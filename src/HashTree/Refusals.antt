-- ===== src/HashTree/Refusals.antt =====
-- Where the roots of types/string.go, types/struct.go and ssz.go are not those that a caller expects.
use go_ssz.Prelude.{
  ℕ, zero, suc, ◌+◌, ◌*◌, ◌≤◌, ◌<◌, ◌≡◌, refl, ap, subst, ◌∙◌, arith, List, [], ◌∷◌, ◌++◌, length,
  some,
}
use go_ssz.Prelude.{
  Option, Result, ok, err, panic, over_limit, stuck, ltb, true, false, bind_ok, length-append,
  append_assoc, ◌>>=◌ as bind,
}
use go_ssz.Buffer.{Buf}
use go_ssz.Reflect.{Typ, Fields, Val, Vals, Text, type_of, bytes_as_vals}
use go_ssz.Tags.{has_prefix, xxx}
use go_ssz.Factory.{ssz_factory}
use go_ssz.Chunks.{bitwise_merkleize, item_limit}
use go_ssz.Chunks.Cut.{padding, length_bytes}
use go_ssz.Roots.{string_limit}
use go_ssz.Roots.Strings.{string_root_chunks}
use go_ssz.Ssz.{Schema, Schemas, Items, depth_all}
use go_ssz.HashTree.Capped.{FieldCaps, FieldsHaveRoots}
use go_ssz.Ssz.Tree.{LimitList, FieldTreeRoots}
use go_ssz.HashTree.Limits.{TakesFields}
use go_ssz.HashTree.Specified.{FieldsHaveRoots-FieldTreeRoots, length-InChunks}
use go_ssz.Represents.{ValsRep, byte_typ, byte_schema}
use go_ssz.Represents.Capacities.{FieldsCap, Metadata}
use go_ssz.Hashing.{Env, Caches}
use go_ssz.HashTree.{
  hash_tree_root, root_at, root_with, signing_root, signing_fields, all_but_one, field_roots,
  num_field,
}
use go_ssz.HashTree.Calls.{Laws, IsSound}
use go_ssz.HashTree.Containers.{field_list, without, top, without-Gives, hasher-Gives}
use go_ssz.HashTree.Refines.{fields_find}
use go_ssz.HashTree.Signing.{Signs, count-Metadata}

module _ (env : Env) where
  -- HashTreeRoot of a string of bytes that is longer than a chunk is the error for exceeding the limit,
  -- since a string without a capacity gets a limit of one chunk. The caches stay as they are.
  pub hash_tree_root-string :
      (cs : Text) {xs : Items}
      → ValsRep (bytes_as_vals cs) byte_typ byte_schema xs
      → 32 < length cs
      → (f : ℕ) → 1 ≤ f
      → (w : Caches env) → hash_tree_root env f (some (Val.str cs)) w ≡ (err over_limit, w)
  unfolding hash_tree_root root_at root_with type_of ssz_factory string_limit item_limit
  hash_tree_root-string cs r l zero h w = absurd (omega arith)
  hash_tree_root-string cs r l (suc f) h w =
      let (chunks, i, e) = string_root_chunks env.sha env.merkleize cs r 0 in
      let n : ltb 1 (length chunks) ≡ true =
        ground (arith, length-InChunks i, l, length_bytes cs (padding (length cs))) in
      rw (e, n) refl

  -- SigningRoot of a struct, or of a pointer to one, that has protobuf metadata only panics.
  pub signing_root-Metadata :
      {fs : Fields} {vs : Vals} {v : Val}
      → Signs env fs vs v
      → Metadata fs vs
      → (f : ℕ) (w : Caches env) → signing_root env f (some v) w ≡ (panic, w)
  unfolding signing_root signing_fields all_but_one
  signing_root-Metadata Signs.value m f w = rw (count-Metadata m) refl
  signing_root-Metadata Signs.pointer m f w = rw (count-Metadata m) refl

  abbrev pub all_but_last : List Buf → List Buf
  all_but_last [] = []
  all_but_last (root ∷ []) = []
  all_but_last (root ∷ next ∷ roots) = root ∷ all_but_last (next ∷ roots)

  split_last :
      (roots : List Buf)
      → 0 < length roots
      → (last : Buf) × (roots ≡ all_but_last roots ++ (last ∷ []))
  split_last [] h = absurd (omega arith)
  split_last (root ∷ []) h = (root, refl)
  split_last (root ∷ next ∷ roots) h =
      let (last, e) = split_last (next ∷ roots) (omega arith) in
      (last, ap (λ (l : List Buf). root ∷ l) e)

  some_roots :
      {s : Schema} {ss : Schemas} {cs : FieldCaps} {xs : Items} {r : Result (List Buf)}
      → FieldsHaveRoots env.sha env.merkleize (Schemas.cons s ss) cs xs r
      → (roots : List Buf) → r ≡ ok roots
      → 0 < length roots
  some_roots (FieldsHaveRoots.keep {r = r} {roots = rs} h hs) roots e =
      let (a, p, q) = bind_ok r (λ root. bind rs λ roots. ok (root ∷ roots)) e in
      let (as', p', q') = bind_ok rs (λ roots. ok (a ∷ roots)) q in
      let t : roots ≡ a ∷ as' = cc in rw t (omega arith)

  count_lem :
      (laws : Laws env)
      → (roots es : List Buf) → 0 < length roots
      → env.merkleize (length roots) (length roots) ([] ∷ (roots ++ es))
        ≡ env.merkleize (length roots) (length roots) ([] ∷ all_but_last roots)
  count_lem laws roots es h =
      let (last, e) = split_last roots h in
      let n : length ([] ∷ all_but_last roots) ≡ length roots = omega (
        arith,
        ap (λ (l : List Buf). length l) e,
        length-append (all_but_last roots) (last ∷ []),
      ) in
      let t : [] ∷ (roots ++ es) ≡ ([] ∷ all_but_last roots) ++ ((last ∷ []) ++ es) =
        ap (λ (l : List Buf). [] ∷ l)
          (ap (λ (l : List Buf). l ++ es) e ∙ append_assoc (all_but_last roots) (last ∷ []) es) in
      ap (λ (l : List Buf). env.merkleize (length roots) (length roots) l) t
      ∙ subst
          (λ (k : ℕ).
            env.merkleize k (length roots) (([] ∷ all_but_last roots) ++ ((last ∷ []) ++ es))
            ≡ env.merkleize k (length roots) ([] ∷ all_but_last roots))
          n (laws.first_leaves (length roots) ([] ∷ all_but_last roots) ((last ∷ []) ++ es))

  -- What FieldsHasher makes of the roots behind a field of metadata
  lead_lem :
      (laws : Laws env)
      → (r : Result (List Buf)) (es : List Buf)
      → ((roots : List Buf) → r ≡ ok roots → 0 < length roots)
      → bind (bind (field_list env laws r es) (without env laws)) (top env laws)
        ≡ bind r λ roots. ok (env.merkleize (length roots) (length roots) ([] ∷ all_but_last roots))
  unfolding top bitwise_merkleize
  lead_lem laws (ok roots) es h =
      let b : ltb (length roots) (length roots) ≡ false = ground arith in
      rw b (ap ok (count_lem laws roots es (h roots refl)))
  lead_lem laws (err x) es h = refl
  lead_lem laws panic es h = refl
  lead_lem laws stuck es h = refl

  -- HashTreeRoot of a struct that has protobuf metadata in front of its other fields, of which there is one:
  -- Merkleize is called on an empty leaf in the place of the metadata and the roots of the
  -- fields but for the last, which the result does not depend on. The roots are those of the SSZ
  -- specification, for the limits that the program takes, which TakesFields describes. The fields
  -- behind the metadata are those that FieldsCap covers, the caches are sound, those of arrays are
  -- off, and the model has the fuel that the depth of the schema asks for.
  pub hash_tree_root-metadata :
      Laws env
      → (name : Text) (size max : Option Text) (t : Typ) (v : Val) → has_prefix name xxx ≡ true
      → {fs : Fields} {vs : Vals} {s : Schema} {ss : Schemas} {xs : Items} {cs : FieldCaps}
      → FieldsCap fs vs (Schemas.cons s ss) xs cs
      → {ls : LimitList} → TakesFields (Schemas.cons s ss) cs xs ls
      → (f : ℕ) → 8 * depth_all (Schemas.cons s ss) + 5 ≤ f
      → (w : Caches env) → IsSound env w
      → (r : Result (List Buf)) × (w' : Caches env) × FieldTreeRoots env.sha env.merkleize
          (Schemas.cons s ss)
          ls
          xs
          r
        × (hash_tree_root env f
              (some (Val.struct (Fields.field name size max t fs) (Vals.cons v vs)))
              w
            ≡ (
              bind r λ roots.
                  ok (env.merkleize (length roots) (length roots) ([] ∷ all_but_last roots)),
              w',
            ))
  unfolding hash_tree_root root_at root_with type_of ssz_factory field_roots num_field
  hash_tree_root-metadata laws name size max t v p rs ts zero h w s = absurd (omega arith)
  hash_tree_root-metadata laws name size max t v p {fs} {vs} rs ts (suc f) h w sound =
      let struct_name = env.type_name (Fields.field name size max t fs) in
      let (r, hs, (es, g)) = fields_find env laws rs f (omega (arith, h)) struct_name in
      let rest =
        without-Gives env laws
          (field_roots env f (root_with env f) struct_name (num_field env fs) fs vs)
          (field_list env laws r es) g in
      let (w', e, sound') =
        hasher-Gives env laws f (root_with env f) (Fields.field name size max t fs) (Vals.cons v vs)
          (bind (field_list env laws r es) (without env laws)) (suc (num_field env fs)) (rw p rest)
          w sound in
      (
        r,
        w',
        FieldsHaveRoots-FieldTreeRoots env.sha env.merkleize hs ts,
        e ∙ ap (λ (q : Result Buf). (q, w')) (lead_lem laws r es (some_roots hs)),
      )
