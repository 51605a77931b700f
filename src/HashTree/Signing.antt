-- ===== src/HashTree/Signing.antt =====
-- SigningRoot of ssz.go returns the root of a container without its last field.
use go_ssz.Prelude.{
  ℕ, zero, suc, ◌+◌, ◌*◌, ◌≤◌, ◌≡◌, refl, ap, arith, List, [], ◌∷◌, ◌++◌, some, Result, ok,
  ◌>>=◌ as bind,
}
use go_ssz.Buffer.{Buf}
use go_ssz.Reflect.{Fields, Val, Vals, Text}
use go_ssz.Unmarshal.{count_fields}
use go_ssz.Ssz.{Schema, Schemas, Item, Items, depth, depth_all}
use go_ssz.HashTree.Capped.{
  Caps, FieldCaps, HasRoot, FieldsHaveRoots, but_last, but_last_item, but_last_caps,
}
use go_ssz.Represents.Factory.{choice, ssz_factory-choice}
use go_ssz.Represents.Capacities.{FieldsCap, Metadata, CapRep-ValRep, is_metadata-has_prefix}
use go_ssz.Hashing.{Env, Caches}
use go_ssz.HashTree.{root_with, field_roots, signing_fields, signing_root, all_but_one}
use go_ssz.HashTree.Calls.{Laws, IsSound, lift-Gives}
use go_ssz.HashTree.Leaves.{Finds}
use go_ssz.Ssz.Tree.{Limits}
use go_ssz.HashTree.Limits.{Takes}
use go_ssz.HashTree.Arrays.{vector_root, vector-IsRoot}
use go_ssz.HashTree.Containers.{FieldsGive, keep-Gives, container-Gives}
use go_ssz.HashTree.Refines.{value-Finds}
use go_ssz.HashTree.Exported.{ReturnsCapped, Finds-ReturnsCapped, ReturnsRoot, Takes-ReturnsRoot}

abbrev count_schemas : Schemas → ℕ
count_schemas Schemas.nil = 0
count_schemas (Schemas.cons s ss) = suc (count_schemas ss)

pub count-Metadata : {fs : Fields} {vs : Vals} → Metadata fs vs → count_fields fs ≡ 0
unfolding count_fields
count-Metadata Metadata.no_more = refl
count-Metadata (Metadata.more {name = name} h m) =
    rw (is_metadata-has_prefix name h) (count-Metadata m)

count_fields-FieldsCap :
    {fs : Fields} {vs : Vals} {ss : Schemas} {xs : Items} {cs : FieldCaps}
    → FieldsCap fs vs ss xs cs
    → count_fields fs ≡ count_schemas ss
unfolding count_fields
count_fields-FieldsCap (FieldsCap.finished m) = count-Metadata m
count_fields-FieldsCap (FieldsCap.keep p d k b r rs) = rw p (ap suc (count_fields-FieldsCap rs))

module _ (env : Env) where
  -- The fields of a container but for the last, which is there
  abbrev FrontFinds : Laws env → ℕ → Text → ℕ → Fields → Vals → Schemas → Items → FieldCaps → Type 0
  FrontFinds laws f name n fs vs ss xs cs =
      (r : Result (List Buf)) × FieldsHaveRoots env.sha env.merkleize (but_last ss)
        (but_last_caps cs) (but_last_item xs) r
      × FieldsGive env laws (field_roots env f (root_with env f) name n fs vs) r

  front_find :
      (laws : Laws env)
      → {fs : Fields} {vs : Vals} {ss : Schemas} {xs : Items} {cs : FieldCaps}
      → FieldsCap fs vs ss xs cs
      → (n : ℕ) → count_schemas ss ≡ suc n
      → (f : ℕ) → 8 * depth_all ss + 4 ≤ f
      → (name : Text) → FrontFinds laws f name n fs vs ss xs cs
  unfolding depth field_roots
  front_find laws (FieldsCap.finished m) n e f h struct_name = absurd (omega (arith, e))
  front_find laws (FieldsCap.keep p d k b r (FieldsCap.finished m)) zero e f h struct_name =
      (ok [], FieldsHaveRoots.no_fields, ([], lift-Gives env (ok (some ([], 0)))))
  front_find laws (FieldsCap.keep p d k b r (FieldsCap.finished m)) (suc n) e f h struct_name =
      absurd (omega (arith, e))
  front_find laws (FieldsCap.keep p d k b r (FieldsCap.keep p' d' k' b' r' rs)) zero e f h
        struct_name =
      absurd (omega (arith, e))
  front_find laws
        (FieldsCap.keep {name = name} {size = size} {max = max} {t = t} {u = u} {fs = fs} {v = v}
          {vs = vs} {s = s} {m = m} p d k b r
          (FieldsCap.keep p' d' k' l r' rs))
        (suc n) e f h struct_name =
      let (rs', hs, gs) =
        front_find laws (FieldsCap.keep p' d' k' l r' rs) n (omega (arith, e)) f (omega (arith, h))
          struct_name in
      let (q, i, j, g) =
        value-Finds env laws r f (omega (arith, h)) (struct_name ++ (b'.' ∷ name)) m b in
      (
        (bind q λ root. bind rs' λ roots. ok (root ∷ roots)),
        FieldsHaveRoots.keep i hs,
        keep-Gives env laws f (root_with env f) struct_name name size max t u fs v vs (choice u s)
            rs' n p d k (ssz_factory-choice (CapRep-ValRep r) f (omega (arith, h))) g gs,
      )

  -- What SigningRoot takes: a struct, or a pointer to one
  pub data Signs (fs : Fields) (vs : Vals) : Val → Type 0 where
    value : Signs fs vs (Val.struct fs vs)
    pointer : Signs fs vs (Val.ptr (Val.struct fs vs))

  signing_fields-Finds :
      (laws : Laws env)
      → {fs : Fields} {vs : Vals} {ss : Schemas} {xs : Items} {cs : FieldCaps}
      → FieldsCap fs vs ss xs cs
      → (n : ℕ) → count_schemas ss ≡ suc n
      → (f : ℕ) → 8 * depth_all ss + 4 ≤ f
      → (max : ℕ)
      → Finds env laws
          (signing_fields env f (Val.struct fs vs))
          (Schema.container (but_last ss))
          (Caps.fields (but_last_caps cs))
          max
          (Item.seq (but_last_item xs))
  unfolding signing_fields all_but_one
  signing_fields-Finds laws {fs} {vs} rs n e f h max =
      let (r, hs, gs) = front_find laws rs n e f h (env.type_name fs) in
      (
        vector_root env laws r,
        HasRoot.container hs,
        vector-IsRoot env laws r,
        rw (count_fields-FieldsCap rs, e)
            (container-Gives env laws f (root_with env f) fs vs r n gs),
      )

  signing_root-ReturnsCapped :
      Laws env
      → {fs : Fields} {vs : Vals} {v : Val} → Signs fs vs v
      → {s : Schema} {ss : Schemas} {xs : Items} {cs : FieldCaps}
      → FieldsCap fs vs (Schemas.cons s ss) xs cs
      → (f : ℕ) → 8 * depth_all (Schemas.cons s ss) + 4 ≤ f
      → (w : Caches env) → IsSound env w
      → ReturnsCapped env
          (signing_root env f (some v) w)
          (Schema.container (but_last (Schemas.cons s ss)))
          (Caps.fields (but_last_caps cs))
          0
          (Item.seq (but_last_item xs))
  unfolding signing_root
  signing_root-ReturnsCapped laws Signs.value {s} {ss} rs f h =
      Finds-ReturnsCapped env laws _ (signing_fields-Finds laws rs (count_schemas ss) refl f h 0)
  signing_root-ReturnsCapped laws Signs.pointer {s} {ss} rs f h =
      Finds-ReturnsCapped env laws _ (signing_fields-Finds laws rs (count_schemas ss) refl f h 0)

  -- SigningRoot of a struct, or of a pointer to one, that stands for a container and has a field that is
  -- no metadata: from any caches in which every entry for a basic value is the root of its key, it
  -- returns what the SSZ specification has as the hash tree root of the container without its last
  -- field, for the limits that the program takes, which Takes describes, and with the length of every list
  -- mixed in as a uint256. It leaves such caches behind. The values are those that CapRep covers, the
  -- caches of arrays are off, and the model has the fuel that the depth of the schema asks for.
  pub signing_root-ReturnsRoot :
      Laws env
      → {fs : Fields} {vs : Vals} {v : Val} → Signs fs vs v
      → {s : Schema} {ss : Schemas} {xs : Items} {cs : FieldCaps}
      → FieldsCap fs vs (Schemas.cons s ss) xs cs
      → {l : Limits}
      → Takes
          (Schema.container (but_last (Schemas.cons s ss)))
          (Caps.fields (but_last_caps cs))
          0
          (Item.seq (but_last_item xs))
          l
      → (f : ℕ) → 8 * depth_all (Schemas.cons s ss) + 4 ≤ f
      → (w : Caches env) → IsSound env w
      → ReturnsRoot env
          (signing_root env f (some v) w)
          (Schema.container (but_last (Schemas.cons s ss)))
          l
          (Item.seq (but_last_item xs))
  signing_root-ReturnsRoot laws sg rs k f h w v =
      Takes-ReturnsRoot env k (signing_root-ReturnsCapped laws sg rs f h w v)
