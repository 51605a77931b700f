-- ===== src/HashTree/Refines.antt =====
-- HashTreeRoot finds the root that the item has by its capacities, for HashTree.antt.
use go_ssz.Prelude.{
  ℕ, zero, suc, ◌+◌, ◌*◌, ◌≤◌, ◌<◌, ◌≡◌, arith, true, List, [], ◌∷◌, ◌++◌, Result, ok,
  ◌>>=◌ as bind,
}
use go_ssz.Buffer.{Buf}
use go_ssz.Reflect.{Typ, Fields, Val, Vals, Text, zero_value}
use go_ssz.Factory.{Factory}
use go_ssz.Ssz.{Schema, Schemas, Item, Items, depth, depth_all}
use go_ssz.HashTree.Capped.{Caps, FieldCaps, HasRoot, FieldsHaveRoots}
use go_ssz.Represents.Factory.{choice, slice_choice, array_choice, ssz_factory-choice}
use go_ssz.Represents.Capacities.{CapRep, CapsRep, FieldsCap, CapRep-ValRep, max_capacity}
use go_ssz.Hashing.{Env}
use go_ssz.HashTree.{root_with, field_roots, num_field}
use go_ssz.HashTree.Calls.{Laws}
use go_ssz.HashTree.Leaves.{Finds, leaf-Finds, string-Finds}
use go_ssz.HashTree.Items.{EachFinds}
use go_ssz.HashTree.Arrays.{array-Finds, vector_root, vector-IsRoot}
use go_ssz.Marshal.Sequences.{root_inversion}
use go_ssz.Prelude.{Bool, true, refl}
use go_ssz.Reflect.{kind}
use go_ssz.Size.{is_root, is_basic_type}
use go_ssz.Ssz.{is_variable}
use go_ssz.HashTree.RootVectors.{roots-Finds}
use go_ssz.HashTree.Slices.{slice-Finds}
use go_ssz.HashTree.Numbers.{numbers-Finds}
use go_ssz.HashTree.Containers.{FieldsGive, keep-Gives, Metadata-Gives, container-Gives}

roots_choice : (t : Typ) (b : Bool) → is_root t ≡ true → array_choice t b ≡ Factory.roots_array
unfolding array_choice is_basic_type kind
roots_choice (Typ.array n u) b h = rw h refl
roots_choice _ b h = absurd cc

module _ (env : Env) (laws : Laws env) where
  abbrev pub FieldsFind : ℕ → Text → Fields → Vals → Schemas → Items → FieldCaps → Type 0
  FieldsFind f name fs vs ss xs cs =
      (r : Result (List Buf)) × FieldsHaveRoots env.sha env.merkleize ss cs xs r
      × FieldsGive env laws (field_roots env f (root_with env f) name (num_field env fs) fs vs) r

  struct-Finds :
      (f : ℕ) (fs : Fields) (vs : Vals) {ss : Schemas} {xs : Items} {cs : FieldCaps}
      → FieldsFind f (env.type_name fs) fs vs ss xs cs
      → (name : Text) (max : ℕ)
      → Finds env laws
          (root_with env (suc f) Factory.struct (Val.struct fs vs) (Typ.struct fs) name max)
          (Schema.container ss)
          (Caps.fields cs)
          max
          (Item.seq xs)
  unfolding root_with
  struct-Finds f fs vs (r, h, g) name max = (
    vector_root env laws r,
    HasRoot.container h,
    vector-IsRoot env laws r,
    container-Gives env laws f (root_with env f) fs vs r (num_field env fs) g,
  )

  mutual
    unfolding choice slice_choice depth root_with zero_value num_field

    pub value-Finds :
        {v : Val} {t : Typ} {s : Schema} {x : Item} {c : Caps}
        → CapRep v t s x c
        → (f : ℕ) → 8 * depth s + 4 ≤ f
        → (name : Text) (max : ℕ) → max < max_capacity
        → Finds env laws (root_with env f (choice t s) v t name max) s c max x
    value-Finds (CapRep.leaf {c = c} r e o b) f h name max l =
        rw e (leaf-Finds env laws c r e o b f h name max)
    value-Finds (CapRep.string {cs = cs} r) f h name max l =
        string-Finds env laws cs r f (omega (arith, h)) name max l
    value-Finds (CapRep.numbers e b q o rs) zero h name max l = absurd (omega (arith, h))
    value-Finds (CapRep.numbers {v = v} {t = t} {s = s} e b q o rs) (suc f) h name max l =
        rw b
          (numbers-Finds env laws f v t s e b q rs (omega (arith, h)) (omega (arith, h)) name max l)
    value-Finds (CapRep.slice e b q o rs) zero h name max l = absurd (omega (arith, h))
    value-Finds (CapRep.slice {v = v} {t = t} {s = s} e b q o rs) (suc f) h name max l =
        slice-Finds env laws f v t s e b q o rs name (items_find rs f (omega (arith, h)) name)
          (omega (arith, h)) max l
    value-Finds (CapRep.array e c p k b d q o rs) zero h name max l = absurd (omega (arith, h))
    value-Finds (CapRep.array {v = v} {t = t} {s = s} e c p k b d q o rs) (suc f) h name max l =
        array-Finds env laws f v t s e c p k b d q rs (items_find rs f (omega (arith, h)) [])
          (omega (arith, h)) name max
    value-Finds (CapRep.roots e k p b d q rs) zero h name max l = absurd (omega (arith, h))
    value-Finds (CapRep.roots {v = v} {t = t} {s = s} {c = c} e k p b d q rs) (suc f) h name max l =
        let (i, j) = root_inversion q d in
        rw (roots_choice t (is_variable s) d) (roots-Finds env laws f v c e k p b i j rs name max)
    value-Finds (CapRep.struct rs) zero h name max l = absurd (omega (arith, h))
    value-Finds (CapRep.struct {fs = fs} {vs = vs} rs) (suc f) h name max l =
        struct-Finds f fs vs (fields_find rs f (omega (arith, h)) (env.type_name fs)) name max
    value-Finds (CapRep.ptr rs) zero h name max l = absurd (omega (arith, h))
    value-Finds (CapRep.ptr rs) (suc zero) h name max l = absurd (omega (arith, h))
    value-Finds (CapRep.ptr {fs = fs} {vs = vs} rs) (suc (suc f)) h name max l =
        struct-Finds f fs vs (fields_find rs f (omega (arith, h)) (env.type_name fs)) name max
    value-Finds (CapRep.nil_ptr e rs) zero h name max l = absurd (omega (arith, h))
    value-Finds (CapRep.nil_ptr e rs) (suc zero) h name max l = absurd (omega (arith, h))
    value-Finds (CapRep.nil_ptr {fs = fs} {vs = vs} e rs) (suc (suc f)) h name max l =
        rw e
          (struct-Finds f fs vs (fields_find rs f (omega (arith, h)) (env.type_name fs)) name max)

    items_find :
        {vs : Vals} {t : Typ} {s : Schema} {xs : Items} {c : Caps}
        → CapsRep vs t s xs c
        → (f : ℕ) → 8 * depth s + 4 ≤ f
        → (name : Text)
        → EachFinds env laws (λ u. root_with env f (choice t s) u t name 0) s c vs xs
    items_find CapsRep.no_vals f h name = EachFinds.none_left
    items_find (CapsRep.each r rs) f h name =
        EachFinds.each (value-Finds r f h name 0 (omega arith)) (items_find rs f h name)

    pub fields_find :
        {fs : Fields} {vs : Vals} {ss : Schemas} {xs : Items} {cs : FieldCaps}
        → FieldsCap fs vs ss xs cs
        → (f : ℕ) → 8 * depth_all ss + 4 ≤ f
        → (name : Text) → FieldsFind f name fs vs ss xs cs
    fields_find (FieldsCap.finished m) f h struct_name = (
      ok [],
      FieldsHaveRoots.no_fields,
      Metadata-Gives env laws f (root_with env f) struct_name m,
    )
    fields_find
          (FieldsCap.keep {name = name} {size = size} {max = max} {t = t} {u = u} {fs = fs} {v = v}
            {vs = vs} {s = s} {m = m} p d k b r rs)
          f h struct_name =
        let (rs', hs, gs) = fields_find rs f (omega (arith, h)) struct_name in
        let (r', h', k', g) =
          value-Finds r f (omega (arith, h)) (struct_name ++ (b'.' ∷ name)) m b in
        (
          (bind r' λ root. bind rs' λ roots. ok (root ∷ roots)),
          FieldsHaveRoots.keep h' hs,
          keep-Gives env laws f (root_with env f) struct_name name size max t u fs v vs (choice u s)
              rs' (num_field env fs) p d k
              (ssz_factory-choice (CapRep-ValRep r) f (omega (arith, h))) g gs,
        )
