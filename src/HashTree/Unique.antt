-- ===== src/HashTree/Unique.antt =====
-- An item has one root only for its capacities, so HashTreeRoot depends on the item alone.
use go_ssz.Prelude.{ℕ, ◌≡◌, refl, ap, List, Result, ok, ◌>>=◌, length}
use go_ssz.Prelude.{◌+◌, ◌*◌, ◌≤◌, some}
use go_ssz.Buffer.{Buf}
use go_ssz.Reflect.{Typ, Val, type_of}
use go_ssz.Represents.Capacities.{CapRep}
use go_ssz.Hashing.{Env, Caches}
use go_ssz.HashTree.{hash_tree_root}
use go_ssz.HashTree.Calls.{Laws, IsSound}
use go_ssz.HashTree.Exported.{hash_tree_root-ReturnsCapped}
use go_ssz.Chunks.Cut.{chunks_unique}
use go_ssz.Ssz.{Schema, Schemas, Item, Items, is_variable, count_items, depth}
use go_ssz.HashTree.Capped.{
  Caps, FieldCaps, HasRoot, HaveRoots, FieldsHaveRoots, width, within, mixed, chunk_limit,
  text_limit, list_root,
}

module _ (sha : Buf → Buf) (merkle : ℕ → ℕ → List Buf → Buf) where
  mutual
    pub HasRoot-unique :
        {s : Schema} {c : Caps} {max : ℕ} {x : Item} {r q : Result Buf}
        → HasRoot sha merkle s c max x r
        → HasRoot sha merkle s c max x q
        → r ≡ q
    HasRoot-unique (HasRoot.packed p i) (HasRoot.packed p' i') =
        ap (λ (cs : List Buf). within sha merkle (length cs) cs) (chunks_unique i i')
    HasRoot-unique (HasRoot.packed p i) (HasRoot.vector n hs) = absurd cc
    HasRoot-unique (HasRoot.vector n hs) (HasRoot.packed p i) = absurd cc
    HasRoot-unique (HasRoot.packed p i) (HasRoot.number_list q j) = absurd cc
    HasRoot-unique (HasRoot.packed p i) (HasRoot.text j) = absurd cc
    HasRoot-unique (HasRoot.packed p i) (HasRoot.list n hs) = absurd cc
    HasRoot-unique (HasRoot.packed p i) (HasRoot.container hs) = absurd cc
    HasRoot-unique (HasRoot.number_list q j) (HasRoot.packed p i) = absurd cc
    HasRoot-unique (HasRoot.text j) (HasRoot.packed p i) = absurd cc
    HasRoot-unique (HasRoot.list n hs) (HasRoot.packed p i) = absurd cc
    HasRoot-unique (HasRoot.container hs) (HasRoot.packed p i) = absurd cc
    HasRoot-unique (HasRoot.number_list {s = s} {max = max} {xs = xs} p i)
          (HasRoot.number_list p' i') =
        ap
          (λ (cs : List Buf).
            mixed sha merkle (chunk_limit max (width s) (count_items xs)) (count_items xs) cs)
          (chunks_unique i i')
    HasRoot-unique (HasRoot.number_list p i) (HasRoot.list n hs) = absurd cc
    HasRoot-unique (HasRoot.list n hs) (HasRoot.number_list p i) = absurd cc
    HasRoot-unique (HasRoot.text {max = max} {xs = xs} i) (HasRoot.text i') =
        ap (λ (cs : List Buf). mixed sha merkle (text_limit max) (count_items xs) cs)
          (chunks_unique i i')
    HasRoot-unique (HasRoot.text i) (HasRoot.list n hs) = absurd cc
    HasRoot-unique (HasRoot.list n hs) (HasRoot.text i) = absurd cc
    HasRoot-unique (HasRoot.vector n hs) (HasRoot.vector n' hs') =
        ap (λ roots. roots >>= λ rs. within sha merkle (length rs) rs) (HaveRoots-unique hs hs')
    HasRoot-unique (HasRoot.list {s = s} {max = max} {xs = xs} n hs) (HasRoot.list n' hs') =
        ap (λ roots. roots >>= λ rs. list_root sha merkle (is_variable s) max (count_items xs) rs)
          (HaveRoots-unique hs hs')
    HasRoot-unique (HasRoot.container hs) (HasRoot.container hs') =
        ap (λ roots. roots >>= λ rs. within sha merkle (length rs) rs)
          (FieldsHaveRoots-unique hs hs')

    HaveRoots-unique :
        {s : Schema} {c : Caps} {xs : Items} {rs qs : Result (List Buf)}
        → HaveRoots sha merkle s c xs rs
        → HaveRoots sha merkle s c xs qs
        → rs ≡ qs
    HaveRoots-unique HaveRoots.no_items HaveRoots.no_items = refl
    HaveRoots-unique (HaveRoots.each h hs) (HaveRoots.each h' hs') =
        let e = HasRoot-unique h h' in let es = HaveRoots-unique hs hs' in rw (e, es) refl

    FieldsHaveRoots-unique :
        {ss : Schemas} {cs : FieldCaps} {xs : Items} {rs qs : Result (List Buf)}
        → FieldsHaveRoots sha merkle ss cs xs rs
        → FieldsHaveRoots sha merkle ss cs xs qs
        → rs ≡ qs
    FieldsHaveRoots-unique FieldsHaveRoots.no_fields FieldsHaveRoots.no_fields = refl
    FieldsHaveRoots-unique (FieldsHaveRoots.keep h hs) (FieldsHaveRoots.keep h' hs') =
        let e = HasRoot-unique h h' in let es = FieldsHaveRoots-unique hs hs' in rw (e, es) refl

-- HashTreeRoot depends on the item and its capacities alone: for two values that stand for the same
-- item with the same capacities, such as a struct and a pointer to it, or a nil pointer and a pointer to
-- zeros, the results are the same, whatever sound caches the calls start from and whatever they
-- leave. The values are those that CapRep covers, at their own types, the caches of arrays are off, and
-- the model has the fuel that the depth of the schema asks for.
pub hash_tree_root_same :
    (env : Env)
    → Laws env
    → {v u : Val} {t t' : Typ} {s : Schema} {x : Item} {c : Caps} → CapRep v t s x c
    → CapRep u t' s x c
    → type_of v ≡ ok t
    → type_of u ≡ ok t'
    → (f g : ℕ) → 8 * depth s + 4 ≤ f
    → 8 * depth s + 4 ≤ g
    → (w w' : Caches env) → IsSound env w
    → IsSound env w'
    → (hash_tree_root env f (some v) w).0 ≡ (hash_tree_root env g (some u) w').0
hash_tree_root_same env laws r r' e e' f g h h' w w' v v' =
    let (q, a, p, i, b) = hash_tree_root-ReturnsCapped env laws r e f h w v in
    let (q', a', p', i', b') = hash_tree_root-ReturnsCapped env laws r' e' g h' w' v' in
    rw (p, p') (HasRoot-unique env.sha env.merkleize i i')
