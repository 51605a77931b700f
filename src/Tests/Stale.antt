-- ===== src/Tests/Stale.antt =====
-- Two calls for a field whose leaves are kept, at concrete roots.
use go_ssz.Prelude.{ℕ, ◌≡◌, refl, [], ◌∷◌, ◌++◌, some, ok, true, replicate}
use go_ssz.Buffer.{Buf}
use go_ssz.Reflect.{Scalar, Typ, Val, Vals, Text, repeat_val, items}
use go_ssz.Equal.{same_text}
use go_ssz.Marshal.{to_bytes32, root_bytes, bytes_of}
use go_ssz.Represents.{byte_typ}
use go_ssz.Layers.{set_elem, pair_layer}
use go_ssz.Layers.Recompute.{Layered}
use go_ssz.Prelude.{arith, List}
use go_ssz.Hashing.{Env, Caches}
use go_ssz.RootArrays.{roots_array_root, scan_leaves, is_changed}
use go_ssz.HashTree.Stale.{FourRoots, Kept, roots_array_root-recomputed, roots_array_root-Layered}
use go_ssz.Tests.HashTree.{env}

abbrev cached_env : Env
cached_env = record env { enable_cache = true }

abbrev root : ℕ → Buf
root n = replicate 32 n

abbrev root_val : ℕ → Val
root_val n = Val.array byte_typ (repeat_val 32 (Val.num Scalar.uint8 n))

abbrev four_vals : ℕ → ℕ → ℕ → ℕ → Val
four_vals a b c d = Val.array (Typ.array 32 byte_typ) (
    Vals.cons (root_val a)
      (Vals.cons (root_val b) (Vals.cons (root_val c) (Vals.cons (root_val d) Vals.nil))))

first_val : FourRoots (four_vals 5 2 3 4) (root 5) (root 2) (root 3) (root 4)
unfolding root_bytes bytes_of
first_val = FourRoots.four refl refl refl refl

second_val : FourRoots (four_vals 1 2 6 4) (root 1) (root 2) (root 6) (root 4)
unfolding root_bytes bytes_of
second_val = FourRoots.four refl refl refl refl

abbrev pair : Buf → Buf → Buf
pair a b = to_bytes32 (a ++ b)

abbrev kept_caches : Caches cached_env
kept_caches = record {
  basic = 0;
  arrays = 0;
  roots = 0;
  cached_leaves = λ name. some (root 1 ∷ root 2 ∷ root 3 ∷ root 4 ∷ []);
  layers = λ name. some (
      (root 1 ∷ root 2 ∷ root 3 ∷ root 4 ∷ [])
      ∷ (pair (root 1) (root 2) ∷ pair (root 3) (root 4) ∷ [])
      ∷ (pair (pair (root 1) (root 2)) (pair (root 3) (root 4)) ∷ [])
      ∷ []);
}

abbrev field_name : Text
field_name = b'F' ∷ []

roots_array_root-recomputed_example :
    (w' w'' : Caches cached_env) × (roots_array_root cached_env
        (four_vals 5 2 3 4)
        field_name
        kept_caches
      ≡ (ok (to_bytes32 (pair (pair (root 5) (root 2)) (pair (root 3) (root 4)))), w'))
    × (roots_array_root cached_env (four_vals 1 2 6 4) field_name w'
        ≡ (ok (to_bytes32 (pair (pair (root 5) (root 2)) (pair (root 6) (root 4)))), w''))
unfolding same_text
roots_array_root-recomputed_example =
    roots_array_root-recomputed cached_env first_val second_val refl refl refl field_name refl
      kept_caches (refl, refl)

kept_layered : Layered to_bytes32 (pair (pair (root 1) (root 2)) (pair (root 3) (root 4))) (
    (root 1 ∷ root 2 ∷ root 3 ∷ root 4 ∷ [])
    ∷ (pair (root 1) (root 2) ∷ pair (root 3) (root 4) ∷ [])
    ∷ (pair (pair (root 1) (root 2)) (pair (root 3) (root 4)) ∷ [])
    ∷ [])
unfolding pair_layer
kept_layered =
    Layered.above _ _ refl (
      Layered.above _ _ refl (Layered.top (pair (pair (root 1) (root 2)) (pair (root 3) (root 4)))))

abbrev four_items : ℕ → ℕ → ℕ → ℕ → Vals
four_items a b c d =
    Vals.cons (root_val a)
      (Vals.cons (root_val b) (Vals.cons (root_val c) (Vals.cons (root_val d) Vals.nil)))

one_scanned :
    scan_leaves (some (root 1 ∷ root 2 ∷ root 3 ∷ root 4 ∷ [])) 0 (four_items 1 2 6 4)
    ≡ ok (root 1 ∷ root 2 ∷ root 6 ∷ root 4 ∷ [], 2 ∷ [])
unfolding scan_leaves root_bytes bytes_of is_changed same_text
one_scanned = refl

roots_array_root-Layered_example :
    (new_root : Buf) × (rest : List (List Buf)) × (w : Caches cached_env) × (roots_array_root
        cached_env
        (four_vals 1 2 6 4)
        field_name
        kept_caches
      ≡ (ok (to_bytes32 new_root), w))
    × Layered to_bytes32 new_root
        (set_elem (root 1 ∷ root 2 ∷ root 3 ∷ root 4 ∷ []) 2 (root 6) ∷ rest)
    × Kept cached_env w field_name
        (root 1 ∷ root 2 ∷ root 3 ∷ root 4 ∷ [])
        ((root 1 ∷ root 2 ∷ root 3 ∷ root 4 ∷ []) ∷ rest)
unfolding items
roots_array_root-Layered_example =
    roots_array_root-Layered cached_env (four_vals 1 2 6 4) 2 refl one_scanned refl (omega arith)
      kept_layered refl field_name refl kept_caches (refl, refl)
