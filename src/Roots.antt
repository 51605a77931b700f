-- ===== src/Roots.antt =====
-- The Root methods of types/basic.go and types/string.go, with the cache as a state. SHA-256, zssz's
-- Merkleize and the cache (ristretto) are parameters.
pub mod Cached
pub mod Strings
use go_ssz.Prelude.{ℕ, [], ◌∷◌, List, Option, none, some, length, replicate, if◌then◌else◌, ◌==◌}
use go_ssz.Prelude.{Result, ok, err, panic, stuck, ◌>>=◌}
use go_ssz.Buffer.{Buf}
use go_ssz.Reflect.{Typ, Val, Vals, nil, cons, items, count_vals, repeat_val, zero_value}
use go_ssz.Size.{determine_size}
use go_ssz.Marshal.{marshal_basic, marshal_uint8}
use go_ssz.Chunks.{pack, bitwise_merkleize, mix_in_length, root_of_bytes, item_limit, length_chunk}

-- `newVal`: a nil slice that stands for an array becomes a slice of zero values.
unfoldable pub instantiated : Val → Typ → Result Val
unfolding zero_value
instantiated (Val.nil_slice t) (Typ.array n u) = ok (Val.slice t (repeat_val n (zero_value t)))
instantiated (Val.nil_slice t) typ = panic
instantiated val typ = ok val

-- `buf`: the value, marshalled.
unfoldable pub basic_bytes : ℕ → Val → Typ → Result Buf
basic_bytes f val typ = instantiated val typ >>= λ new_val. determine_size f new_val >>= λ n.
    marshal_basic new_val typ (replicate n 0) 0 >>= λ (buf, off). ok buf

-- `leaves`: one byte each.
unfoldable pub string_leaves : Vals → Result (List Buf)
string_leaves nil = ok []
string_leaves (cons v vs) =
    marshal_uint8 v (0 ∷ []) 0 >>= λ (buf, off). string_leaves vs >>= λ leaves. ok (buf ∷ leaves)

unfoldable pub string_limit : ℕ → ℕ
string_limit max = let limit = item_limit max 1 in if limit == 0 then 1 else limit

module _ (sha : Buf → Buf) (merkleize : ℕ → ℕ → List Buf → Buf) where
  -- stringSSZ.Root
  unfoldable pub string_root : Val → ℕ → Result Buf
  string_root val max = items val >>= λ vs. string_leaves vs >>= λ leaves. pack leaves >>= λ chunks.
      bitwise_merkleize sha merkleize chunks (length chunks) (string_limit max) >>= λ root.
      ok (mix_in_length sha merkleize root (length_chunk (count_vals vs)))

  -- `hashCache` with its Get and Set.
  module _ {Cache : Type 0} (get : Cache → Buf → Option Buf) (set : Cache → Buf → Buf → Cache) where
    unfoldable pub store_root : Cache → Buf → Result Buf → Result Buf × Cache
    store_root cache key (ok root) = (ok root, set cache key root)
    store_root cache key (err e) = (err e, cache)
    store_root cache key panic = (panic, cache)
    store_root cache key stuck = (stuck, cache)

    unfoldable pub look_up : Cache → Buf → Option Buf → Result Buf × Cache
    look_up cache key (some root) = (ok root, cache)
    look_up cache key none = store_root cache key (root_of_bytes sha merkleize key)

    unfoldable pub hashed : Cache → Result Buf → Result Buf × Cache
    hashed cache (ok buf) = look_up cache buf (get cache buf)
    hashed cache (err e) = (err e, cache)
    hashed cache panic = (panic, cache)
    hashed cache stuck = (stuck, cache)

    -- basicSSZ.Root
    unfoldable pub basic_root : ℕ → Cache → Val → Typ → Result Buf × Cache
    basic_root f cache val typ = hashed cache (basic_bytes f val typ)
