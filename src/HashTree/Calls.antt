-- ===== src/HashTree/Calls.antt =====
-- Calls that return what is expected of them, whatever valid cache they start from, for the Root
-- methods of HashTree.antt.
use go_ssz.Prelude.{
  ℕ, ◌≡◌, refl, ◌++◌, List, none, length, false, Result, ok, err, panic, stuck, ◌>>=◌ as bind,
}
use go_ssz.Prelude.{◌*◌, ◌^◌, ◌≤◌, ◌<◌, [], ◌∷◌}
use go_ssz.Buffer.{Buf}
use go_ssz.Chunks.Pack.{Whole}
use go_ssz.Layers.Recompute.{Layered}
use go_ssz.Layers.Built.{padded}
use go_ssz.Reflect.{Val}
use go_ssz.Roots.Cached.{Keeps, IsValid}
use go_ssz.Hashing.{Env, Caches, Hashing, lift, ◌>>=◌}

-- What Merkleize makes of 32-byte chunks that are as many as the limit: the root of the layers over the
-- chunks and zero chunks behind them, up to a power of two.
abbrev pub Merkleizes : Env → Type 0
Merkleizes env =
    (cs : List Buf) (k : ℕ)
    → Whole cs
    → 2 ≤ length cs
    → k < 64
    → length cs ≤ 2 ^ k
    → 2 ^ k < 2 * length cs
    → (root : Buf) (layers : List (List Buf)) → Layered env.sha root (padded cs (2 ^ k) ∷ layers)
    → env.merkleize (length cs) (length cs) cs ≡ root

-- What the code relies on: Get of the cache returns what Set stored under the same key, hashes have 32 bytes,
-- Merkleize reads as many leaves as it is told to and builds a Merkle tree, no value is of the type Bitlist,
-- and ToggleCache has not been called, so that the caches of arrays are off.
pub record Laws (env : Env) : Type 0 where
  pub keeps : Keeps env.sha env.merkleize env.get env.set
  pub length_sha : (bs : Buf) → length (env.sha bs) ≡ 32
  pub length_merkleize : (n limit : ℕ) (cs : List Buf) → length (env.merkleize n limit cs) ≡ 32
  pub first_leaves :
      (limit : ℕ) (cs ds : List Buf)
      → env.merkleize (length cs) limit (cs ++ ds) ≡ env.merkleize (length cs) limit cs
  pub one_leaf : (c : Buf) → length c ≡ 32 → env.merkleize 1 1 (c ∷ []) ≡ c
  pub merkleizes : Merkleizes env
  pub no_bitlist : (v : Val) → env.as_bitlist v ≡ none
  pub cache_off : env.enable_cache ≡ false

module _ (env : Env) where
  abbrev pub IsSound : Caches env → Type 0
  IsSound w = IsValid env.sha env.merkleize env.get env.set w.basic

  -- From any sound caches, the call ends in `r` and leaves sound caches behind.
  abbrev pub Gives : {A : Type 0} → Hashing env A → Result A → Type 0
  Gives m r = (w : Caches env) → IsSound w → (w' : Caches env) × (m w ≡ (r, w')) × IsSound w'

  pub lift-Gives : {A : Type 0} (r : Result A) → Gives (lift {env = env} r) r
  lift-Gives r w h = (w, refl, h)

  pub bind-Gives :
      {A B : Type 0} {m : Hashing env A} {r : Result A} {k : A → Hashing env B} {h : A → Result B}
      → Gives m r
      → ((a : A) → r ≡ ok a → Gives (k a) (h a))
      → Gives (m >>= k) (bind r h)
  bind-Gives {r = ok a} g gs w v =
      let (w', e, v') = g w v in let (w'', e', v'') = gs a refl w' v' in (w'', rw (e, e') refl, v'')
  bind-Gives {r = err x} g gs w v = let (w', e, v') = g w v in (w', rw e refl, v')
  bind-Gives {r = panic} g gs w v = let (w', e, v') = g w v in (w', rw e refl, v')
  bind-Gives {r = stuck} g gs w v = let (w', e, v') = g w v in (w', rw e refl, v')

  -- A call behind one that is known to succeed
  pub ok-Gives :
      {A B : Type 0} {r : Result A} {a : A} (k : A → Hashing env B) {q : Result B}
      → r ≡ ok a
      → Gives (k a) q
      → Gives (lift r >>= k) q
  ok-Gives k e g w v = rw e (g w v)
