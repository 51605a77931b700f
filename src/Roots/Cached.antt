-- ===== src/Roots/Cached.antt =====
-- The root of a basic value does not depend on what the cache holds.
use go_ssz.Prelude.{ℕ, suc, ◌+◌, ◌*◌, ◌^◌, ◌≤◌, ◌<◌, ◌≡◌, refl, sym, subst, arith, ◌⊎◌, inl, inr}
use go_ssz.Prelude.{
  List, [], ◌∷◌, ◌++◌, append-nil, Option, none, some, length, ok, Result, ◌≢◌, ltb, false,
}
use go_ssz.Buffer.{Buf}
use go_ssz.Buffer.Writes.{Writes}
use go_ssz.Reflect.{Typ, Val, type_of}
use go_ssz.Factory.{Factory}
use go_ssz.Marshal.{marshal_basic, marshal_with}
use go_ssz.Marshal.Refines.{marshal_with-Writes}
use go_ssz.Marshal.Exported.{fill}
use go_ssz.Chunks.{flatten, bitwise_merkleize, root_of_bytes}
use go_ssz.Chunks.Cut.{InChunks, padding}
use go_ssz.Chunks.Pack.{Packable-one, pack-Packed}
use go_ssz.Roots.{instantiated, basic_bytes, store_root, look_up, hashed, basic_root}
use go_ssz.Ssz.{Schema, Item, serialize, depth}
use go_ssz.Represents.{ValRep, OwnSize}
use go_ssz.Represents.Factory.{choice, slice_choice}
use go_ssz.Represents.Size.{determine_size_own}

marshal_basic-Writes :
    {v : Val} {t : Typ} {s : Schema} {x : Item}
    → ValRep v t s x
    → choice t s ≡ Factory.basic
    → Writes (marshal_basic v t) (serialize s x)
unfolding marshal_with
marshal_basic-Writes {v} {t} {s} {x} r c =
    let w = marshal_with-Writes r (suc (8 * depth s)) (omega arith) in
    subst (λ (g : Factory). Writes (marshal_with (suc (8 * depth s)) g v t) (serialize s x)) c w

slice_not_basic : (u : Typ) (s : Schema) → choice (Typ.slice u) s ≢ Factory.basic
unfolding choice slice_choice
slice_not_basic u (Schema.list s) h = absurd (ground (arith, h))
slice_not_basic u _ h = absurd (ground (arith, h))

ok_inj : {a b : Typ} → ok a ≡ ok b → a ≡ b
ok_inj h = cc

instantiated_basic :
    (v : Val) {t : Typ} (s : Schema)
    → type_of v ≡ ok t
    → choice t s ≡ Factory.basic
    → instantiated v t ≡ ok v
unfolding instantiated type_of
instantiated_basic (Val.nil_slice u) s e c =
    let p = ok_inj e in
    absurd (slice_not_basic u s (subst (λ (t : Typ). choice t s ≡ Factory.basic) (sym p) c))
instantiated_basic _ s e c = refl

instantiated_own :
    {v : Val} {t : Typ} (s : Schema)
    → OwnSize v t
    → choice t s ≡ Factory.basic
    → instantiated v t ≡ ok v
unfolding instantiated
instantiated_own s (OwnSize.same {v = v} e) c = instantiated_basic v s e c
instantiated_own s OwnSize.bytes c = refl

basic_bytes-serialize :
    {v : Val} {t : Typ} {s : Schema} {x : Item}
    → ValRep v t s x
    → OwnSize v t
    → choice t s ≡ Factory.basic
    → length (serialize s x) < 2 ^ 64
    → (f : ℕ) → 8 * depth s + 3 ≤ f
    → basic_bytes f v t ≡ ok (serialize s x)
unfolding basic_bytes
basic_bytes-serialize {v} {t} {s} {x} r e c b f h =
    rw (instantiated_own s e c, determine_size_own r e b f h)
      (fill (marshal_basic v t) (serialize s x) (marshal_basic-Writes r c) b)

-- The root of a byte string: Merkleize on the chunks that hold it.
abbrev pub RootOf : (ℕ → ℕ → List Buf → Buf) → Buf → Buf → Type 0
RootOf merkleize bs root =
    (cs : List Buf) × InChunks cs (bs ++ padding (length bs))
    × (root ≡ merkleize (length cs) (length cs) cs)

module _ (sha : Buf → Buf) (merkleize : ℕ → ℕ → List Buf → Buf) where
  within_limit :
      (cs : List Buf)
      → bitwise_merkleize sha merkleize cs (length cs) (length cs)
        ≡ ok (merkleize (length cs) (length cs) cs)
  unfolding bitwise_merkleize
  within_limit cs = let h : ltb (length cs) (length cs) ≡ false = ground arith in rw h refl

  pub root_of_bytes-RootOf :
      (bs : Buf)
      → (root : Buf) × (root_of_bytes sha merkleize bs ≡ ok root) × RootOf merkleize bs root
  unfolding root_of_bytes flatten
  root_of_bytes-RootOf bs =
      let (cs, e, h) = pack-Packed (bs ∷ []) (Packable-one bs) in
      (
        merkleize (length cs) (length cs) cs,
        rw (e, within_limit cs) refl,
        (cs, (rw (append-nil bs) at h), refl),
      )

  -- A cache that Set may drop entries of, but never mixes up. Get returns what was set under the key.
  module _ {Cache : Type 0} (get : Cache → Buf → Option Buf) (set : Cache → Buf → Buf → Cache) where
    abbrev pub Keeps : Type 0
    Keeps =
        (cache : Cache) (key root k r : Buf)
        → get (set cache key root) k ≡ some r
        → ((k ≡ key) × (r ≡ root)) ⊎ (get cache k ≡ some r)

    -- Every entry of the cache is the root of its key.
    abbrev pub IsValid : Cache → Type 0
    IsValid cache = (k r : Buf) → get cache k ≡ some r → RootOf merkleize k r

    set-IsValid :
        Keeps
        → (cache : Cache) (key root : Buf) → IsValid cache
        → RootOf merkleize key root
        → IsValid (set cache key root)
    set-IsValid keeps cache key root h q k r e = elim (keeps cache key root k r e) [
      | inl (a, b) ↦ rw (a, b) q
      | inr g ↦ h k r g
    ]

    -- A call that returns the root of the bytes, and leaves a valid cache behind.
    abbrev pub Hashes : Result Buf × Cache → Buf → Type 0
    Hashes call bs =
        (root : Buf) × (cache : Cache) × (call ≡ (ok root, cache))
        × RootOf merkleize bs root
        × IsValid cache

    look_up-Hashes :
        Keeps
        → (cache : Cache) (key : Buf) (entry : Option Buf) → get cache key ≡ entry
        → IsValid cache
        → Hashes (look_up sha merkleize get set cache key entry) key
    unfolding look_up store_root
    look_up-Hashes keeps cache key (some root) e h = (root, cache, refl, h key root e, h)
    look_up-Hashes keeps cache key none e h =
        let (root, q, r) = root_of_bytes-RootOf key in
        (root, set cache key root, rw q refl, r, set-IsValid keeps cache key root h r)

    pub basic_root_own :
        Keeps
        → {v : Val} {t : Typ} {s : Schema} {x : Item} → ValRep v t s x
        → OwnSize v t
        → choice t s ≡ Factory.basic
        → length (serialize s x) < 2 ^ 64
        → (cache : Cache) → IsValid cache
        → (f : ℕ) → 8 * depth s + 3 ≤ f
        → Hashes (basic_root sha merkleize get set f cache v t) (serialize s x)
    unfolding basic_root hashed
    basic_root_own keeps {v} {t} {s} {x} r e c b cache h f l =
        rw (basic_bytes-serialize r e c b f l)
          (look_up-Hashes keeps cache (serialize s x) (get cache (serialize s x)) refl h)

    -- basicSSZ.Root of a value that stands for an item at its own type, where that type belongs to the
    -- basic factory and the serialization is shorter than 2^64 bytes: whatever the cache holds, as long
    -- as each entry is the root of its key, the call returns Merkleize of the 32-byte chunks that hold
    -- the serialization and its padding, and leaves such a cache behind. Get returns what Set stored
    -- under the same key, and the fuel is what the depth of the schema asks for.
    pub basic_root-serialize :
        Keeps
        → {v : Val} {t : Typ} {s : Schema} {x : Item} → ValRep v t s x
        → type_of v ≡ ok t
        → choice t s ≡ Factory.basic
        → length (serialize s x) < 2 ^ 64
        → (cache : Cache) → IsValid cache
        → (f : ℕ) → 8 * depth s + 3 ≤ f
        → Hashes (basic_root sha merkleize get set f cache v t) (serialize s x)
    basic_root-serialize keeps r e = basic_root_own keeps r (OwnSize.same e)
