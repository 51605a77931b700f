-- ===== src/HashTree/Leaves.antt =====
-- The Root methods of numbers, arrays of numbers and strings, for HashTree.antt.
use go_ssz.Prelude.{
  ℕ, zero, suc, ◌+◌, ◌*◌, ◌%◌, ◌^◌, ◌≤◌, ◌<◌, ◌≡◌, refl, sym, subst, ◌∙◌, ap, arith, List, [], ◌∷◌,
  ◌++◌, length,
}
use go_ssz.Prelude.{Result, ok, Bool, true, false, ltb, Bool-cases, inl, inr, some}
use go_ssz.Buffer.{Buf, le_bytes}
use go_ssz.Reflect.{Scalar, Typ, Val, Text, kind, bytes_as_vals}
use go_ssz.Size.{is_basic_type}
use go_ssz.Factory.{Factory}
use go_ssz.Chunks.{item_limit, length_chunk}
use go_ssz.Chunks.Cut.{chunks_unique}
use go_ssz.Chunks.Limited.{limited}
use go_ssz.Roots.{string_limit, basic_root}
use go_ssz.Roots.Cached.{Hashes, root_of_bytes-RootOf, basic_root_own}
use go_ssz.Roots.Strings.{below, string_root_chunks}
use go_ssz.Ssz.{Schema, Item, Items, serialize, depth, count_items}
use go_ssz.HashTree.Capped.{Caps, HasRoot, is_number, is_packed, within, mixed, text_limit, Chunked}
use go_ssz.Represents.{TypeRep, ValRep, ValsRep, OwnSize, uint_width, byte_typ, byte_schema}
use go_ssz.Represents.Factory.{choice, array_choice, slice_choice}
use go_ssz.Represents.Capacities.{max_capacity}
use go_ssz.Marshal.Loops.{join-concat, concat}
use go_ssz.Hashing.{Env, Caches, Hashing}
use go_ssz.HashTree.{root_with, of_basic}
use go_ssz.HashTree.Calls.{Laws, Gives, IsSound}

-- The types of numbers are those of the schemas of numbers.
pub is_basic_type-is_number :
    {t : Typ} {s : Schema} → TypeRep t s → is_basic_type (kind t) ≡ is_number s
unfolding is_basic_type kind
is_basic_type-is_number TypeRep.boolean = refl
is_basic_type-is_number (TypeRep.uint {k = k} e) = ground arith
is_basic_type-is_number TypeRep.string = refl
is_basic_type-is_number (TypeRep.slice r) = refl
is_basic_type-is_number (TypeRep.array r) = refl
is_basic_type-is_number (TypeRep.struct r) = refl
is_basic_type-is_number (TypeRep.ptr r) = refl

array_is_number :
    {t : Typ} {s : Schema}
    → TypeRep t s
    → (b : Bool) → array_choice t b ≡ Factory.basic
    → is_number s ≡ true
unfolding array_choice
array_is_number r b e = let h = is_basic_type-is_number r in ground (arith, e, h)

-- The basic factory is for what packs.
pub choice-is_packed :
    {v : Val} {t : Typ} {s : Schema} {x : Item}
    → ValRep v t s x
    → choice t s ≡ Factory.basic
    → is_packed s ≡ true
unfolding choice slice_choice
choice-is_packed ValRep.boolean e = refl
choice-is_packed (ValRep.uint p l) e = refl
choice-is_packed (ValRep.string r) e = ground (arith, e)
choice-is_packed (ValRep.slice p r o rs) e = ground (arith, e)
choice-is_packed (ValRep.array p c u r o rs) e = array_is_number r _ e
choice-is_packed (ValRep.byte_array c r) e = refl
choice-is_packed (ValRep.byte_slice c r) e = refl
choice-is_packed (ValRep.nil_bytes p) e = refl
choice-is_packed (ValRep.struct r) e = ground (arith, e)
choice-is_packed (ValRep.ptr r) e = ground (arith, e)
choice-is_packed (ValRep.nil_ptr p r) e = ground (arith, e)

length-string :
    (cs : Text) {xs : Items}
    → ValsRep (bytes_as_vals cs) byte_typ byte_schema xs
    → length cs ≡ count_items xs
length-string [] ValsRep.no_vals = refl
length-string (c ∷ cs) (ValsRep.each r rs) = ap suc (length-string cs rs)

one_byte :
    {c w : ℕ} {cs bs : Buf}
    → uint_width Scalar.uint8 ≡ some w
    → c < 256 ^ w
    → cs ≡ bs
    → c ∷ cs ≡ serialize (Schema.uint w) (Item.num c) ++ bs
unfolding serialize le_bytes
one_byte {c} {w} {cs} e h p =
    let k = below e h in
    let n : c % 256 ≡ c = omega (arith, k) in let one : w ≡ 1 = cc in rw (one, n, p) refl

string_concat :
    (cs : Text) {xs : Items}
    → ValsRep (bytes_as_vals cs) byte_typ byte_schema xs
    → cs ≡ concat byte_schema xs
unfolding serialize le_bytes
string_concat [] ValsRep.no_vals = refl
string_concat (c ∷ cs) (ValsRep.each (ValRep.uint e h) rs) = one_byte e h (string_concat cs rs)

string_bytes :
    (cs : Text) {xs : Items}
    → ValsRep (bytes_as_vals cs) byte_typ byte_schema xs
    → cs ≡ serialize (Schema.list byte_schema) (Item.seq xs)
unfolding serialize
string_bytes cs {xs} r = string_concat cs r ∙ sym (join-concat byte_schema xs refl)

module _ (env : Env) (laws : Laws env) where
  -- A root has 32 bytes.
  abbrev pub IsRoot : Result Buf → Type 0
  IsRoot r = (a : Buf) → r ≡ ok a → length a ≡ 32

  -- The call gives the root that the item has by its capacities.
  abbrev pub Finds : Hashing env Buf → Schema → Caps → ℕ → Item → Type 0
  Finds m s c max x =
      (r : Result Buf) × HasRoot env.sha env.merkleize s c max x r × IsRoot r × Gives env m r

  pub within-IsRoot : (limit : ℕ) (cs : List Buf) → IsRoot (within env.sha env.merkleize limit cs)
  within-IsRoot limit cs a e =
      let l = laws.length_merkleize (length cs) limit cs in
      elim (Bool-cases (ltb limit (length cs))) [
        | inl h ↦ absurd (ground (arith, h, e))
        | inr h ↦ ground (arith, h, e, l)
      ]

  pub mixed-IsRoot : (limit n : ℕ) (cs : List Buf) → IsRoot (mixed env.sha env.merkleize limit n cs)
  mixed-IsRoot limit n cs a e =
      let l = laws.length_sha (env.merkleize (length cs) limit cs ++ length_chunk n) in
      elim (Bool-cases (ltb limit (length cs))) [
        | inl h ↦ absurd (ground (arith, h, e))
        | inr h ↦ ground (arith, h, e, l)
      ]

  pub within_all :
      (cs : List Buf)
      → within env.sha env.merkleize (length cs) cs ≡ ok (env.merkleize (length cs) (length cs) cs)
  within_all cs = let h : ltb (length cs) (length cs) ≡ false = ground arith in rw h refl

  of_basic-Gives :
      (m : env.Cache → Result Buf × env.Cache) (cs : List Buf) (bs : Buf)
      → Chunked cs bs
      → (w : Caches env) → Hashes env.sha env.merkleize env.get env.set (m w.basic) bs
      → (w' : Caches env) × (of_basic env m w ≡ (within env.sha env.merkleize (length cs) cs, w'))
        × IsSound env w'
  unfolding of_basic
  of_basic-Gives m cs bs i w (root, cache, e, (ds, j, p), h) =
      let u = chunks_unique j i in
      let q : root ≡ env.merkleize (length cs) (length cs) cs =
        subst (λ (l : List Buf). root ≡ env.merkleize (length l) (length l) l) u p in
      (record w { basic = cache }, rw (e, within_all cs, q) refl, h)

  pub leaf-Finds :
      {v : Val} {t : Typ} {s : Schema} {x : Item} (c : Caps)
      → ValRep v t s x
      → choice t s ≡ Factory.basic
      → OwnSize v t
      → length (serialize s x) < 2 ^ 64
      → (f : ℕ) → 8 * depth s + 4 ≤ f
      → (name : Text) (max : ℕ) → Finds (root_with env f Factory.basic v t name max) s c max x
  unfolding root_with
  leaf-Finds c r e o b zero h name max = absurd (omega arith)
  leaf-Finds {v} {t} {s} {x} c r e o b (suc f) h name max =
      let (root, q, (cs, i, p)) = root_of_bytes-RootOf env.sha env.merkleize (serialize s x) in
      (
        within env.sha env.merkleize (length cs) cs,
        HasRoot.packed (choice-is_packed r e) i,
        within-IsRoot (length cs) cs,
        λ w v'.
            of_basic-Gives (λ cache. basic_root env.sha env.merkleize env.get env.set f cache v t)
              cs (serialize s x) i w
              (basic_root_own env.sha env.merkleize env.get env.set laws.keeps r o e b w.basic v' f
                (omega arith)),
      )

  mixes_within :
      (limit n : ℕ) (chunks : List Buf)
      → limited env.sha env.merkleize limit n chunks ≡ mixed env.sha env.merkleize limit n chunks
  mixes_within limit n chunks = elim (Bool-cases (ltb limit (length chunks))) [
    | inl e ↦ rw e refl
    | inr e ↦ rw e refl
  ]

  limited-mixed :
      (max n m : ℕ) (chunks : List Buf)
      → n ≡ m
      → max < max_capacity
      → limited env.sha env.merkleize (string_limit max) n chunks
        ≡ mixed env.sha env.merkleize (text_limit max) m chunks
  unfolding string_limit item_limit
  limited-mixed max n m chunks e h =
      let l : string_limit max ≡ text_limit max = ground (arith, h) in
      rw (l, e) (mixes_within (text_limit max) m chunks)

  pub string-Finds :
      (cs : Text) {xs : Items}
      → ValsRep (bytes_as_vals cs) byte_typ byte_schema xs
      → (f : ℕ) → 1 ≤ f
      → (name : Text) (max : ℕ) → max < max_capacity
      → Finds
          (root_with env f Factory.string (Val.str cs) Typ.string name max)
          (Schema.list byte_schema)
          Caps.text
          max
          (Item.seq xs)
  unfolding root_with
  string-Finds cs r zero h name max l = absurd (omega arith)
  string-Finds cs {xs} r (suc f) h name max l =
      let (chunks, i, e) = string_root_chunks env.sha env.merkleize cs r max in
      let n = length-string cs r in
      (
        mixed env.sha env.merkleize (text_limit max) (count_items xs) chunks,
        HasRoot.text (subst (λ (bs : Buf). Chunked chunks bs) (string_bytes cs r) i),
        mixed-IsRoot (text_limit max) (count_items xs) chunks,
        λ w v'. (
          w,
          ap (λ (q : Result Buf). (q, w))
              (e ∙ limited-mixed max (length cs) (count_items xs) chunks n l),
          v',
        ),
      )
