-- ===== src/Unmarshal/Ends.antt =====
-- The loops over offsets end, whatever the input says.
use go_ssz.Prelude.{
  ℕ, zero, suc, ◌+◌, ◌^◌, ◌≤◌, ◌<◌, ◌≡◌, ◌≢◌, refl, arith, false, ◌==◌, ltb, leb, ◌&&◌,
}
use go_ssz.Prelude.{
  ◌⊎◌, bind_ok, Result, ok, err, panic, stuck, ◌>>=◌, Bool-cases, inl, inr, length,
}
use go_ssz.Reflect.{Typ, Val, Vals, nil, cons, items, elem_type, type_of, zero_value}
use go_ssz.Size.{◌+u64◌}
use go_ssz.Input.{Input, slice_input, read_le}
use go_ssz.Grow.{is_ptr, assign, instantiate, index_of}
use go_ssz.Equal.{same_type}
use go_ssz.Decode.{Decoder}
use go_ssz.DecodeSlices.{next_offset, with_target, unmarshal_index, unmarshal_places}

-- A call that ends, in a value, an error or a panic.
abbrev pub Ends {ℓ} : {A : Type ℓ} → Result A → Type ℓ
Ends r = r ≢ stuck

pub bind-Ends {ℓ κ} :
    {A : Type ℓ} {B : Type κ} (r : Result A) (k : A → Result B)
    → Ends r
    → ((a : A) → r ≡ ok a → Ends (k a))
    → Ends (r >>= k)
bind-Ends (ok a) k e h = h a refl
bind-Ends (err x) k e h = λ p. cc
bind-Ends panic k e h = λ p. cc
bind-Ends stuck k e h = absurd (e refl)

pub ok-Ends {ℓ} : {A : Type ℓ} (a : A) → Ends (ok a)
ok-Ends a = λ p. cc

pub items-Ends : (v : Val) → Ends (items v)
unfolding items
items-Ends (Val.str s) = λ p. cc
items-Ends (Val.nil_slice t) = λ p. cc
items-Ends (Val.slice t vs) = λ p. cc
items-Ends (Val.array t vs) = λ p. cc
items-Ends _ = λ p. cc

pub elem_type-Ends : (t : Typ) → Ends (elem_type t)
unfolding elem_type
elem_type-Ends (Typ.slice t) = λ p. cc
elem_type-Ends (Typ.array n t) = λ p. cc
elem_type-Ends (Typ.ptr t) = λ p. cc
elem_type-Ends _ = λ p. cc

pub type_of-Ends : (v : Val) → Ends (type_of v)
unfolding type_of
type_of-Ends (Val.ptr v) = bind-Ends (type_of v) _ (type_of-Ends v) (λ t e. ok-Ends (Typ.ptr t))
type_of-Ends Val.invalid = λ p. cc
type_of-Ends _ = λ p. cc

pub index_of-Ends : (vs : Vals) (i : ℕ) → Ends (index_of vs i)
unfolding index_of
index_of-Ends nil i = λ p. cc
index_of-Ends (cons v vs) zero = λ p. cc
index_of-Ends (cons v vs) (suc i) = index_of-Ends vs i

pub assign-Ends : (v x : Val) → Ends (assign v x)
unfolding assign
assign-Ends v x = bind-Ends (type_of v) _ (type_of-Ends v) (λ t e.
    bind-Ends (type_of x) _ (type_of-Ends x) (λ u d. elim (Bool-cases (same_type t u)) [
      | inl z ↦ rw z (ok-Ends x)
      | inr z ↦ rw z (λ p. cc)
    ]))

pub instantiate-Ends : (v : Val) (t : Typ) → Ends (instantiate v t)
unfolding instantiate
instantiate-Ends v t = assign-Ends v (Val.ptr (zero_value t))

with_target-Ends : (val : Val) (i : ℕ) (t : Typ) → Ends (with_target val i t)
unfolding with_target
with_target-Ends val i t = bind-Ends (items val) _ (items-Ends val) (λ vs e.
    bind-Ends (index_of vs i) _ (index_of-Ends vs i) (λ v d. elim (Bool-cases (is_ptr v)) [
      | inl z ↦ rw z (
          bind-Ends (elem_type t) _ (elem_type-Ends t)
            (λ u c. bind-Ends (instantiate v u) _ (instantiate-Ends v u) (λ w b. λ p. cc)))
      | inr z ↦ rw z (ok-Ends val)
    ]))

pub slice_input-Ends : (input : Input) (a b : ℕ) → Ends (slice_input input a b)
unfolding slice_input
slice_input-Ends input a b = elim (Bool-cases (leb a b && leb b (length input.bytes))) [
  | inl z ↦ rw z (λ p. cc)
  | inr z ↦ rw z (λ p. cc)
]

pub read_le-Ends : (input : Input) (start w : ℕ) → Ends (read_le input start w)
unfolding read_le
read_le-Ends input start w =
    bind-Ends (slice_input input start (start +u64 w)) _
      (slice_input-Ends input start (start +u64 w)) (λ s e. λ p. cc)

-- A number is read within the capacity.
pub read_le-bound :
    (input : Input) (start w n : ℕ)
    → read_le input start w ≡ ok n
    → (start ≤ start +u64 w) × (start +u64 w ≤ length input.bytes)
unfolding read_le slice_input
read_le-bound input start w n e =
    elim (Bool-cases (leb start (start +u64 w) && leb (start +u64 w) (length input.bytes))) [
      | inl z ↦ ground (arith, z)
      | inr z ↦ cc (rw z at e)
    ]

pub next_offset-Ends :
    (input : Input) (start next first : ℕ) → Ends (next_offset input start next first)
unfolding next_offset
next_offset-Ends input start next first = elim (Bool-cases (next == first)) [
  | inl z ↦ rw z (ok-Ends input.len)
  | inr z ↦ rw z (bind-Ends (read_le input next 4) _ (read_le-Ends input next 4) (λ o e. λ p. cc))
]

-- Where another offset is read, it stands within the capacity.
next_offset-bound :
    (input : Input) (start next first end : ℕ)
    → next_offset input start next first ≡ ok end
    → (next ≡ first) ⊎ (next + 4 ≤ length input.bytes)
unfolding next_offset
next_offset-bound input start next first end e = elim (Bool-cases (next == first)) [
  | inl z ↦ inl (ground (arith, z))
  | inr z ↦
      let (o, p, q) = bind_ok (read_le input next 4) _ (rw z at e) in
      let (a, b) = read_le-bound input next 4 o p in inr (omega (arith, a, b))
]

-- What Unmarshal of a factory does ends, at the given type.
abbrev pub SelfEnds : Decoder → Typ → Type 0
SelfEnds self t = (v : Val) (input : Input) (start : ℕ) → Ends (self v t input start)

pub unmarshal_index-Ends :
    (self : Decoder) (val : Val) (i : ℕ) (t : Typ) (input : Input) (start : ℕ)
    → SelfEnds self t
    → Ends (unmarshal_index self val i t input start)
unfolding unmarshal_index
unmarshal_index-Ends self val i t input start h = bind-Ends (items val) _ (items-Ends val) (λ vs e.
    bind-Ends (index_of vs i) _ (index_of-Ends vs i)
      (λ v d. bind-Ends (self v t input start) _ (h v input start) (λ w c. λ p. cc)))

-- The loop is at its end, or has another offset in the capacity, and rounds for all that there are.
abbrev pub Within : Input → ℕ → ℕ → ℕ → Type 0
Within input first index rounds =
    ((index ≡ first) × (0 < rounds))
    ⊎ ((index + 4 ≤ length input.bytes) × (length input.bytes < index + rounds))

pub Within-next :
    (input : Input) (start first index rounds end : ℕ)
    → length input.bytes < 2 ^ 64
    → (index + 4 ≤ length input.bytes) × (length input.bytes < index + suc rounds)
    → next_offset input start (index +u64 4) first ≡ ok end
    → Within input first (index +u64 4) rounds
Within-next input start first index rounds end b (l, m) e =
    let n : index +u64 4 ≡ index + 4 = omega (arith, b, l) in
    elim (next_offset-bound input start (index +u64 4) first end e) [
      | inl p ↦ inl (p, omega (arith, l, m))
      | inr p ↦ inr (p, omega (arith, n, m))
    ]

pub places-Ends :
    (rounds : ℕ) (self : Decoder) (val : Val) (t : Typ) (i : ℕ) (input : Input)
    (start first index current : ℕ)
    → SelfEnds self t
    → length input.bytes < 2 ^ 64
    → Within input first index rounds
    → Ends (unmarshal_places rounds self val t i input start first index current)
unfolding unmarshal_places
places-Ends zero self val t i input start first index current h b (inl (e, p)) =
    absurd (omega (arith, p))
places-Ends zero self val t i input start first index current h b (inr (l, m)) =
    absurd (omega (arith, l, m))
places-Ends (suc rounds) self val t i input start first index current h b (inl (e, p)) =
    let z : ltb index first ≡ false = ground (arith, e) in rw z (λ q. cc)
places-Ends (suc rounds) self val t i input start first index current h b (inr w) =
    let next = index +u64 4 in
    elim (Bool-cases (ltb index first)) [
      | inr z ↦ rw z (λ q. cc)
      | inl z ↦ rw z (
          bind-Ends (next_offset input start next first) _ (next_offset-Ends input start next first)
            (λ end e.
              let within = Within-next input start first index rounds end b w e in
              bind-Ends (with_target val i t) _ (with_target-Ends val i t) (λ ready d.
                bind-Ends (slice_input input current end) _ (slice_input-Ends input current end)
                  (λ part c.
                    bind-Ends (unmarshal_index self ready i t part 0) _
                      (unmarshal_index-Ends self ready i t part 0 h)
                      (λ (val', read) a.
                        places-Ends rounds self val' t (i + 1) input start first next end h b
                          within)))))
    ]
