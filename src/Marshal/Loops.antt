-- ===== src/Marshal/Loops.antt =====
-- The loops of the Marshal methods, given what the Marshal of each item or field writes.
use go_ssz.Prelude.{ℕ, ◌*◌, ◌%◌, ◌^◌, ◌≡◌, refl, ap, arith}
use go_ssz.Prelude.{List, [], ◌∷◌, ◌++◌, append-nil, ok, Bool, true, false}
use go_ssz.Prelude.{Option}
use go_ssz.Buffer.{Buf}
use go_ssz.Buffer.Writes.{Writes, Writes-bind, lengths}
use go_ssz.Reflect.{Typ, Fields, Val, Vals, Text, count_vals}
use go_ssz.Tags.{is_metadata, determine_field_type}
use go_ssz.Size.{◌+u64◌, ◌*u64◌, is_variable_size_type}
use go_ssz.Marshal.{Written, Marshaler, marshal_in_order, marshal_offsets, marshal_fields}
use go_ssz.Marshal.Layout.{Lays, Lays-nil, Lays-fixed, Lays-variable, Lays-Writes}
use go_ssz.Ssz.{Schema, Item, Items, is_variable, serialize, parts_of}
use go_ssz.Ssz.Parts.{Part, part, head_length, heads, tails, join, length-join}

pub data EachWrites (self : Val → Buf → ℕ → Written) (s : Schema) : Vals → Items → Type 0 where
  none_left : EachWrites self s Vals.nil Items.nil
  each :
      {v : Val} {vs : Vals} {x : Item} {xs : Items}
      → Writes (self v) (serialize s x)
      → EachWrites self s vs xs
      → EachWrites self s (Vals.cons v vs) (Items.cons x xs)

-- The serializations of the items, one behind the other.
abbrev pub concat : Schema → Items → Buf
concat s Items.nil = []
concat s (Items.cons x xs) = serialize s x ++ concat s xs

heads-concat :
    (s : Schema) (xs : Items) (o : ℕ)
    → is_variable s ≡ false
    → (heads o (parts_of s xs) ≡ concat s xs) × (tails (parts_of s xs) ≡ [])
unfolding serialize
heads-concat s Items.nil o h = (refl, refl)
heads-concat s (Items.cons x xs) o h = let (a, b) = heads-concat s xs o h in (rw (h, a), rw (h, b))

-- Items of fixed size need no offsets.
pub join-concat :
    (s : Schema) (xs : Items) → is_variable s ≡ false → join (parts_of s xs) ≡ concat s xs
unfolding join
join-concat s xs h =
    let (a, b) = heads-concat s xs (head_length (parts_of s xs)) h in
    rw (a, b) (append-nil (concat s xs))

pub Writes-nothing : Writes (λ buf off. ok (buf, off)) []
Writes-nothing pre [] post h b = ap (λ (n : ℕ). ok (pre ++ post, n)) (omega arith)
Writes-nothing pre (m ∷ mid) post h b = absurd (omega arith)

pub marshal_in_order-Writes :
    (self : Val → Buf → ℕ → Written) {s : Schema} {vs : Vals} {xs : Items}
    → EachWrites self s vs xs
    → Writes (marshal_in_order self vs) (concat s xs)
unfolding marshal_in_order
marshal_in_order-Writes self EachWrites.none_left = Writes-nothing
marshal_in_order-Writes self {s} (EachWrites.each {v = v} {vs = vs} {x = x} {xs = xs} w ws) =
    Writes-bind (self v) (marshal_in_order self vs) (serialize s x) (concat s xs) w
      (marshal_in_order-Writes self ws)

marshal_offsets-Lays :
    (self : Val → Buf → ℕ → Written) {s : Schema} {vs : Vals} {xs : Items} (start : ℕ)
    → is_variable s ≡ true
    → EachWrites self s vs xs
    → Lays (marshal_offsets self start vs) start (parts_of s xs)
unfolding marshal_offsets serialize
marshal_offsets-Lays self start h EachWrites.none_left = Lays-nil start
marshal_offsets-Lays self {s} start h (EachWrites.each {v = v} {vs = vs} {x = x} {xs = xs} w ws) =
    rw h (
      Lays-variable (self v) (marshal_offsets self start vs) start (serialize s x) (parts_of s xs) w
        (marshal_offsets-Lays self start h ws))

head_length-variable :
    {self : Val → Buf → ℕ → Written} {s : Schema} {vs : Vals} {xs : Items}
    → is_variable s ≡ true
    → EachWrites self s vs xs
    → head_length (parts_of s xs) ≡ count_vals vs * 4
unfolding serialize
head_length-variable h EachWrites.none_left = refl
head_length-variable {s = s} h (EachWrites.each w ws) =
    rw h (omega (arith, head_length-variable h ws))

-- The offsets and the items of a composite of variable-size items.
pub marshal_offsets-Writes :
    (self : Val → Buf → ℕ → Written) {s : Schema} {vs : Vals} {xs : Items}
    → is_variable s ≡ true
    → EachWrites self s vs xs
    → Writes
        (λ buf start. marshal_offsets self start vs buf start (start +u64 count_vals vs *u64 4))
        (join (parts_of s xs))
marshal_offsets-Writes self {s} {vs} {xs} h ws pre mid post e b =
    let m : count_vals vs * 4 % 2 ^ 64 ≡ head_length (parts_of s xs) =
      omega (lengths, head_length-variable h ws, length-join (parts_of s xs)) in
    rw m (
      Lays-Writes (λ start. marshal_offsets self start vs) (parts_of s xs)
        (λ start. marshal_offsets-Lays self start h ws) pre mid post e b)

-- One field, at the type that its tag gives it.
pub marshal_fields-Lays :
    (f : ℕ) (find : Marshaler) (start : ℕ) (name : Text) (size max : Option Text) (t u : Typ)
    (fs : Fields) (v : Val) (vs : Vals) (variable : Bool) (bs : Buf) (ps : List Part)
    → is_metadata name ≡ false
    → determine_field_type size t ≡ ok u
    → is_variable_size_type f u ≡ ok variable
    → Writes (find v u) bs
    → Lays (marshal_fields f find start fs vs) start ps
    → Lays
        (marshal_fields f find start (Fields.field name size max t fs) (Vals.cons v vs))
        start
        (part variable bs ∷ ps)
unfolding marshal_fields
marshal_fields-Lays f find start name size max t u fs v vs true bs ps k d e w l =
    rw (k, d, e) (Lays-variable (find v u) (marshal_fields f find start fs vs) start bs ps w l)
marshal_fields-Lays f find start name size max t u fs v vs false bs ps k d e w l =
    rw (k, d, e) (Lays-fixed (find v u) (marshal_fields f find start fs vs) start bs ps w l)

pub marshal_fields-Lays_skip :
    (f : ℕ) (find : Marshaler) (start : ℕ) (name : Text) (size max : Option Text) (t : Typ)
    (fs : Fields) (v : Val) (vs : Vals) (ps : List Part)
    → is_metadata name ≡ true
    → Lays (marshal_fields f find start fs vs) start ps
    → Lays (marshal_fields f find start (Fields.field name size max t fs) (Vals.cons v vs)) start ps
unfolding marshal_fields
marshal_fields-Lays_skip f find start name size max t fs v vs ps k l = rw k l
