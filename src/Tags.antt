-- ===== src/Tags.antt =====
-- Struct field tags (types/struct.go): parseSSZFieldTags, inferFieldTypeFromSizeTags,
-- determineFieldType and determineFieldCapacity, with what they use of strings and strconv.
use go_ssz.Prelude.{ℕ, ◌+◌, ◌-◌, ◌*◌, ◌^◌, Bool, true, false, ◌&&◌, ◌||◌}
use go_ssz.Prelude.{List, [], ◌∷◌, ◌++◌, Option, none, some, ltb, leb, ◌==◌, if◌then◌else◌}
use go_ssz.Prelude.{Result, ok, err, panic, ◌>>=◌, tag_syntax, tag_range}
use go_ssz.Reflect.{Text, Typ, elem_type}

-- strings.HasPrefix and strings.Contains
unfoldable pub has_prefix : Text → Text → Bool
has_prefix s [] = true
has_prefix [] (p ∷ ps) = false
has_prefix (c ∷ cs) (p ∷ ps) = c == p && has_prefix cs ps

unfoldable pub contains : Text → Text → Bool
unfolding has_prefix
contains [] p = has_prefix [] p
contains (c ∷ cs) p = has_prefix (c ∷ cs) p || contains cs p

abbrev pub xxx : Text
xxx = b'X' ∷ b'X' ∷ b'X' ∷ b'_' ∷ []

-- A protobuf metadata field, which the code skips.
unfoldable pub is_metadata : Text → Bool
unfolding contains
is_metadata name = contains name xxx

-- strings.Split(tag, ","), with the item that is being read
unfoldable pub split : Text → Text → List Text
split [] item = item ∷ []
split (c ∷ cs) item =
    let next = split cs [] in
    let more = split cs (item ++ (c ∷ [])) in if c == b',' then item ∷ next else more

-- strconv.ParseUint(s, 10, 64)
unfoldable pub parse_digits : Text → ℕ → Result ℕ
parse_digits [] n = ok n
parse_digits (c ∷ cs) n =
    let n' = n * 10 + (c - b'0') in
    let rest = parse_digits cs n' in
    if leb b'0' c && leb c b'9'
    then (if ltb n' (2 ^ 64) then rest else err tag_range)
    else err tag_syntax

unfoldable pub parse_uint : Text → Result ℕ
unfolding parse_digits
parse_uint [] = err tag_syntax
parse_uint (c ∷ cs) = parse_digits (c ∷ cs) 0

-- Comparison with UnboundedSSZFieldSizeMarker, "?"
abbrev is_marker : Text → Bool
is_marker (c ∷ []) = c == b'?'
is_marker _ = false

unfoldable pub parse_sizes : List Text → Result (List ℕ)
unfolding parse_uint
parse_sizes [] = ok []
parse_sizes (item ∷ rest) = (if is_marker item then ok 0 else parse_uint item) >>= λ n.
    parse_sizes rest >>= λ ns. ok (n ∷ ns)

-- `none` where the field has no "ssz-size" tag.
unfoldable pub parse_ssz_field_tags : Option Text → Result (Option (List ℕ))
unfolding split parse_sizes
parse_ssz_field_tags none = ok none
parse_ssz_field_tags (some tag) = parse_sizes (split tag []) >>= λ sizes. ok (some sizes)

-- One call of Elem for each size; `split` yields one at least.
unfoldable pub inner_element : Typ → List ℕ → Result Typ
unfolding elem_type
inner_element t [] = ok t
inner_element t (n ∷ ns) = elem_type t >>= λ e. inner_element e ns

-- reflect.ArrayOf panics on a length that is negative as an int.
unfoldable pub wrap_sizes : List ℕ → Typ → Result Typ
wrap_sizes [] t = ok t
wrap_sizes (n ∷ ns) t = wrap_sizes ns t >>= λ e.
    if n == 0 then ok (Typ.slice e) else if ltb n (2 ^ 63) then ok (Typ.array n e) else panic

unfoldable pub infer_field_type : Typ → List ℕ → Result Typ
unfolding inner_element wrap_sizes
infer_field_type t sizes = inner_element t sizes >>= λ inner. wrap_sizes sizes inner

-- determineFieldType, of the field's "ssz-size" tag and type
unfoldable pub determine_field_type : Option Text → Typ → Result Typ
unfolding parse_ssz_field_tags infer_field_type
determine_field_type size t = parse_ssz_field_tags size >>= λ tags. elim tags [
  | none ↦ ok t
  | some sizes ↦ infer_field_type t sizes
]

-- determineFieldCapacity, of the field's "ssz-max" tag: 0 where it is missing or malformed
unfoldable pub determine_field_capacity : Option Text → ℕ
unfolding parse_uint
determine_field_capacity none = 0
determine_field_capacity (some tag) = elim (parse_uint tag) [ ok n ↦ n | _ ↦ 0 ]
