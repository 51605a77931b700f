-- ===== src/Grow.antt =====
-- types/helpers.go: how Unmarshal makes room for the items of slices and the targets of pointers.
-- A write to a value is the value that it leaves.
use go_ssz.Equal.{same_type}
use go_ssz.Prelude.{ℕ, zero, suc, Bool, true, false, List, [], ◌∷◌, if◌then◌else◌}
use go_ssz.Prelude.{Result, ok, panic, ◌>>=◌}
use go_ssz.Reflect.{Typ, Val, Vals, nil, cons, type_of, elem_type, items, zero_value, repeat_val}

-- `val.Kind() == reflect.Ptr`
abbrev pub is_ptr : Val → Bool
is_ptr (Val.nil_ptr t) = true
is_ptr (Val.ptr v) = true
is_ptr _ = false

-- `val.Set(x)`, which panics unless the types agree.
unfoldable pub assign : Val → Val → Result Val
assign val x = type_of val >>= λ t. type_of x >>= λ u. if same_type t u then ok x else panic

-- instantiateConcreteTypeForElement
unfoldable pub instantiate : Val → Typ → Result Val
unfolding assign zero_value
instantiate val t = assign val (Val.ptr (zero_value t))

-- `val.Index(i)`
unfoldable pub index_of : Vals → ℕ → Result Val
index_of nil i = panic
index_of (cons v vs) zero = ok v
index_of (cons v vs) (suc i) = index_of vs i

unfoldable pub set_index : Vals → ℕ → Val → Vals
set_index nil i w = nil
set_index (cons v vs) zero w = cons w vs
set_index (cons v vs) (suc i) w = cons v (set_index vs i w)

-- What reflect.Copy makes of the items of its target.
unfoldable pub copy_vals : Vals → Vals → Vals
copy_vals nil src = nil
copy_vals (cons v vs) nil = cons v vs
copy_vals (cons v vs) (cons w ws) = cons w (copy_vals vs ws)

-- The last item, if it is a pointer, gets a target.
unfoldable pub instantiate_last : Typ → Vals → Result Vals
unfolding instantiate
instantiate_last t nil = panic
instantiate_last t (cons v nil) =
    if is_ptr v
    then (elem_type t >>= λ u. instantiate v u >>= λ w. ok (cons w nil))
    else ok (cons v nil)
instantiate_last t (cons v (cons w vs)) = instantiate_last t (cons w vs) >>= λ ws. ok (cons v ws)

-- growConcreteSliceType
unfoldable pub grow_slice : Val → Typ → ℕ → Result Val
unfolding copy_vals instantiate_last assign
grow_slice val (Typ.slice t) n = items val >>= λ vs. assign val (Val.slice t nil) >>= λ same.
    instantiate_last t (copy_vals (repeat_val n (zero_value t)) vs) >>= λ ws. ok (Val.slice t ws)
grow_slice val typ n = panic

-- One call for each item of the new slice.
unfoldable pub repeat_call : ℕ → Result Val → Result Vals
repeat_call zero m = ok nil
repeat_call (suc n) m = m >>= λ v. repeat_call n m >>= λ vs. ok (cons v vs)

-- growSliceFromSizeTags, on a value of the type `typ`
unfoldable pub grow_sizes : Val → Typ → List ℕ → Result Val
unfolding zero_value repeat_call
grow_sizes val typ [] = ok val
grow_sizes val (Typ.slice t) (n ∷ ns) =
    repeat_call n (grow_sizes (zero_value t) t ns) >>= λ vs. ok (Val.slice t vs)
grow_sizes val typ (n ∷ ns) = panic
