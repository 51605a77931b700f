-- ===== src/Unmarshal/Rooms.antt =====
-- Slices that grow by one item at a time, and their last items.
use go_ssz.Prelude.{ℕ, suc, ◌+◌, ◌≡◌, refl, ap, arith, ok}
use go_ssz.Reflect.{Scalar, Typ, Val, Vals, nil, cons, type_of, zero_value, items, elem_type}
use go_ssz.Reflect.{repeat_val, count_vals}
use go_ssz.Equal.{same_type_refl}
use go_ssz.Grow.{index_of, set_index, copy_vals, instantiate_last, grow_slice}
use go_ssz.Unmarshal.Targets.{
  target, instantiate_ptr, IsFresh, IsFresh-target, assign_same, type_of-target, type_of-zero_value,
}

abbrev pub append_vals : Vals → Vals → Vals
append_vals nil ws = ws
append_vals (cons v vs) ws = cons v (append_vals vs ws)

pub append_vals_assoc :
    (us vs ws : Vals) → append_vals (append_vals us vs) ws ≡ append_vals us (append_vals vs ws)
append_vals_assoc nil vs ws = refl
append_vals_assoc (cons u us) vs ws = ap (λ (t : Vals). cons u t) (append_vals_assoc us vs ws)

pub append_vals-nil : (vs : Vals) → append_vals vs nil ≡ vs
append_vals-nil nil = refl
append_vals-nil (cons v vs) = ap (λ (t : Vals). cons v t) (append_vals-nil vs)

pub count_vals-append_vals :
    (vs ws : Vals) → count_vals (append_vals vs ws) ≡ count_vals vs + count_vals ws
count_vals-append_vals nil ws = omega arith
count_vals-append_vals (cons v vs) ws = omega (arith, count_vals-append_vals vs ws)

pub index_of-append_vals :
    (vs : Vals) (w : Val) (ws : Vals) → index_of (append_vals vs (cons w ws)) (count_vals vs) ≡ ok w
unfolding index_of
index_of-append_vals nil w ws = refl
index_of-append_vals (cons v vs) w ws = index_of-append_vals vs w ws

pub set_index-append_vals :
    (vs : Vals) (w x : Val) (ws : Vals)
    → set_index (append_vals vs (cons w ws)) (count_vals vs) x ≡ append_vals vs (cons x ws)
unfolding set_index
set_index-append_vals nil w x ws = refl
set_index-append_vals (cons v vs) w x ws =
    ap (λ (t : Vals). cons v t) (set_index-append_vals vs w x ws)

copy_vals-repeat_val :
    (vs : Vals) (z : Val)
    → copy_vals (repeat_val (suc (count_vals vs)) z) vs ≡ append_vals vs (cons z nil)
unfolding copy_vals
copy_vals-repeat_val nil z = refl
copy_vals-repeat_val (cons v vs) z = ap (λ (t : Vals). cons v t) (copy_vals-repeat_val vs z)

-- The last of the items gets its target.
instantiate_last-fresh :
    {z : Val} {t : Typ} → IsFresh z t → instantiate_last t (cons z nil) ≡ ok (cons (target t) nil)
unfolding instantiate_last elem_type zero_value type_of
instantiate_last-fresh (IsFresh.made u) =
    rw (instantiate_ptr (target (Typ.ptr u)) u (type_of-target (Typ.ptr u))) refl
instantiate_last-fresh (IsFresh.untouched (Typ.ptr u)) =
    rw (type_of-zero_value u, same_type_refl (Typ.ptr u)) refl
instantiate_last-fresh (IsFresh.untouched (Typ.scalar Scalar.bool)) = refl
instantiate_last-fresh (IsFresh.untouched (Typ.scalar _)) = refl
instantiate_last-fresh (IsFresh.untouched Typ.string) = refl
instantiate_last-fresh (IsFresh.untouched (Typ.slice t)) = refl
instantiate_last-fresh (IsFresh.untouched (Typ.array n t)) = refl
instantiate_last-fresh (IsFresh.untouched (Typ.struct fs)) = refl
instantiate_last-fresh (IsFresh.untouched (Typ.other n)) = refl

instantiate_last-behind :
    (t : Typ) (v w : Val) (ws : Vals) {us : Vals}
    → instantiate_last t (cons w ws) ≡ ok us
    → instantiate_last t (cons v (cons w ws)) ≡ ok (cons v us)
unfolding instantiate_last
instantiate_last-behind t v w ws e = rw e refl

instantiate_last-append_vals :
    (vs : Vals) {z : Val} {t : Typ}
    → IsFresh z t
    → instantiate_last t (append_vals vs (cons z nil)) ≡ ok (append_vals vs (cons (target t) nil))
instantiate_last-append_vals nil i = instantiate_last-fresh i
instantiate_last-append_vals (cons v nil) {z} {t} i =
    instantiate_last-behind t v z nil (instantiate_last-fresh i)
instantiate_last-append_vals (cons v (cons w vs)) {z} {t} i =
    instantiate_last-behind t v w (append_vals vs (cons z nil))
      (instantiate_last-append_vals (cons w vs) i)

grow_slice_lem :
    (val : Val) (t : Typ) (n : ℕ) (vs : Vals) {us : Vals}
    → type_of val ≡ ok (Typ.slice t)
    → items val ≡ ok vs
    → instantiate_last t (copy_vals (repeat_val n (zero_value t)) vs) ≡ ok us
    → grow_slice val (Typ.slice t) n ≡ ok (Val.slice t us)
unfolding grow_slice
grow_slice_lem val t n vs e i h =
    rw (i, assign_same val (Val.slice t nil) (Typ.slice t) e (unfold type_of in refl), h) refl

-- A slice that is grown by one item.
pub grow_slice-append_vals :
    (t : Typ) (vs : Vals)
    → grow_slice (Val.slice t vs) (Typ.slice t) (suc (count_vals vs))
      ≡ ok (Val.slice t (append_vals vs (cons (target t) nil)))
grow_slice-append_vals t vs =
    grow_slice_lem (Val.slice t vs) t (suc (count_vals vs)) vs (unfold type_of in refl)
      (unfold items in refl)
      (rw (copy_vals-repeat_val vs (zero_value t))
        (instantiate_last-append_vals vs (IsFresh.untouched t)))

-- A slice that is given its first item, from nothing or anew.
pub grow_slice-first :
    (t : Typ)
    → grow_slice (Val.nil_slice t) (Typ.slice t) 1 ≡ ok (Val.slice t (cons (target t) nil))
grow_slice-first t =
    grow_slice_lem (Val.nil_slice t) t 1 nil (unfold type_of in refl) (unfold items in refl)
      (unfold copy_vals in instantiate_last-fresh (IsFresh.untouched t))

pub grow_slice-again :
    (t : Typ)
    → grow_slice (Val.slice t (cons (target t) nil)) (Typ.slice t) 1
      ≡ ok (Val.slice t (cons (target t) nil))
grow_slice-again t =
    grow_slice_lem (Val.slice t (cons (target t) nil)) t 1 (cons (target t) nil)
      (unfold type_of in refl) (unfold items in refl)
      (unfold copy_vals in instantiate_last-fresh (IsFresh-target t))
