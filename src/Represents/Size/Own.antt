-- ===== src/Represents/Size/Own.antt =====
-- DetermineSize, which sizes a value at its own type.
use go_ssz.Prelude.{ℕ, zero, suc, ◌≡◌, refl, ap, false}
use go_ssz.Prelude.{ok, arith}
use go_ssz.Reflect.{Typ, Fields, Val, Vals, type_of, zero_value, zero_fields}
use go_ssz.Size.{determine_size}
use go_ssz.Size.{is_variable_size_type}
use go_ssz.Ssz.{Schema, Schemas, Item, Items, depth}
use go_ssz.Represents.{TypeRep, FieldTypesRep, ValRep, OwnSize}
use go_ssz.Represents.{byte_typ, byte_schema}
use go_ssz.Represents.Variable.{ValRep-TypeRep}
use go_ssz.Represents.Size.Claims.{Sized, OwnSized, is_pointer, own_lem, total-bytes, length-vector}

pub own_bytes :
    {vs : Vals} {n : ℕ} {s : Schema} {x : Item}
    → ValRep (Val.slice byte_typ vs) (Typ.array n byte_typ) s x
    → OwnSized (Val.slice byte_typ vs) s x
unfolding determine_size type_of is_variable_size_type depth
own_bytes r zero h = absurd (omega arith)
own_bytes r (suc zero) h = absurd (omega arith)
own_bytes (ValRep.array e c u r o rs) (suc (suc f)) h = cc
own_bytes (ValRep.byte_slice {n = n} {xs = xs} c rs) (suc (suc f)) h =
    ap ok (omega (arith, total-bytes rs, length-vector n byte_schema xs))

pub own_general :
    {v : Val} {t : Typ} {s : Schema} {x : Item}
    → OwnSize v t
    → is_pointer v ≡ false
    → ValRep v t s x
    → Sized v t s x
    → OwnSized v s x
own_general {v} {x = x} (OwnSize.same e) p r sz f h =
    own_lem v x p e (ValRep-TypeRep r) sz f (omega arith)
own_general OwnSize.bytes p r sz f h = own_bytes r f h

pub own_ptr :
    (fs : Fields) (vs : Vals) (ss : Schemas) (xs : Items)
    → FieldTypesRep fs ss
    → Sized (Val.struct fs vs) (Typ.struct fs) (Schema.container ss) (Item.seq xs)
    → OwnSized (Val.ptr (Val.struct fs vs)) (Schema.container ss) (Item.seq xs)
unfolding determine_size type_of
own_ptr fs vs ss xs r sz zero h = absurd (omega arith)
own_ptr fs vs ss xs r sz (suc f) h =
    own_lem (Val.struct fs vs) (Item.seq xs) refl refl (TypeRep.struct r) sz f (omega arith)

pub own_nil_ptr :
    (fs : Fields) {vs : Vals} (ss : Schemas) (xs : Items)
    → zero_fields fs ≡ vs
    → FieldTypesRep fs ss
    → Sized (Val.struct fs vs) (Typ.struct fs) (Schema.container ss) (Item.seq xs)
    → OwnSized (Val.nil_ptr (Typ.struct fs)) (Schema.container ss) (Item.seq xs)
unfolding determine_size type_of zero_value
own_nil_ptr fs ss xs e r sz zero h = absurd (omega arith)
own_nil_ptr fs {vs} ss xs e r sz (suc f) h =
    rw e (own_lem (Val.struct fs vs) (Item.seq xs) refl refl (TypeRep.struct r) sz f (omega arith))

abbrev pub Both : Val → Typ → Schema → Item → Type 0
Both v t s x = Sized v t s x × (OwnSize v t → OwnSized v s x)

pub general-Both :
    {v : Val} {t : Typ} {s : Schema} {x : Item}
    → is_pointer v ≡ false
    → ValRep v t s x
    → Sized v t s x
    → Both v t s x
general-Both p r sz = (sz, λ o. own_general o p r sz)
