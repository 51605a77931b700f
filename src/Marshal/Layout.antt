-- ===== src/Marshal/Layout.antt =====
-- The loops that write a composite: what stays in place goes on in a first section, what has a
-- variable size goes on in a second one, with its offset in the first. These lemmas do not name a
-- loop; the loops of structs, slices and arrays are built from the steps.
use go_ssz.Prelude.{ℕ, ◌+◌, ◌-◌, ◌%◌, ◌^◌, ◌<◌, ◌≡◌, ap, ◌∙◌, arith}
use go_ssz.Prelude.{List, [], ◌∷◌, ◌++◌, append_assoc, length, ok, ◌>>=◌}
use go_ssz.Buffer.{Buf, le_bytes}
use go_ssz.Buffer.Writes.{Writes, lengths, cut, put_bytes-append, le_bytes-mod, length-append_bytes}
use go_ssz.Marshal.{Written, write_offset}
use go_ssz.Size.{◌+u64◌}
use go_ssz.Ssz.Parts.{Part, fixed, variable, head_length, heads, tails, join, length-le_bytes}
use go_ssz.Ssz.Parts.{length-join}

-- `loop buf fixed current`, for a composite that begins at `start`, fills the stretch `h` with the
-- heads of the parts and the stretch `t` with their tails. `o` is where `t` begins, from `start`.
abbrev pub Lays : (Buf → ℕ → ℕ → Written) → ℕ → List Part → Type 0
Lays loop start ps =
    (pre h mid t post : Buf) (o : ℕ)
    → length h ≡ head_length ps
    → length t ≡ length (tails ps)
    → start + o ≡ length (pre ++ (h ++ mid))
    → length (pre ++ (h ++ (mid ++ (t ++ post)))) < 2 ^ 64
    → loop (pre ++ (h ++ (mid ++ (t ++ post)))) (length pre) (length (pre ++ (h ++ mid)))
      ≡ ok (
        pre ++ (heads o ps ++ (mid ++ (tails ps ++ post))),
        length (pre ++ (h ++ mid)) + length (tails ps),
      )

pub Lays-nil : (start : ℕ) → Lays (λ buf fixed current. ok (buf, current)) start []
Lays-nil start pre [] mid [] post o hh ht ho b =
    ap (λ (n : ℕ). ok (pre ++ (mid ++ post), n)) (omega arith)
Lays-nil start pre (x ∷ h) mid t post o hh ht ho b = absurd (omega arith)
Lays-nil start pre [] mid (x ∷ t) post o hh ht ho b = absurd (omega arith)

-- A part of fixed size is written in place.
abbrev in_place : (Buf → ℕ → Written) → (Buf → ℕ → ℕ → Written) → Buf → ℕ → ℕ → Written
in_place m rest buf index current = m buf index >>= λ (buf', index'). rest buf' index' current

fixed_core :
    (m : Buf → ℕ → Written) (rest : Buf → ℕ → ℕ → Written) (start : ℕ) (bs : Buf) (ps : List Part)
    → Writes m bs
    → Lays rest start ps
    → (pre h h' mid t post : Buf) (o : ℕ) → length h ≡ length bs
    → length h' ≡ head_length ps
    → length t ≡ length (tails ps)
    → start + o ≡ length (pre ++ ((h ++ h') ++ mid))
    → length (pre ++ ((h ++ h') ++ (mid ++ (t ++ post)))) < 2 ^ 64
    → in_place m rest
        (pre ++ ((h ++ h') ++ (mid ++ (t ++ post))))
        (length pre)
        (length (pre ++ ((h ++ h') ++ mid)))
      ≡ ok (
        pre ++ ((bs ++ heads o ps) ++ (mid ++ (tails ps ++ post))),
        length (pre ++ ((h ++ h') ++ mid)) + length (tails ps),
      )
fixed_core m rest start bs ps hm hr pre h h' mid t post o e e' et eo b =
    let first = hm pre h (h' ++ (mid ++ (t ++ post))) e (omega lengths) in
    let l : length pre + length bs ≡ length (pre ++ bs) = omega lengths in
    let c : length (pre ++ ((h ++ h') ++ mid)) ≡ length ((pre ++ bs) ++ (h' ++ mid)) =
      omega lengths in
    let second = hr (pre ++ bs) h' mid t post o e' et (eo ∙ c) (omega lengths) in
    rw (
      c,
      append_assoc h h' (mid ++ (t ++ post)),
      first,
      l,
      ← append_assoc pre bs (h' ++ (mid ++ (t ++ post))),
      second,
      append_assoc bs (heads o ps) (mid ++ (tails ps ++ post)),
      ← append_assoc pre bs (heads o ps ++ (mid ++ (tails ps ++ post))),
    )

-- A part of variable size is written in the second section, then its offset in the first.
abbrev write_field : ℕ → (Buf → ℕ → Written) → (Buf → ℕ → ℕ → Written) → Buf → ℕ → ℕ → Written
write_field start m rest buf index current = m buf current >>= λ (buf', next).
    write_offset buf' index current start >>= λ buf''. rest buf'' (index +u64 4) next

write_offset-append :
    (pre mid post : Buf) (start current o : ℕ)
    → length mid ≡ 4
    → start + o ≡ current
    → current < 2 ^ 64
    → write_offset (pre ++ (mid ++ post)) (length pre) current start
      ≡ ok (pre ++ (le_bytes 4 o ++ post))
unfolding write_offset
write_offset-append pre mid post start current o h e b =
    let n : (current + 2 ^ 64 - start) % 2 ^ 64 ≡ o = omega arith in
    rw (n, le_bytes-mod)
      (put_bytes-append pre mid post (le_bytes 4 o) (omega (arith, length-le_bytes 4 o)))

variable_core :
    (m : Buf → ℕ → Written) (rest : Buf → ℕ → ℕ → Written) (start : ℕ) (bs : Buf) (ps : List Part)
    → Writes m bs
    → Lays rest start ps
    → (pre h h' mid t t' post : Buf) (o : ℕ) → length h ≡ 4
    → length h' ≡ head_length ps
    → length t ≡ length bs
    → length t' ≡ length (tails ps)
    → start + o ≡ length (pre ++ ((h ++ h') ++ mid))
    → length (pre ++ ((h ++ h') ++ (mid ++ ((t ++ t') ++ post)))) < 2 ^ 64
    → write_field start m rest
        (pre ++ ((h ++ h') ++ (mid ++ ((t ++ t') ++ post))))
        (length pre)
        (length (pre ++ ((h ++ h') ++ mid)))
      ≡ ok (
        pre ++ ((le_bytes 4 o ++ heads (o + length bs) ps) ++ (mid ++ ((bs ++ tails ps) ++ post))),
        length (pre ++ ((h ++ h') ++ mid)) + length (bs ++ tails ps),
      )
variable_core m rest start bs ps hm hr pre h h' mid t t' post o e e' et et' eo b =
    let z = length-le_bytes 4 o in
    let a : pre ++ ((h ++ h') ++ (mid ++ ((t ++ t') ++ post)))
        ≡ (pre ++ ((h ++ h') ++ mid)) ++ (t ++ (t' ++ post)) =
      simp append_assoc in
    let first = hm (pre ++ ((h ++ h') ++ mid)) t (t' ++ post) et (omega lengths) in
    let a' : (pre ++ ((h ++ h') ++ mid)) ++ (bs ++ (t' ++ post))
        ≡ pre ++ (h ++ (h' ++ (mid ++ (bs ++ (t' ++ post))))) =
      simp append_assoc in
    let second =
      write_offset-append pre h (h' ++ (mid ++ (bs ++ (t' ++ post)))) start _ o e eo
        (omega lengths) in
    let a'' : pre ++ (le_bytes 4 o ++ (h' ++ (mid ++ (bs ++ (t' ++ post)))))
        ≡ (pre ++ le_bytes 4 o) ++ (h' ++ ((mid ++ bs) ++ (t' ++ post))) =
      simp append_assoc in
    let l : (length pre + 4) % 2 ^ 64 ≡ length (pre ++ le_bytes 4 o) = omega lengths in
    let c : length (pre ++ ((h ++ h') ++ mid)) + length bs
        ≡ length ((pre ++ le_bytes 4 o) ++ (h' ++ (mid ++ bs))) =
      omega lengths in
    let third =
      hr (pre ++ le_bytes 4 o) h' (mid ++ bs) t' post (o + length bs) e' et' (omega lengths)
        (omega lengths) in
    let r : (pre ++ le_bytes 4 o)
          ++ (heads (o + length bs) ps ++ ((mid ++ bs) ++ (tails ps ++ post)))
        ≡ pre
          ++ ((le_bytes 4 o ++ heads (o + length bs) ps) ++ (mid ++ ((bs ++ tails ps) ++ post))) =
      simp append_assoc in
    let n : length ((pre ++ le_bytes 4 o) ++ (h' ++ (mid ++ bs))) + length (tails ps)
        ≡ length (pre ++ ((h ++ h') ++ mid)) + length (bs ++ tails ps) =
      omega lengths in
    rw (a, first, a', second, a'', l, c, third, r, n)

pub Lays-fixed :
    (m : Buf → ℕ → Written) (rest : Buf → ℕ → ℕ → Written) (start : ℕ) (bs : Buf) (ps : List Part)
    → Writes m bs
    → Lays rest start ps
    → Lays (in_place m rest) start (fixed bs ∷ ps)
Lays-fixed m rest start bs ps hm hr pre h mid t post o eh et eo b =
    let (k, k', e, l) = cut (length bs) h (omega arith) in
    let e' : length k' ≡ head_length ps = omega (lengths, ap length e) in
    rw e
      (fixed_core m rest start bs ps hm hr pre k k' mid t post o l e' et (rw e at eo) (rw e at b))

pub Lays-variable :
    (m : Buf → ℕ → Written) (rest : Buf → ℕ → ℕ → Written) (start : ℕ) (bs : Buf) (ps : List Part)
    → Writes m bs
    → Lays rest start ps
    → Lays (write_field start m rest) start (variable bs ∷ ps)
Lays-variable m rest start bs ps hm hr pre h mid t post o eh et eo b =
    let (k, k', e, l) = cut 4 h (omega arith) in
    let (u, u', d, l') = cut (length bs) t (omega (lengths, length-append_bytes bs (tails ps))) in
    let e' : length k' ≡ head_length ps = omega (lengths, ap length e) in
    let d' : length u' ≡ length (tails ps) = omega (lengths, ap length d) in
    rw (e, d)
      (variable_core m rest start bs ps hm hr pre k k' mid u u' post o l e' l' d' (rw e at eo)
        (rw (e, d) at b))

layout_core :
    (loop : Buf → ℕ → ℕ → Written) (ps : List Part) (pre h t post : Buf)
    → Lays loop (length pre) ps
    → length h ≡ head_length ps
    → length t ≡ length (tails ps)
    → length (pre ++ ((h ++ t) ++ post)) < 2 ^ 64
    → loop (pre ++ ((h ++ t) ++ post)) (length pre) (length pre +u64 head_length ps)
      ≡ ok (pre ++ (join ps ++ post), length pre + length (join ps))
unfolding join
layout_core loop ps pre h t post hl eh et b =
    let c : (length pre + head_length ps) % 2 ^ 64 ≡ length (pre ++ (h ++ [])) = omega lengths in
    let b' : length (pre ++ (h ++ (t ++ post))) < 2 ^ 64 = omega lengths in
    let run = hl pre h [] t post (head_length ps) eh et (omega lengths) b' in
    let n : length (pre ++ (h ++ [])) + length (tails ps) ≡ length pre + length (join ps) =
      omega (lengths, length-join ps) in
    rw (c, append_assoc h t post, run, n, append_assoc (heads (head_length ps) ps) (tails ps) post)

-- A loop that lays out the parts behind its start writes what the format says.
pub Lays-Writes :
    (loop : ℕ → Buf → ℕ → ℕ → Written) (ps : List Part)
    → ((start : ℕ) → Lays (loop start) start ps)
    → Writes (λ buf start. loop start buf start (start +u64 head_length ps)) (join ps)
Lays-Writes loop ps hl pre mid post e b =
    let (h, t, d, l) = cut (head_length ps) mid (omega (arith, length-join ps)) in
    let l' : length t ≡ length (tails ps) = omega (lengths, ap length d, length-join ps) in
    rw d (layout_core (loop (length pre)) ps pre h t post (hl (length pre)) l l' (rw d at b))
