-- ===== src/Buffer/Writes.antt =====
-- What it means that a writer replaces a stretch of a buffer by given bytes, and that the primitive
-- writes do.
use go_ssz.Prelude.{
  ℕ, zero, suc, ◌+◌, ◌/◌, ◌%◌, ◌^◌, ◌≤◌, ◌<◌, ◌≡◌, refl, ap, ◌∙◌, sym, subst, arith,
}
use go_ssz.Prelude.{[], ◌∷◌, ◌++◌, append_assoc, length, length-append, take, drop, le→leb}
use go_ssz.Prelude.{take-append-drop, length-take, length-drop, Result, ok, ◌>>=◌}
use go_ssz.Buffer.{Buf, copy_into, put_bytes, copy_bytes, le_bytes}

-- `m` writes `bs` over as many bytes, and returns the offset behind them.
abbrev pub Writes : (Buf → ℕ → Result (Buf × ℕ)) → Buf → Type 0
Writes m bs =
    (pre mid post : Buf)
    → length mid ≡ length bs
    → length (pre ++ (mid ++ post)) < 2 ^ 64
    → m (pre ++ (mid ++ post)) (length pre) ≡ ok (pre ++ (bs ++ post), length pre + length bs)

pub length-append_bytes : (xs ys : Buf) → length (xs ++ ys) ≡ length xs + length ys
length-append_bytes = length-append

pub ruleset lengths = (arith, length-append_bytes)

copy_into-zero :
    (mid post bs : Buf) → length mid ≡ length bs → copy_into (mid ++ post) 0 bs ≡ bs ++ post
unfolding copy_into
copy_into-zero [] [] [] h = refl
copy_into-zero [] (p ∷ post) [] h = refl
copy_into-zero [] post (b ∷ bs) h = absurd (omega arith)
copy_into-zero (m ∷ mid) post [] h = absurd (omega arith)
copy_into-zero (m ∷ mid) post (b ∷ bs) h =
    ap (λ (t : Buf). b ∷ t) (copy_into-zero mid post bs (omega arith))

copy_into-append :
    (pre mid post bs : Buf)
    → length mid ≡ length bs
    → copy_into (pre ++ (mid ++ post)) (length pre) bs ≡ pre ++ (bs ++ post)
unfolding copy_into
copy_into-append [] mid post bs h = copy_into-zero mid post bs h
copy_into-append (p ∷ pre) mid post bs h =
    ap (λ (t : Buf). p ∷ t) (copy_into-append pre mid post bs h)

pub put_bytes-append :
    (pre mid post bs : Buf)
    → length mid ≡ length bs
    → put_bytes (pre ++ (mid ++ post)) (length pre) bs ≡ ok (pre ++ (bs ++ post))
unfolding put_bytes
put_bytes-append pre mid post bs h =
    rw (le→leb (length pre + length bs) (length (pre ++ (mid ++ post))) (omega lengths))
      (ap ok (copy_into-append pre mid post bs h))

pub copy_bytes-append :
    (pre mid post bs : Buf)
    → length mid ≡ length bs
    → copy_bytes (pre ++ (mid ++ post)) (length pre) bs ≡ ok (pre ++ (bs ++ post))
unfolding copy_bytes
copy_bytes-append pre mid post bs h =
    rw (le→leb (length pre) (length (pre ++ (mid ++ post))) (omega lengths))
      (ap ok (copy_into-append pre mid post bs h))

-- A buffer cut in two at a given length.
pub cut : (n : ℕ) (xs : Buf) → n ≤ length xs → (ys zs : Buf) × (xs ≡ ys ++ zs) × (length ys ≡ n)
cut n xs h = (take n xs, drop n xs, sym (take-append-drop n xs), omega (arith, length-take n xs))

-- Only the lowest bytes of a number are written.
pub le_bytes-mod : (n : ℕ) → le_bytes 4 (n % 2 ^ 32) ≡ le_bytes 4 n
unfolding le_bytes
le_bytes-mod n = ground arith

bind_core :
    (m : Buf → ℕ → Result (Buf × ℕ)) (k : Buf → ℕ → Result (Buf × ℕ)) (bs cs : Buf)
    → Writes m bs
    → Writes k cs
    → (pre m₁ m₂ post : Buf) → length m₁ ≡ length bs
    → length m₂ ≡ length cs
    → length (pre ++ ((m₁ ++ m₂) ++ post)) < 2 ^ 64
    → (m (pre ++ ((m₁ ++ m₂) ++ post)) (length pre) >>= λ (buf', off'). k buf' off')
      ≡ ok (pre ++ ((bs ++ cs) ++ post), length pre + length (bs ++ cs))
bind_core m k bs cs hm hk pre m₁ m₂ post h₁ h₂ b =
    let first = hm pre m₁ (m₂ ++ post) h₁ (omega lengths) in
    let e : length pre + length bs ≡ length (pre ++ bs) = omega lengths in
    let e' : length pre + (length bs + length cs) ≡ length (pre ++ bs) + length cs =
      omega lengths in
    let second = hk (pre ++ bs) m₂ post h₂ (omega lengths) in
    rw (
      append_assoc m₁ m₂ post,
      first,
      e,
      ← append_assoc pre bs (m₂ ++ post),
      second,
      append_assoc bs cs post,
      ← append_assoc pre bs (cs ++ post),
      length-append_bytes bs cs,
      e',
    )

-- A writer that is done before another goes on behind it.
pub Writes-bind :
    (m : Buf → ℕ → Result (Buf × ℕ)) (k : Buf → ℕ → Result (Buf × ℕ)) (bs cs : Buf)
    → Writes m bs
    → Writes k cs
    → Writes (λ buf off. m buf off >>= λ (buf', off'). k buf' off') (bs ++ cs)
Writes-bind m k bs cs hm hk pre mid post h b =
    let (m₁, m₂, e, l) = cut (length bs) mid (omega lengths) in
    bind_at m₁ m₂ e l (omega (lengths, ap length e)) h b
  where
    bind_at :
        (m₁ m₂ : Buf)
        → mid ≡ m₁ ++ m₂
        → length m₁ ≡ length bs
        → length m₂ ≡ length cs
        → length mid ≡ length (bs ++ cs)
        → length (pre ++ (mid ++ post)) < 2 ^ 64
        → (m (pre ++ (mid ++ post)) (length pre) >>= λ (buf', off'). k buf' off')
          ≡ ok (pre ++ ((bs ++ cs) ++ post), length pre + length (bs ++ cs))
    bind_at m₁ m₂ e l₁ l₂ h b = rw e (bind_core m k bs cs hm hk pre m₁ m₂ post l₁ l₂ (rw e at b))
