-- ===== src/Layers/Powers.antt =====
-- isPowerOf2 finds the powers of two.
use go_ssz.Prelude.{
  ℕ, zero, suc, ◌-◌, ◌*◌, ◌/◌, ◌%◌, ◌^◌, ◌<◌, ◌≤◌, ◌≡◌, ◌⊎◌, inl, inr, refl, sym, arith,
}
use go_ssz.Prelude.{true, ◌==◌, Bool-cases}
use go_ssz.Layers.{bit_and, is_power_of_2}

even_or_odd : (m : ℕ) → (m % 2 ≡ 0) ⊎ (m % 2 ≡ 1)
even_or_odd m = elim (Bool-cases (m % 2 == 0)) [
  | inl e ↦ inl (ground (arith, e))
  | inr e ↦ inr (ground (arith, e))
]

bit_and-zero : (w b : ℕ) → bit_and w 0 b ≡ 0
unfolding bit_and
bit_and-zero zero b = refl
bit_and-zero (suc w) b = let h = bit_and-zero w (b / 2) in rw h refl

bit_and-even : (w a b : ℕ) → a % 2 ≡ 0 → bit_and (suc w) a b ≡ 2 * bit_and w (a / 2) (b / 2)
unfolding bit_and
bit_and-even w a b h = ground (arith, h)

bit_and_self : (w m : ℕ) → m < 2 ^ w → bit_and w m m ≡ 0 → m ≡ 0
unfolding bit_and
bit_and_self zero m l h = omega arith
bit_and_self (suc w) m l h = elim (even_or_odd m) [
  | inl e ↦
      let z : bit_and w (m / 2) (m / 2) ≡ 0 = ground (arith, h, e) in
      let k = bit_and_self w (m / 2) (omega (arith, l)) z in omega (arith, k, e)
  | inr e ↦ absurd (ground (arith, h, e))
]

bit_and-odd :
    (w a b : ℕ) → a % 2 ≡ 1 → b % 2 ≡ 0 → bit_and (suc w) a b ≡ 2 * bit_and w (a / 2) (b / 2)
unfolding bit_and
bit_and-odd w a b h k = ground (arith, h, k)

-- A number that shares no bit with its predecessor
bit_and-pred : (w m : ℕ) → 0 < m → m < 2 ^ w → bit_and w m (m - 1) ≡ 0 → (j : ℕ) × (m ≡ 2 ^ j)
bit_and-pred zero m p l h = absurd (omega arith)
bit_and-pred (suc w) m p l h = elim (even_or_odd m) [
  | inl e ↦
      let s : (m - 1) / 2 ≡ m / 2 - 1 = omega (arith, p, e) in
      let q = bit_and-even w m (m - 1) e in
      let z : bit_and w (m / 2) (m / 2 - 1) ≡ 0 = rw (sym s) (omega (arith, h, q)) in
      let (j, k) = bit_and-pred w (m / 2) (omega (arith, p, e)) (omega (arith, l)) z in
      (suc j, omega (arith, k, e))
  | inr e ↦
      let s : (m - 1) / 2 ≡ m / 2 = omega (arith, p, e) in
      let q = bit_and-odd w m (m - 1) e (omega (arith, p, e)) in
      let z : bit_and w (m / 2) ((m - 1) / 2) ≡ 0 = omega (arith, h, q) in
      let k = bit_and_self w (m / 2) (omega (arith, l)) (rw s at z) in (0, omega (arith, k, e))
]

pub power_pos : (k : ℕ) → 0 < 2 ^ k
power_pos zero = omega arith
power_pos (suc k) = let p = power_pos k in omega (arith, p)

bit_and-power : (w k : ℕ) → k < w → bit_and w (2 ^ k) (2 ^ k - 1) ≡ 0
bit_and-power zero k l = absurd (omega arith)
bit_and-power (suc w) zero l =
    let q = bit_and-odd w 1 0 refl refl in let z = bit_and-zero w 0 in omega (arith, q, z)
bit_and-power (suc w) (suc k) l =
    let p = power_pos k in
    let e : 2 ^ suc k % 2 ≡ 0 = omega arith in
    let q = bit_and-even w (2 ^ suc k) (2 ^ suc k - 1) e in
    let s : 2 ^ suc k / 2 ≡ 2 ^ k = omega arith in
    let t : (2 ^ suc k - 1) / 2 ≡ 2 ^ k - 1 = omega (arith, p) in
    let ih = bit_and-power w k (omega (arith, l)) in
    let z : bit_and w (2 ^ suc k / 2) ((2 ^ suc k - 1) / 2) ≡ 0 = rw (s, t) ih in
    omega (arith, q, z)

power_unique : (j k : ℕ) → 2 ^ j ≤ 2 ^ k → 2 ^ k < 2 * 2 ^ j → 2 ^ j ≡ 2 ^ k
power_unique zero zero h l = refl
power_unique zero (suc k) h l = let p = power_pos k in absurd (omega (arith, p, l))
power_unique (suc j) zero h l = let p = power_pos j in absurd (omega (arith, p, h))
power_unique (suc j) (suc k) h l =
    let e = power_unique j k (omega (arith, h)) (omega (arith, l)) in omega (arith, e)

-- Between half of a power of two and that power, the test finds the power only.
pub is_power_of_2-power : (k : ℕ) → k < 64 → is_power_of_2 (2 ^ k) ≡ true
unfolding is_power_of_2
is_power_of_2-power k l =
    let p = power_pos k in let z = bit_and-power 64 k l in ground (arith, p, z)

pub is_power_of_2_unique :
    (m k : ℕ) → m < 2 ^ 64 → m ≤ 2 ^ k → 2 ^ k < 2 * m → is_power_of_2 m ≡ true → m ≡ 2 ^ k
unfolding is_power_of_2
is_power_of_2_unique m k b h l t =
    let p : 0 < m = omega (arith, l) in
    let z : bit_and 64 m (m - 1) ≡ 0 = ground (arith, p, t) in
    let (j, e) = bit_and-pred 64 m p b z in
    let u = power_unique j k (omega (arith, e, h)) (omega (arith, e, l)) in omega (arith, e, u)

pub power_monotone : (k w : ℕ) → k < w → 2 ^ k < 2 ^ w
power_monotone k zero l = absurd (omega (arith, l))
power_monotone zero (suc w) l = let p = power_pos w in omega (arith, p)
power_monotone (suc k) (suc w) l = let h = power_monotone k w (omega (arith, l)) in omega (arith, h)

pub power_above : (k : ℕ) → k < 2 ^ k
power_above zero = omega arith
power_above (suc k) = let h = power_above k in omega (arith, h)
