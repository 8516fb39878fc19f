-- ===== src/Base/Powers.antt =====
-- Powers of two, the test `v & (v - 1) == 0`, and remainders by them.
use Prim.Native.Nat.{ℕ, zero, suc, ◌+◌, ◌-◌, ◌*◌, ◌/◌, ◌%◌, ◌^◌, ◌≤◌, ◌<◌, bit_and}
use mathlib.Core.Path.{◌≡◌, ap, ◌∙◌}
use mathlib.Core.Logic.{◌≢◌, ◌⊎◌, inl, inr}
use native.Mathlib.Nat.{mod-lt, pow-suc, mod-mod_of_dvd, mod-eq_of_lt, mod-eq-sub-mod, mod-add-mod}
use native.Mathlib.Decide.{dec_lt}
use native.Mathlib.Omega.{arith}
use aimee_module_sandbox.Base.Bits.{bit_and_digit}

bit_and_self_below : (n v : ℕ) → v ≤ n → bit_and v v ≡ v
bit_and_self_below n zero h = bit_and_digit 0 0
bit_and_self_below zero (suc v) h = absurd (omega arith)
bit_and_self_below (suc n) (suc v) h =
    omega (arith, bit_and_digit (suc v) (suc v), bit_and_self_below n (suc v / 2) (omega arith))

parity : (v : ℕ) → (v % 2 ≡ 0) ⊎ (v % 2 ≡ 1)
parity v = ground arith

halved : (v : ℕ) → 0 < v → v % 2 ≡ 0 → bit_and v (v - 1) ≡ 0 → bit_and (v / 2) (v / 2 - 1) ≡ 0
halved v p even e =
    let same : v / 2 - 1 ≡ (v - 1) / 2 = omega arith in
    ap (λ (t : ℕ). bit_and (v / 2) t) same ∙ omega (arith, bit_and_digit v (v - 1))

odd_power : (v : ℕ) → v % 2 ≡ 1 → bit_and v (v - 1) ≡ 0 → v ≡ 2 ^ 0
odd_power v odd e =
    let same : (v - 1) / 2 ≡ v / 2 = omega arith in
    let whole = ap (λ (t : ℕ). bit_and (v / 2) t) same in
    omega (arith, bit_and_digit v (v - 1), bit_and_self_below (v / 2) (v / 2) (omega arith))

power_below : (n v : ℕ) → v ≤ n → 0 < v → bit_and v (v - 1) ≡ 0 → (c : ℕ) × (v ≡ 2 ^ c)
power_below zero v h p e = absurd (omega arith)
power_below (suc n) v h p e = elim (parity v) [
  | inl even ↦
      let (c, half) = power_below n (v / 2) (omega arith) (omega arith) (halved v p even e) in
      (suc c, omega (arith, pow-suc 2 c))
  | inr odd ↦ (0, odd_power v odd e)
]

pub power_of_two : (v : ℕ) → 0 < v → bit_and v (v - 1) ≡ 0 → (c : ℕ) × (v ≡ 2 ^ c)
power_of_two v h e = power_below v v (omega arith) h e

-- The sum of exponents, at the base two.
pow_add : (a b : ℕ) → 2 ^ (a + b) ≡ 2 ^ a * 2 ^ b
pow_add zero b = let same : 2 ^ (0 + b) ≡ 2 ^ b = ap (λ (t : ℕ). 2 ^ t) (omega arith) in omega arith
pow_add (suc a) b =
    let up : 2 ^ (suc a + b) ≡ 2 ^ suc (a + b) = ap (λ (t : ℕ). 2 ^ t) (omega arith) in
    let down = ap (λ (t : ℕ). t * 2 ^ b) (pow-suc 2 a) in
    grind (arith, pow-suc 2 (a + b), pow_add a b, up, down)

-- A counter that wraps at 2^64 has the same low bits.
pub mod_word : (c a : ℕ) → c ≤ 64 → a % 2 ^ 64 % 2 ^ c ≡ a % 2 ^ c
mod_word c a h =
    let split : 2 ^ 64 ≡ 2 ^ c * 2 ^ (64 - c) =
      ap (λ (t : ℕ). 2 ^ t) {x = 64} {y = c + (64 - c)} (omega arith) ∙ pow_add c (64 - c) in
    mod-mod_of_dvd (2 ^ c) a ∣ (2 ^ (64 - c), split) ∣₁

-- Fewer than `m` steps round a circle of `m` places do not come back to the start.
pub add-mod-ne : (m a k : ℕ) → suc k < m → (a + suc k) % m ≢ a % m
add-mod-ne m a k h e = go (a % m) (mod-lt a (omega arith)) (mod-add-mod a m (suc k) ∙ e)
  where
    go : (r : ℕ) → r < m → (r + suc k) % m ≡ r → ⊥
    go r small q = elim (dec_lt (r + suc k) m) [
      | yes below ↦ omega (arith, mod-eq_of_lt below)
      | no over ↦ omega (
        arith,
        mod-eq-sub-mod {n = r + suc k} {m = m} (omega arith),
        mod-eq_of_lt {n = r + suc k - m} {m = m} (omega arith),
      )
    ]

pub add_pos-mod-ne : (m a n : ℕ) → 0 < n → n < m → (a + n) % m ≢ a % m
add_pos-mod-ne m a zero h room = absurd (omega arith)
add_pos-mod-ne m a (suc k) h room = add-mod-ne m a k room
