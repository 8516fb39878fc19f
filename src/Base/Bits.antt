-- ===== src/Base/Bits.antt =====
-- `&` on words as arithmetic: the law of the lowest digit, low masks and high masks, at every width.
use Prim.Native.Nat.{ℕ, zero, suc, ◌+◌, ◌-◌, ◌*◌, ◌/◌, ◌%◌, ◌^◌, ◌≤◌, ◌<◌, min, max}
use Prim.Native.Nat.{bit_and, digits, bit_and-bitwise, bit_or, bit_or-bitwise}
use mathlib.Core.Path.{◌≡◌, refl, ap}
use mathlib.Core.Bool.{Bool, true, ◌&&◌}
use native.Mathlib.Nat.{pow-suc, one-le-pow, div-add-mod}
use native.Mathlib.Omega.{arith}

abbrev conj : ℕ → ℕ → ℕ → ℕ
conj fuel a b = digits (λ rest. zero) min fuel a b

-- Any fuel from the number on gives the same digits.
conj_enough : (n m a b : ℕ) → a ≤ n → a ≤ m → conj n a b ≡ conj m a b
conj_enough n m zero b p q = both_zero n m b
  where
    both_zero : (n m b : ℕ) → conj n 0 b ≡ conj m 0 b
    both_zero zero zero b = refl
    both_zero zero (suc m) b = refl
    both_zero (suc n) zero b = refl
    both_zero (suc n) (suc m) b = refl
conj_enough zero m (suc a) b p q = absurd (omega arith)
conj_enough (suc n) zero (suc a) b p q = absurd (omega arith)
conj_enough (suc n) (suc m) (suc a) b p q =
    omega (arith, conj_enough n m (suc a / 2) (b / 2) (omega arith) (omega arith))

zero-bit_and : (b : ℕ) → bit_and 0 b ≡ 0
zero-bit_and b = bit_and-bitwise 0 b

pub bit_and_digit : (a b : ℕ) → bit_and a b ≡ bit_and (a / 2) (b / 2) * 2 + min (a % 2) (b % 2)
bit_and_digit zero b = omega (arith, zero-bit_and b, zero-bit_and (b / 2))
bit_and_digit (suc a) b = omega (
  arith,
  bit_and-bitwise (suc a) b,
  bit_and-bitwise (suc a / 2) (b / 2),
  conj_enough a (suc a / 2) (suc a / 2) (b / 2) (omega arith) (omega arith),
)

bit_and_zero_below : (n a : ℕ) → a ≤ n → bit_and a 0 ≡ 0
bit_and_zero_below n zero h = refl
bit_and_zero_below zero (suc a) h = absurd (omega arith)
bit_and_zero_below (suc n) (suc a) h =
    omega (arith, bit_and_digit (suc a) 0, bit_and_zero_below n (suc a / 2) (omega arith))

pub bit_and-zero : (a : ℕ) → bit_and a 0 ≡ 0
bit_and-zero a = bit_and_zero_below a a (omega arith)

times_pow : (q k : ℕ) → q * 2 ^ suc k ≡ 2 * (q * 2 ^ k)
times_pow q k = omega (arith, ap (λ (t : ℕ). q * t) (pow-suc 2 k))

mod_double : (w a : ℕ) → 0 < w → a % (2 * w) ≡ 2 * (a / 2 % w) + a % 2
mod_double w a h = grind (arith, div-add-mod)

-- `a & (2^k - 1)` is the remainder.
pub bit_and_low : (k a : ℕ) → bit_and a (2 ^ k - 1) ≡ a % 2 ^ k
bit_and_low zero a = omega (arith, bit_and-zero a)
bit_and_low (suc k) a = ground (
  arith,
  bit_and_digit a (2 ^ suc k - 1),
  pow-suc 2 k,
  one-le-pow k 2,
  bit_and_low k (a / 2),
  mod_double (2 ^ k) a,
)

-- A mask shifted left keeps the high part: `(q·2^k + r) & (m·2^k)` is `(q & m)·2^k`.
pub bit_and_shifted :
    (k q r m : ℕ) → r < 2 ^ k → bit_and (q * 2 ^ k + r) (m * 2 ^ k) ≡ bit_and q m * 2 ^ k
bit_and_shifted zero q r m h = ground arith
bit_and_shifted (suc k) q r m h = ground (
  arith,
  bit_and_digit (q * 2 ^ suc k + r) (m * 2 ^ suc k),
  times_pow q k,
  times_pow m k,
  times_pow (bit_and q m) k,
  bit_and_shifted k q (r / 2) m (omega (arith, pow-suc 2 k)),
)

zero-bit_or : (b : ℕ) → bit_or 0 b ≡ b
zero-bit_or b = bit_or-bitwise 0 b

disj_positive : (fuel a b : ℕ) → a ≤ fuel → 0 < a → 0 < digits (λ rest. rest) max fuel a b
disj_positive fuel zero b h p = absurd (omega arith)
disj_positive zero (suc a) b h p = absurd (omega arith)
disj_positive (suc fuel) (suc a) b h p = ground (arith, disj_positive fuel (suc a / 2) (b / 2))

-- An or of words is zero only where both are.
pub bit_or-pos_left : (a b : ℕ) → 0 < a → 0 < bit_or a b
bit_or-pos_left a b h = rw (bit_or-bitwise a b) (disj_positive a a b (omega arith) h)

disj_positive_right : (fuel a b : ℕ) → a ≤ fuel → 0 < b → 0 < digits (λ rest. rest) max fuel a b
disj_positive_right zero zero b h p = p
disj_positive_right (suc fuel) zero b h p = p
disj_positive_right zero (suc a) b h p = absurd (omega arith)
disj_positive_right (suc fuel) (suc a) b h p =
    ground (arith, disj_positive_right fuel (suc a / 2) (b / 2))

pub bit_or-pos_right : (a b : ℕ) → 0 < b → 0 < bit_or a b
bit_or-pos_right a b h = rw (bit_or-bitwise a b) (disj_positive_right a a b (omega arith) h)

-- Over a small range a test is checked at every value.
unfoldable pub holds_below : ℕ → (ℕ → Bool) → Bool
holds_below zero p = true
holds_below (suc n) p = p n && holds_below n p

pub holds_below_sound : (n : ℕ) (p : ℕ → Bool) (x : ℕ) → holds_below n p ≡ true → x < n → p x ≡ true
unfolding holds_below
holds_below_sound zero p x h lt = absurd (omega arith)
holds_below_sound (suc n) p x h lt = ground (arith, holds_below_sound n p x)
