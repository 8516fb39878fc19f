-- ===== src/Proxy/Address/Ranges.antt =====
-- The IPv4 ranges of `ipv4Blocked` as intervals of addresses.
use aimee_module_sandbox.Base.{
  ℕ, ◌+◌, ◌-◌, ◌*◌, ◌/◌, ◌%◌, ◌^◌, ◌≤◌, ◌<◌, true, List, [], ◌∷◌, ◌≡◌, refl, ap, arith, ◌==◌, ◌⊎◌,
  ◌↔◌, bit_and, ==_iff, sym, ◌∙◌,
}
use aimee_module_sandbox.Base.Bits.{bit_and_low, bit_and_shifted}
use native.Mathlib.Nat.{
  div-lt_iff_lt-mul, mod-eq_of_lt, one-le-pow, mod-lt, add_comm, mod-add-div', div-eq_of_lt-le,
}
use aimee_module_sandbox.Proxy.Address.{mask, in_range, in_ranges, ipv4_blocked}

-- `a.b.c.d`
abbrev pub dotted : ℕ → ℕ → ℕ → ℕ → ℕ
dotted a b c d = a * 2 ^ 24 + b * 2 ^ 16 + c * 2 ^ 8 + d

abbrev pub Between : ℕ → ℕ → ℕ → Type 0
Between lo hi a = (lo ≤ a) × (a ≤ hi)

-- With `k` host bits the mask clears the low `k` bits.
masked : (k m a : ℕ) → a < 2 ^ m * 2 ^ k → bit_and a ((2 ^ m - 1) * 2 ^ k) ≡ a / 2 ^ k * 2 ^ k
masked k m a h = ground (
  arith,
  bit_and_shifted k (a / 2 ^ k) (a % 2 ^ k) (2 ^ m - 1) low,
  ◌∙◌ {A = ℕ} (bit_and_low m (a / 2 ^ k)) (mod-eq_of_lt ((div-lt_iff_lt-mul pos).1 h)),
  ◌∙◌ {A = ℕ} (add_comm (a / 2 ^ k * 2 ^ k) (a % 2 ^ k)) (mod-add-div' a (2 ^ k)),
)
  where
    pos : 0 < 2 ^ k
    pos = one-le-pow k 2 (omega arith)

    low : a % 2 ^ k < 2 ^ k
    low = mod-lt a pos

block :
    (a q size : ℕ)
    → 0 < size
    → (a / size * size ≡ q * size) ↔ Between (q * size) (q * size + size - 1) a
block a q size pos = (
  λ e. omega (arith, mod-add-div' a size, mod-lt a pos),
  λ b. ap (λ (t : ℕ). t * size) (div-eq_of_lt-le {k = q} size (grind (arith, b.0)) (grind arith)),
)

-- A test of `ipv4Blocked` on the network `q·2^k` with `m` network bits.
in_range_iff :
    (k m q a : ℕ)
    → mask m ≡ (2 ^ m - 1) * 2 ^ k
    → a < 2 ^ m * 2 ^ k
    → (in_range a (q * 2 ^ k, m) ≡ true) ↔ Between (q * 2 ^ k) (q * 2 ^ k + 2 ^ k - 1) a
in_range_iff k m q a e h = (
  λ t. (block a q (2 ^ k) pos).0 (sym here ∙ (==_iff _ _).0 (opened t)),
  λ b. closed ((==_iff _ _).1 (here ∙ (block a q (2 ^ k) pos).1 b)),
)
  where
    pos : 0 < 2 ^ k
    pos = one-le-pow k 2 (omega arith)

    here : bit_and a (mask m) ≡ a / 2 ^ k * 2 ^ k
    here = rw e (masked k m a h)

    opened : in_range a (q * 2 ^ k, m) ≡ true → (bit_and a (mask m) == q * 2 ^ k) ≡ true
    opened t = unfold in_range in t

    closed : (bit_and a (mask m) == q * 2 ^ k) ≡ true → in_range a (q * 2 ^ k, m) ≡ true
    closed t = unfold in_range in t

-- `a` lies in one of the intervals.
abbrev pub InSome : List (ℕ × ℕ) → ℕ → Type 0
InSome [] a = ⊥
InSome ((lo, hi) ∷ rest) a = Between lo hi a ⊎ InSome rest a

-- The addresses that a sandbox must not reach, first and last of each block.
abbrev pub non_public : List (ℕ × ℕ)
non_public =
    (dotted 0 0 0 0, dotted 0 255 255 255)
    ∷ (dotted 10 0 0 0, dotted 10 255 255 255)
    ∷ (dotted 100 64 0 0, dotted 100 127 255 255)
    ∷ (dotted 127 0 0 0, dotted 127 255 255 255)
    ∷ (dotted 169 254 0 0, dotted 169 254 255 255)
    ∷ (dotted 172 16 0 0, dotted 172 31 255 255)
    ∷ (dotted 192 0 0 0, dotted 192 0 0 255)
    ∷ (dotted 192 0 2 0, dotted 192 0 2 255)
    ∷ (dotted 192 168 0 0, dotted 192 168 255 255)
    ∷ (dotted 198 18 0 0, dotted 198 19 255 255)
    ∷ (dotted 198 51 100 0, dotted 198 51 100 255)
    ∷ (dotted 203 0 113 0, dotted 203 0 113 255)
    ∷ (dotted 224 0 0 0, dotted 255 255 255 255)
    ∷ []

-- An address is refused exactly when it lies in one of the non-public blocks.
pub ipv4_blocked-InSome : (a : ℕ) → a < 2 ^ 32 → (ipv4_blocked a ≡ true) ↔ InSome non_public a
unfolding ipv4_blocked in_ranges mask
ipv4_blocked-InSome a h = ground (
  arith,
  in_range_iff 24 8 0 a refl h,
  in_range_iff 24 8 10 a refl h,
  in_range_iff 22 10 401 a refl h,
  in_range_iff 24 8 127 a refl h,
  in_range_iff 16 16 0xa9fe a refl h,
  in_range_iff 20 12 0xac1 a refl h,
  in_range_iff 8 24 0xc00000 a refl h,
  in_range_iff 8 24 0xc00002 a refl h,
  in_range_iff 16 16 0xc0a8 a refl h,
  in_range_iff 17 15 0x6309 a refl h,
  in_range_iff 8 24 0xc63364 a refl h,
  in_range_iff 8 24 0xcb0071 a refl h,
  in_range_iff 28 4 14 a refl h,
  in_range_iff 28 4 15 a refl h,
)
