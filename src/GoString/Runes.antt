-- ===== src/GoString/Runes.antt =====
-- The bytes that a loop over runes visits, against all bytes of the text.
use aimee_module_sandbox.Base.{
  ℕ, zero, suc, ◌-◌, ◌≤◌, ◌<◌, [], ◌∷◌, ◌≡◌, refl, ap, arith, length, All,
}
use aimee_module_sandbox.GoString.{Bytes, rune_width, rune_starts}

-- The first `n` bytes of `s` are there and are 0x80 or more.
abbrev pub SkipsHigh : ℕ → Bytes → Type 0
SkipsHigh zero s = Unit
SkipsHigh (suc n) [] = ⊥
SkipsHigh (suc n) (b ∷ s) = (128 ≤ b) × SkipsHigh n s

pub rune_width-SkipsHigh : (a : ℕ) (s : Bytes) → SkipsHigh (rune_width a s - 1) s
unfolding rune_width
rune_width-SkipsHigh a [] = ground arith
rune_width-SkipsHigh a (b ∷ []) = ground arith
rune_width-SkipsHigh a (b ∷ c ∷ []) = ground arith
rune_width-SkipsHigh a (b ∷ c ∷ d ∷ s) = ground arith

pub rune_width_ascii : (a : ℕ) (s : Bytes) → a < 128 → rune_width a s ≡ 1
unfolding rune_width
rune_width_ascii a s h = ground arith

-- Over ASCII text the loop visits every byte.
pub rune_starts_ascii : (s : Bytes) → All (λ b. b < 128) s → rune_starts 0 s ≡ s
unfolding rune_starts
rune_starts_ascii [] h = refl
rune_starts_ascii (a ∷ s) h = ground (arith, rune_width_ascii a s, rune_starts_ascii s)

-- A fact that holds of all high bytes holds of all bytes when it holds of those visited.
pub All-rune_starts {κ} :
    (P : ℕ → Type κ)
    → ((b : ℕ) → 128 ≤ b → P b)
    → (skip : ℕ) (s : Bytes) → SkipsHigh skip s
    → All P (rune_starts skip s)
    → All P s
unfolding rune_starts
All-rune_starts P high zero [] k h = tt
All-rune_starts P high (suc n) [] k h = absurd k
All-rune_starts P high (suc n) (b ∷ s) k h = (high b k.0, All-rune_starts P high n s k.1 h)
All-rune_starts P high zero (b ∷ s) k h =
    (h.0, All-rune_starts P high (rune_width b s - 1) s (rune_width-SkipsHigh b s) h.1)

-- The other way round there is nothing to assume.
pub rune_starts-All {κ} :
    (P : ℕ → Type κ) (skip : ℕ) (s : Bytes) → All P s → All P (rune_starts skip s)
unfolding rune_starts
rune_starts-All P skip [] h = tt
rune_starts-All P (suc n) (b ∷ s) h = rune_starts-All P n s h.1
rune_starts-All P zero (b ∷ s) h = (h.0, rune_starts-All P (rune_width b s - 1) s h.1)

pub length-rune_starts : (skip : ℕ) (s : Bytes) → length (rune_starts skip s) ≤ length s
unfolding rune_starts
length-rune_starts skip [] = omega arith
length-rune_starts (suc n) (b ∷ s) = omega (arith, length-rune_starts n s)
length-rune_starts zero (b ∷ s) = omega (arith, length-rune_starts (rune_width b s - 1) s)

-- Where all that is visited is ASCII, every byte is visited.
pub rune_starts_visits_ascii :
    (s : Bytes) → All (λ b. b < 128) (rune_starts 0 s) → rune_starts 0 s ≡ s
unfolding rune_starts
rune_starts_visits_ascii [] h = refl
rune_starts_visits_ascii (c ∷ s) h =
    let one : rune_width c s ≡ 1 = rune_width_ascii c s h.0 in
    let rest : All (λ b. b < 128) (rune_starts 0 s) = rw one at h.1 in
    rw one (ap (◌∷◌ c) (rune_starts_visits_ascii s rest))
