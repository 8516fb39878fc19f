-- ===== src/Bus/LittleEndian.antt =====
-- Numbers in the little-endian form of encoding/binary, which the headers of server-go/bus are
-- made of.
use aimee_module_sandbox.Base.{
  ℕ, zero, suc, ◌+◌, ◌*◌, ◌/◌, ◌%◌, ◌^◌, ◌≤◌, ◌<◌, [], ◌∷◌, ◌++◌, ◌≡◌, refl, arith, sym, ap, length,
  drop, ◌∙◌, All, All-drop, length-drop,
}
use aimee_module_sandbox.GoString.{Bytes, IsByte}

-- `binary.LittleEndian.PutUint…` and `…Uint…` for numbers of `n` bytes.
abbrev pub put_le : ℕ → ℕ → Bytes
put_le zero v = []
put_le (suc n) v = v % 256 ∷ put_le n (v / 256)

abbrev pub get_le : ℕ → Bytes → ℕ
get_le zero s = 0
get_le (suc n) [] = 0
get_le (suc n) (b ∷ s) = b + 256 * get_le n s

pub get_le-put_le : (n v : ℕ) (rest : Bytes) → v < 256 ^ n → get_le n (put_le n v ++ rest) ≡ v
get_le-put_le zero v rest h = omega arith
get_le-put_le (suc n) v rest h =
    let ih = get_le-put_le n (v / 256) rest (div_lt v (256 ^ n) (omega arith)) in omega (arith, ih)
  where
    div_lt : (v k : ℕ) → v < k * 256 → v / 256 < k
    div_lt v k h = omega arith

-- A bound that a power of 256 evaluates to.
pub to_bound : {v k m : ℕ} → v < k → k ≡ m → v < m
to_bound h e = omega arith

put_le-get_le :
    (n : ℕ) (s : Bytes) → All IsByte s → n ≤ length s → put_le n (get_le n s) ++ drop n s ≡ s
put_le-get_le zero s h k = refl
put_le-get_le (suc n) [] h k = absurd (omega arith)
put_le-get_le (suc n) (b ∷ s) h k =
    let low : (b + 256 * get_le n s) % 256 ≡ b = low_digit b (get_le n s) h.0 in
    let high : (b + 256 * get_le n s) / 256 ≡ get_le n s = high_digits b (get_le n s) h.0 in
    rw (low, high) (ap (◌∷◌ b) (put_le-get_le n s h.1 (omega arith)))
  where
    low_digit : (b v : ℕ) → b < 256 → (b + 256 * v) % 256 ≡ b
    low_digit b v h = omega arith

    high_digits : (b v : ℕ) → b < 256 → (b + 256 * v) / 256 ≡ v
    high_digits b v h = omega arith

drop_nil : (n : ℕ) → drop {A = ℕ} n [] ≡ []
drop_nil zero = refl
drop_nil (suc n) = refl

drop-drop : (n k m : ℕ) (s : Bytes) → k + n ≡ m → drop n (drop k s) ≡ drop m s
drop-drop n zero m s e = let same : n ≡ m = omega arith in ap (λ j. drop j s) same
drop-drop n (suc k) m [] e = drop_nil n ∙ sym (drop_nil m)
drop-drop n (suc k) zero (x ∷ s) e = absurd (omega arith)
drop-drop n (suc k) (suc m) (x ∷ s) e = drop-drop n k m s (omega arith)

-- The field of `n` bytes at offset `k`, before what follows it.
pub field_at :
    (n k m : ℕ) (s : Bytes)
    → All IsByte s
    → m ≤ length s
    → k + n ≡ m
    → put_le n (get_le n (drop k s)) ++ drop m s ≡ drop k s
field_at n k m s h long e =
    ap (λ t. put_le n (get_le n (drop k s)) ++ t) (sym (drop-drop n k m s e))
    ∙ put_le-get_le n (drop k s) (All-drop IsByte k s h) (omega (arith, length-drop k s))
