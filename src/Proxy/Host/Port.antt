-- ===== src/Proxy/Host/Port.antt =====
-- `parseProxyPort` against the value of a decimal numeral.
use aimee_module_sandbox.Base.{
  ℕ, ◌+◌, ◌-◌, ◌*◌, ◌≤◌, ◌<◌, some, [], ◌∷◌, ◌≡◌, ◌≢◌, refl, ap, arith, All, ◌↔◌,
}
use aimee_module_sandbox.GoString.{Bytes, rune_starts}
use aimee_module_sandbox.GoString.Runes.{rune_starts_ascii, rune_starts_visits_ascii}
use aimee_module_sandbox.Proxy.Host.{port_loop, parse_proxy_port}

abbrev pub IsDigit : ℕ → Type 0
IsDigit c = (b'0' ≤ c) × (c ≤ b'9')

-- The number that the digits behind a numeral of value `acc` make.
abbrev pub decimal : ℕ → Bytes → ℕ
decimal acc [] = acc
decimal acc (c ∷ s) = decimal (acc * 10 + (c - b'0')) s

decimal-le : (acc : ℕ) (s : Bytes) → acc ≤ decimal acc s
decimal-le acc [] = omega arith
decimal-le acc (c ∷ s) = omega (arith, decimal-le (acc * 10 + (c - b'0')) s)

port_loop_sound :
    (acc : ℕ) (s : Bytes) (p : ℕ)
    → acc ≤ 65535
    → port_loop acc s ≡ some p
    → All IsDigit s × (decimal acc s ≡ p) × (1 ≤ p) × (p ≤ 65535)
unfolding port_loop
port_loop_sound acc [] p h e = ground arith
port_loop_sound acc (c ∷ s) p h e = ground (arith, port_loop_sound (acc * 10 + (c - b'0')) s p)

port_loop_complete :
    (acc : ℕ) (s : Bytes)
    → All IsDigit s
    → 1 ≤ decimal acc s
    → decimal acc s ≤ 65535
    → port_loop acc s ≡ some (decimal acc s)
unfolding port_loop
port_loop_complete acc [] d lo hi = ground arith
port_loop_complete acc (c ∷ s) d lo hi = ground (
  arith,
  port_loop_complete (acc * 10 + (c - b'0')) s d.1 lo hi,
  decimal-le (acc * 10 + (c - b'0')) s,
)

digits_ascii : (s : Bytes) → All IsDigit s → All (λ b. b < 128) s
digits_ascii [] h = tt
digits_ascii (c ∷ s) h = (omega arith, digits_ascii s h.1)

nonempty_port : (c : ℕ) (s : Bytes) → parse_proxy_port (c ∷ s) ≡ port_loop 0 (rune_starts 0 (c ∷ s))
unfolding parse_proxy_port
nonempty_port c s = ground arith

-- A port is read exactly from a nonempty run of digits whose value is from 1 to 65535.
pub parse_proxy_port_iff :
    (s : Bytes) (p : ℕ)
    → (parse_proxy_port s ≡ some p)
      ↔ ((s ≢ []) × All IsDigit s × (decimal 0 s ≡ p) × (1 ≤ p) × (p ≤ 65535))
parse_proxy_port_iff [] p = (λ e. unfold parse_proxy_port in cc, λ h. absurd (h.0 refl))
parse_proxy_port_iff (c ∷ s) p = (
  λ e.
      let found =
        port_loop_sound 0 (rune_starts 0 (c ∷ s)) p (omega arith) (rw nonempty_port at e) in
      let all = rune_starts_visits_ascii (c ∷ s) (digits_ascii _ found.0) in
      (λ e. cc, rw all at found.0, rw all at found.1, found.2, found.3),
  λ h.
      rw (nonempty_port, rune_starts_ascii (c ∷ s) (digits_ascii (c ∷ s) h.1))
        (rw (port_loop_complete 0 (c ∷ s) h.1 (rw h.2 h.3) (rw h.2 h.4)) (ap some h.2)),
)
