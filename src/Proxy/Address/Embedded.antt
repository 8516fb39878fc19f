-- ===== src/Proxy/Address/Embedded.antt =====
-- `proxyIPBlocked` on the encodings of an IPv4 address, and on all other IPv6 addresses.
use aimee_module_sandbox.Base.{
  ℕ, zero, suc, ◌+◌, ◌≤◌, ◌<◌, Bool, true, false, ◌&&◌, not, [], ◌∷◌, ◌++◌, ◌≡◌, refl, arith, leb,
  ◌==◌, ◌⊎◌, ◌≢◌, ◌↔◌, bit_and, length, some, none,
}
use aimee_module_sandbox.Base.Bits.{
  bit_or-pos_left, bit_or-pos_right, holds_below, holds_below_sound,
}
use Prim.Native.Nat.{bit_or}
use aimee_module_sandbox.GoString.{Bytes}
use aimee_module_sandbox.Proxy.Address.{
  ipv4_blocked, ipv6_blocked, ipv6_range_blocked, proxy_ip_blocked, big_endian_u32, in_range,
  in_ranges,
}

-- One IPv4 address in the forms that a resolver can hand over: four bytes, IPv4-mapped,
-- IPv4-compatible, NAT64, and 6to4 with any subnet and interface.
abbrev pub mapped : Bytes → Bytes
mapped v4 = 0 ∷ 0 ∷ 0 ∷ 0 ∷ 0 ∷ 0 ∷ 0 ∷ 0 ∷ 0 ∷ 0 ∷ 0xff ∷ 0xff ∷ v4

abbrev pub compatible : Bytes → Bytes
compatible v4 = 0 ∷ 0 ∷ 0 ∷ 0 ∷ 0 ∷ 0 ∷ 0 ∷ 0 ∷ 0 ∷ 0 ∷ 0 ∷ 0 ∷ v4

abbrev pub translated : Bytes → Bytes
translated v4 = 0x00 ∷ 0x64 ∷ 0xff ∷ 0x9b ∷ 0 ∷ 0 ∷ 0 ∷ 0 ∷ 0 ∷ 0 ∷ 0 ∷ 0 ∷ v4

abbrev pub six_to_four : Bytes → Bytes → Bytes
six_to_four v4 rest = 0x20 ∷ 0x02 ∷ v4 ++ rest

module _ (a b c d : ℕ) where
  abbrev quad : Bytes
  quad = a ∷ b ∷ c ∷ d ∷ []

  mapped_lem : proxy_ip_blocked (some (mapped quad)) ≡ ipv4_blocked (big_endian_u32 quad)
  unfolding proxy_ip_blocked
  mapped_lem = refl

  four_lem : proxy_ip_blocked (some quad) ≡ ipv4_blocked (big_endian_u32 quad)
  unfolding proxy_ip_blocked
  four_lem = refl

  translated_lem : proxy_ip_blocked (some (translated quad)) ≡ ipv4_blocked (big_endian_u32 quad)
  unfolding proxy_ip_blocked ipv6_blocked
  translated_lem = ground arith

  -- With a nonzero byte the address counts as embedded.
  compatible_nonzero :
      0 < a + b + c + d
      → proxy_ip_blocked (some (compatible quad)) ≡ ipv4_blocked (big_endian_u32 quad)
  unfolding proxy_ip_blocked ipv6_blocked
  compatible_nonzero h = ground (
    arith,
    bit_or-pos_left a b,
    bit_or-pos_right a b,
    bit_or-pos_left (bit_or a b) c,
    bit_or-pos_right (bit_or a b) c,
    bit_or-pos_left (bit_or (bit_or a b) c) d,
    bit_or-pos_right (bit_or (bit_or a b) c) d,
  )

  six_to_four_lem :
      (rest : Bytes)
      → length rest ≡ 10
      → proxy_ip_blocked (some (six_to_four quad rest)) ≡ ipv4_blocked (big_endian_u32 quad)
  unfolding proxy_ip_blocked ipv6_blocked
  six_to_four_lem rest h = ground arith

compatible_zero :
    proxy_ip_blocked (some (compatible (0 ∷ 0 ∷ 0 ∷ 0 ∷ [])))
    ≡ ipv4_blocked (big_endian_u32 (0 ∷ 0 ∷ 0 ∷ 0 ∷ []))
unfolding proxy_ip_blocked ipv6_blocked ipv6_range_blocked ipv4_blocked in_ranges in_range
compatible_zero = refl

compatible_lem :
    (a b c d : ℕ)
    → proxy_ip_blocked (some (compatible (a ∷ b ∷ c ∷ d ∷ [])))
      ≡ ipv4_blocked (big_endian_u32 (a ∷ b ∷ c ∷ d ∷ []))
compatible_lem zero zero zero zero = compatible_zero
compatible_lem zero zero zero (suc d) = compatible_nonzero 0 0 0 (suc d) (omega arith)
compatible_lem zero zero (suc c) d = compatible_nonzero 0 0 (suc c) d (omega arith)
compatible_lem zero (suc b) c d = compatible_nonzero 0 (suc b) c d (omega arith)
compatible_lem (suc a) b c d = compatible_nonzero (suc a) b c d (omega arith)

-- The five forms of one IPv4 address, the 6to4 form with any ten bytes behind it, get the verdict
-- that `ipv4Blocked` gives on the address.
pub proxy_ip_blocked_embedded :
    (a b c d : ℕ) (rest : Bytes)
    → length rest ≡ 10
    → let v4 = a ∷ b ∷ c ∷ d ∷ [] in
      let verdict = ipv4_blocked (big_endian_u32 v4) in
      (proxy_ip_blocked (some v4) ≡ verdict)
      × (proxy_ip_blocked (some (mapped v4)) ≡ verdict)
      × (proxy_ip_blocked (some (compatible v4)) ≡ verdict)
      × (proxy_ip_blocked (some (translated v4)) ≡ verdict)
      × (proxy_ip_blocked (some (six_to_four v4 rest)) ≡ verdict)
proxy_ip_blocked_embedded a b c d rest h = (
  four_lem a b c d,
  mapped_lem a b c d,
  compatible_lem a b c d,
  translated_lem a b c d,
  six_to_four_lem a b c d rest h,
)

same : Bool → Bool → Bool
same true b = b
same false b = not b

same→eq : (p q : Bool) → same p q ≡ true → p ≡ q
unfolding same
same→eq p q h = ground arith

unique_local_table :
    holds_below 256 (λ v. same (bit_and v 0xfe == 0xfc) (leb 252 v && leb v 253)) ≡ true
unfolding holds_below same
unique_local_table = refl

link_local_table :
    holds_below 256 (λ v. same (bit_and v 0xc0 == 0x80) (leb 128 v && leb v 191)) ≡ true
unfolding holds_below same
link_local_table = refl

unique_local : (v : ℕ) → v < 256 → (bit_and v 0xfe == 0xfc) ≡ (leb 252 v && leb v 253)
unique_local v h = same→eq _ _ (holds_below_sound 256 _ v unique_local_table h)

link_local : (v : ℕ) → v < 256 → (bit_and v 0xc0 == 0x80) ≡ (leb 128 v && leb v 191)
link_local v h = same→eq _ _ (holds_below_sound 256 _ v link_local_table h)

-- An IPv6 address that does not start with a zero byte and is not 6to4 is refused exactly when it
-- is in fc00::/7, fe80::/10 or ff00::/8.
pub proxy_ip_blocked_native :
    (x y : ℕ) (rest : Bytes)
    → x < 256
    → y < 256
    → length rest ≡ 14
    → 0 < x
    → (x ≢ 0x20) ⊎ (y ≢ 0x02)
    → (proxy_ip_blocked (some (x ∷ y ∷ rest)) ≡ true)
      ↔ ((x ≡ 0xfc) ⊎ (x ≡ 0xfd) ⊎ ((x ≡ 0xfe) × (0x80 ≤ y) × (y ≤ 0xbf)) ⊎ (x ≡ 0xff))
unfolding proxy_ip_blocked ipv6_blocked ipv6_range_blocked
proxy_ip_blocked_native x y rest hx hy len pos out =
    ground (arith, unique_local x hx, link_local y hy)

-- An address of no legal length, and the nil of a text that is no address, are refused.
pub proxy_ip_blocked_malformed :
    (proxy_ip_blocked none ≡ true)
    × ((ip : Bytes) → length ip ≢ 4 → length ip ≢ 16 → proxy_ip_blocked (some ip) ≡ true)
unfolding proxy_ip_blocked
proxy_ip_blocked_malformed = (refl, λ ip h k. ground arith)
