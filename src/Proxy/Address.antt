-- ===== src/Proxy/Address.antt =====
-- `proxyPortAllowed`, `ipv4Blocked` and `proxyIPBlocked` of
-- server-go/modules/sandbox/proxy_policy.go, with the parts of package `net` that they call.
pub mod Ranges
pub mod Embedded
use aimee_module_sandbox.Base.{
  ℕ, zero, suc, ◌+◌, ◌-◌, ◌*◌, ◌%◌, ◌^◌, ◌<◌, Bool, true, false, not, ◌&&◌, ◌||◌, Option, none,
  some, List, [], ◌∷◌, ◌++◌, ltb, leb, ◌==◌, if◌then◌else◌, length, take, drop, get_or, bit_and,
}
use aimee_module_sandbox.GoString.{Bytes, slice, equal}
use Prim.Native.Nat.{bit_or}

unfoldable pub proxy_port_allowed : ℕ → Bool
proxy_port_allowed port = port == 80 || port == 443

-- A network and its prefix length.
abbrev pub Range : Type 0
Range = ℕ × ℕ

-- `^uint32(0) << (32 - bits)`
unfoldable pub mask : ℕ → ℕ
mask bits = (2 ^ 32 - 1) * 2 ^ (32 - bits) % 2 ^ 32

unfoldable pub in_range : ℕ → Range → Bool
unfolding mask
in_range address (network, bits) = bit_and address (mask bits) == network

unfoldable pub in_ranges : ℕ → List Range → Bool
in_ranges address [] = false
in_ranges address (blocked ∷ ranges) = in_range address blocked || in_ranges address ranges

abbrev pub blocked_ranges : List Range
blocked_ranges =
    (0x00000000, 8)
    ∷ (0x0a000000, 8)
    ∷ (0x64400000, 10)
    ∷ (0x7f000000, 8)
    ∷ (0xa9fe0000, 16)
    ∷ (0xac100000, 12)
    ∷ (0xc0000000, 24)
    ∷ (0xc0000200, 24)
    ∷ (0xc0a80000, 16)
    ∷ (0xc6120000, 15)
    ∷ (0xc6336400, 24)
    ∷ (0xcb007100, 24)
    ∷ (0xe0000000, 4)
    ∷ (0xf0000000, 4)
    ∷ []

unfoldable pub ipv4_blocked : ℕ → Bool
unfolding in_ranges
ipv4_blocked address = in_ranges address blocked_ranges

-- `binary.BigEndian.Uint32` of a slice of four bytes.
abbrev pub big_endian_u32 : Bytes → ℕ
big_endian_u32 b =
    get_or b 0 0 * 2 ^ 24 + get_or b 1 0 * 2 ^ 16 + get_or b 2 0 * 2 ^ 8 + get_or b 3 0

-- The loops that ask whether every byte of a slice is zero.
unfoldable pub all_zero : Bytes → Bool
all_zero [] = true
all_zero (b ∷ bs) = b == 0 && all_zero bs

-- `net.IP.To4`
unfoldable pub to4 : Bytes → Option Bytes
unfolding all_zero
to4 ip =
    if length ip == 4
    then some ip
    else if length ip == 16
        && all_zero (slice ip 0 10)
        && get_or ip 10 0 == 0xff
        && get_or ip 11 0 == 0xff
    then some (slice ip 12 16)
    else none

abbrev pub v4_in_v6_prefix : Bytes
v4_in_v6_prefix = 0 ∷ 0 ∷ 0 ∷ 0 ∷ 0 ∷ 0 ∷ 0 ∷ 0 ∷ 0 ∷ 0 ∷ 0xff ∷ 0xff ∷ []

-- `net.IP.To16`
unfoldable pub to16 : Bytes → Option Bytes
to16 ip =
    if length ip == 4
    then some (v4_in_v6_prefix ++ ip)
    else if length ip == 16
    then some ip
    else none

abbrev pub nat64 : Bytes
nat64 = 0x00 ∷ 0x64 ∷ 0xff ∷ 0x9b ∷ 0 ∷ 0 ∷ 0 ∷ 0 ∷ 0 ∷ 0 ∷ 0 ∷ 0 ∷ []

-- What `proxyIPBlocked` returns after the transition mechanisms.
unfoldable pub ipv6_range_blocked : Bytes → Bool
unfolding all_zero
ipv6_range_blocked v6 =
    if all_zero (slice v6 0 15) && (get_or v6 15 0 == 0 || get_or v6 15 0 == 1)
    then true
    else bit_and (get_or v6 0 0) 0xfe == 0xfc
      || (get_or v6 0 0 == 0xfe && bit_and (get_or v6 1 0) 0xc0 == 0x80)
      || get_or v6 0 0 == 0xff

-- `v6[12]|v6[13]|v6[14]|v6[15]`
abbrev low_bits_or : Bytes → ℕ
low_bits_or v6 =
    bit_or (bit_or (bit_or (get_or v6 12 0) (get_or v6 13 0)) (get_or v6 14 0)) (get_or v6 15 0)

-- `proxyIPBlocked` on what `To16` returned.
unfoldable pub ipv6_blocked : Bytes → Bool
unfolding all_zero equal
ipv6_blocked v6 =
    let compat = all_zero (slice v6 0 12) in
    if (compat && not (low_bits_or v6 == 0)) || equal (slice v6 0 12) nat64
    then ipv4_blocked (big_endian_u32 (slice v6 12 16))
    else if get_or v6 0 0 == 0x20 && get_or v6 1 0 == 0x02
    then ipv4_blocked (big_endian_u32 (slice v6 2 6))
    else ipv6_range_blocked v6

abbrev blocked_v6 : Option Bytes → Bool
blocked_v6 none = true
blocked_v6 (some v6) = ipv6_blocked v6

abbrev blocked_v4_or : Option Bytes → Bytes → Bool
blocked_v4_or (some v4) ip = ipv4_blocked (big_endian_u32 v4)
blocked_v4_or none ip = blocked_v6 (to16 ip)

-- `none` is the nil of `net.ParseIP`.
unfoldable pub proxy_ip_blocked : Option Bytes → Bool
unfolding to4 to16
proxy_ip_blocked none = true
proxy_ip_blocked (some ip) = blocked_v4_or (to4 ip) ip
