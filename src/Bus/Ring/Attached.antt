-- ===== src/Bus/Ring/Attached.antt =====
-- The rings that `AttachRing` accepts.
use aimee_module_sandbox.Base.{
  ℕ, zero, suc, ◌+◌, ◌-◌, ◌*◌, ◌^◌, ◌≤◌, ◌<◌, false, not, Option, some, [], ◌∷◌, ◌≡◌, refl, arith,
  sym, ltb, ◌==◌, length, drop, bit_and, if_elim, All, All-drop,
}
use mathlib.Core.Path.{subst}
use mathlib.Core.Option.{some-injective}
use native.Mathlib.Nat.{one-le-pow, pow-le-pow_right}
use native.Mathlib.Decide.{dec_lt}
use aimee_module_sandbox.Base.Powers.{power_of_two}
use aimee_module_sandbox.GoString.{Bytes, IsByte}
use aimee_module_sandbox.Bus.LittleEndian.{get_le}
use aimee_module_sandbox.Bus.Ring.{
  Ring, ring_hdr_bytes, ring_magic, ring_of, bad_geometry, count, checked_ring, attach_ring,
}

-- A capacity of a power of two, a mask for it, slots behind the header and inside the mapping, and
-- counters of 64 bits that are at most the capacity apart.
pub record IsRing (r : Ring) : Type 0 where
  pub bits : ℕ
  pub few : bits ≤ 32
  pub power : r.capacity ≡ 2 ^ bits
  pub masked : r.mask ≡ 2 ^ bits - 1
  pub behind : r.slots_off ≡ ring_hdr_bytes
  pub sized : 0 < r.slot_size
  pub mapped : ring_hdr_bytes + r.slot_size * r.capacity ≤ length r.mem
  pub head_word : r.head < 18446744073709551616
  pub tail_word : r.tail < 18446744073709551616
  pub counted : count r ≤ r.capacity

-- Words read from bytes are in range.
get_le-lt : (n : ℕ) (s : Bytes) → All IsByte s → get_le n s < 256 ^ n
get_le-lt zero s h = omega arith
get_le-lt (suc n) [] h = omega (arith, one-le-pow (suc n) 256)
get_le-lt (suc n) (b ∷ s) h = omega (arith, get_le-lt n s h.1)

few_bits : (c v : ℕ) → v ≡ 2 ^ c → v < 4294967296 → c ≤ 32
few_bits c v e h = elim (dec_lt 32 c) [
  | yes many ↦
      absurd (omega (arith, pow-le-pow_right {n = 2} (omega arith) {i = 32} {j = c} (omega arith)))
  | no few ↦ omega arith
]

good_geometry :
    (r : Ring)
    → bad_geometry r ≡ false
    → (2 ≤ r.capacity)
      × (bit_and r.capacity (r.capacity - 1) ≡ 0)
      × (0 < r.slot_size)
      × (r.mask ≡ r.capacity - 1)
      × (r.slots_off ≡ ring_hdr_bytes)
unfolding bad_geometry
good_geometry r h = ground arith

ring_of_parts :
    (r : Ring)
    → r.capacity < 4294967296
    → r.head < 18446744073709551616
    → r.tail < 18446744073709551616
    → bad_geometry r ≡ false
    → r.slots_off + r.slot_size * r.capacity ≤ length r.mem
    → count r ≤ r.capacity
    → IsRing r
ring_of_parts r small h t good long counted =
    let (two, lone, sized, masked, behind) = good_geometry r good in
    let (c, power) = power_of_two r.capacity (omega arith) lone in
    record {
      bits = c;
      few = few_bits c r.capacity power small;
      power = power;
      masked = omega arith;
      behind = behind;
      sized = sized;
      mapped = omega arith;
      head_word = h;
      tail_word = t;
      counted = counted;
    }

checked_ring-IsRing :
    (r : Ring) {q : Ring}
    → r.capacity < 4294967296
    → r.head < 18446744073709551616
    → r.tail < 18446744073709551616
    → checked_ring r ≡ some q
    → IsRing q × (r ≡ q)
unfolding checked_ring
checked_ring-IsRing r {q} small h t =
    if_elim Goal (bad_geometry r) (λ b e. absurd (cc e))
      λ good.
        if_elim Goal (ltb (length r.mem) (r.slots_off + r.slot_size * r.capacity))
          (λ b e. absurd (cc e))
          λ long.
            if_elim Goal (ltb r.capacity (count r)) (λ b e. absurd (cc e))
              λ counted e.
                let same : r ≡ q = some-injective r q e in
                (
                  subst IsRing same (
                      ring_of_parts r small h t good (fits (length r.mem) _ long)
                        (fits r.capacity (count r) counted)),
                  same,
                )
  where
    Goal : Option Ring → Type 0
    Goal o = o ≡ some q → IsRing q × (r ≡ q)

    fits : (a b : ℕ) → ltb a b ≡ false → b ≤ a
    fits a b h = ground arith

-- A ring that attaches to mapped bytes is the ring of its header, with a capacity of a power of
-- two, its slots inside the mapping and behind the header, and counters at most the capacity apart.
pub attach_ring-IsRing :
    (mem : Bytes) {r : Ring}
    → All IsByte mem
    → attach_ring mem ≡ some r
    → IsRing r × (r ≡ ring_of mem)
unfolding attach_ring
attach_ring-IsRing mem {r} bytes =
    if_elim Goal (ltb (length mem) ring_hdr_bytes) (λ b e. absurd (cc e))
      λ long.
        if_elim Goal (not (get_le 4 mem == ring_magic)) (λ b e. absurd (cc e))
          λ magic e.
            let (valid, same) =
              checked_ring-IsRing (ring_of mem) (word 4 8 4294967296 refl)
                (word 8 64 18446744073709551616 refl) (word 8 128 18446744073709551616 refl) e in
            (valid, sym same)
  where
    Goal : Option Ring → Type 0
    Goal o = o ≡ some r → IsRing r × (r ≡ ring_of mem)

    word : (n k m : ℕ) → 256 ^ n ≡ m → get_le n (drop k mem) < m
    word n k m e = omega (arith, get_le-lt n (drop k mem) (All-drop IsByte k mem bytes))
