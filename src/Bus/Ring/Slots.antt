-- ===== src/Bus/Ring/Slots.antt =====
-- Where the slots of an attached ring lie, and what a write to one leaves of the others.
use aimee_module_sandbox.Base.{
  ℕ, ◌+◌, ◌*◌, ◌%◌, ◌^◌, ◌≤◌, ◌<◌, ◌≡◌, ◌≢◌, arith, sym, ap, ◌∙◌, length, bit_and, ◌⊎◌, inl, inr,
  some, All,
}
use native.Mathlib.Nat.{mul-le-mul_right, mod-lt, one-le-pow, mul_comm}
use native.Mathlib.Decide.{dec_lt}
use aimee_module_sandbox.Base.Bits.{bit_and_low}
use aimee_module_sandbox.GoString.{Bytes, IsByte}
use aimee_module_sandbox.Bus.Memory.{
  read_at, write_at, length-write_at, read_at-write_at, read_at-write_at_apart, length-read_at,
}
use aimee_module_sandbox.Bus.Ring.{
  Ring, ring_hdr_bytes, slot_offset, slot, store, count, ring_of, attach_ring,
}
use aimee_module_sandbox.Bus.Ring.Attached.{IsRing, attach_ring-IsRing}

-- The place of an index on the circle of slots.
place : {r : Ring} → IsRing r → (index : ℕ) → bit_and index r.mask ≡ index % r.capacity
place {r} v index =
    ap (λ (t : ℕ). bit_and index t) v.masked
    ∙ bit_and_low v.bits index
    ∙ ap (λ (t : ℕ). index % t) (sym v.power)

pub capacity_pos : {r : Ring} → IsRing r → 0 < r.capacity
capacity_pos v = omega (arith, v.power, one-le-pow v.bits 2)

pub slot_offset_lem :
    {r : Ring}
    → IsRing r
    → (index : ℕ) → slot_offset r index ≡ ring_hdr_bytes + index % r.capacity * r.slot_size
unfolding slot_offset
slot_offset_lem {r} v index =
    omega (arith, v.behind, ap (λ (t : ℕ). t * r.slot_size) (place v index))

-- Two different places do not overlap.
apart : (i j s : ℕ) → i < j → i * s + s ≤ j * s
apart i j s h = grind (arith, mul-le-mul_right s h)

-- A slot lies in the mapping, behind the header.
pub slot_in_mapping :
    {r : Ring}
    → IsRing r
    → (index : ℕ)
    → (ring_hdr_bytes ≤ slot_offset r index) × (slot_offset r index + r.slot_size ≤ length r.mem)
slot_in_mapping {r} v index =
    let inside =
      apart (index % r.capacity) r.capacity r.slot_size (mod-lt index (capacity_pos v)) in
    omega (arith, slot_offset_lem v index, v.mapped, mul_comm r.slot_size r.capacity)

-- Slots at different places do not overlap.
pub slots_apart :
    {r : Ring}
    → IsRing r
    → (i j : ℕ) → i % r.capacity ≢ j % r.capacity
    → (slot_offset r i + r.slot_size ≤ slot_offset r j)
      ⊎ (slot_offset r j + r.slot_size ≤ slot_offset r i)
slots_apart {r} v i j ne = elim (dec_lt (i % r.capacity) (j % r.capacity)) [
  | yes below ↦ inl (
      omega (
        arith,
        slot_offset_lem v i,
        slot_offset_lem v j,
        apart (i % r.capacity) (j % r.capacity) r.slot_size below,
      ))
  | no over ↦ inr (
      omega (
        arith,
        slot_offset_lem v i,
        slot_offset_lem v j,
        apart (j % r.capacity) (i % r.capacity) r.slot_size (omega arith),
      ))
]

pub length-slot : {r : Ring} → IsRing r → (index : ℕ) → length (slot r index) ≡ r.slot_size
unfolding slot
length-slot {r} v index =
    length-read_at r.mem (slot_offset r index) r.slot_size (slot_in_mapping v index).1

-- A slot that is filled holds what was written.
pub slot-store_self :
    {r : Ring} (w : Bytes) → IsRing r → length w ≡ r.slot_size → slot (store r w) r.head ≡ w
unfolding slot store slot_offset
slot-store_self {r} w v len =
    ap (λ (n : ℕ). read_at (write_at r.mem (slot_offset r r.head) w) (slot_offset r r.head) n)
      (sym len)
    ∙ read_at-write_at r.mem (slot_offset r r.head) w (omega (arith, (slot_in_mapping v r.head).1))

-- The slots at other places keep what they hold.
pub slot-store_other :
    {r : Ring} (w : Bytes) (index : ℕ)
    → IsRing r
    → length w ≤ r.slot_size
    → index % r.capacity ≢ r.head % r.capacity
    → slot (store r w) index ≡ slot r index
unfolding slot store slot_offset
slot-store_other {r} w index v len ne =
    read_at-write_at_apart r.mem (slot_offset r r.head) w (slot_offset r index) r.slot_size
      (elim (slots_apart v index r.head ne) [
        | inl before ↦ inl before
        | inr behind ↦ inr (omega arith)
      ])

-- Slots depend on an index by its place only.
pub slot_place :
    {r : Ring} (i j : ℕ) → IsRing r → i % r.capacity ≡ j % r.capacity → slot r i ≡ slot r j
unfolding slot
slot_place {r} i j v e =
    ap (λ (off : ℕ). read_at r.mem off r.slot_size)
      (slot_offset_lem v i
        ∙ ap (λ (p : ℕ). ring_hdr_bytes + p * r.slot_size) e
        ∙ sym (slot_offset_lem v j))

pub store-IsRing : {r : Ring} (w : Bytes) → IsRing r → IsRing (store r w)
unfolding store count
store-IsRing {r} w v = record {
  bits = v.bits;
  few = v.few;
  power = v.power;
  masked = v.masked;
  behind = v.behind;
  sized = v.sized;
  mapped = omega (arith, v.mapped, length-write_at r.mem (slot_offset r r.head) w);
  head_word = v.head_word;
  tail_word = v.tail_word;
  counted = v.counted;
}

-- Of the bytes of a mapping that attach as a ring, the slots at two different places lie inside the
-- mapping, behind its header of 192 bytes, and do not overlap; the ring has the fields of the
-- header, its capacity is a power of two, and it holds at most as many slots as it has.
pub attach_ring-slots :
    (mem : Bytes) {r : Ring} (i j : ℕ)
    → All IsByte mem
    → attach_ring mem ≡ some r
    → i % r.capacity ≢ j % r.capacity
    → (r ≡ ring_of mem)
      × ((bits : ℕ) × (r.capacity ≡ 2 ^ bits))
      × (count r ≤ r.capacity)
      × ((ring_hdr_bytes ≤ slot_offset r i) × (slot_offset r i + r.slot_size ≤ length mem))
      × ((slot_offset r i + r.slot_size ≤ slot_offset r j)
          ⊎ (slot_offset r j + r.slot_size ≤ slot_offset r i))
attach_ring-slots mem {r} i j bytes e ne =
    let (v, same) = attach_ring-IsRing mem bytes e in
    let (front, back) = slot_in_mapping v i in
    (
      same,
      (v.bits, v.power),
      v.counted,
      (front, omega (arith, back, ap (λ (q : Ring). length q.mem) same)),
      slots_apart v i j ne,
    )
