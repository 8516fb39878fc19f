-- ===== src/Bus/Ring.antt =====
-- The single-producer, single-consumer ring of server-go/bus/ring.go. The two counters lie in the
-- mapping, in front of the slots; they are fields here, since nothing else writes those bytes. The
-- producer and the consumer write through the slice of a slot: `store` is that write.
pub mod Attached
pub mod Slots
pub mod Window
pub mod Delivery
pub mod Queue
use aimee_module_sandbox.Base.{
  ℕ, zero, suc, ◌+◌, ◌-◌, ◌*◌, ◌%◌, Bool, true, false, not, ◌&&◌, ◌||◌, Option, none, some, ltb,
  leb, ◌==◌, if◌then◌else◌, length, drop, bit_and,
}
use aimee_module_sandbox.GoString.{Bytes}
use aimee_module_sandbox.Bus.LittleEndian.{get_le}
use aimee_module_sandbox.Bus.Memory.{read_at, write_at}

abbrev pub ring_magic : ℕ
ring_magic = 1196312914

abbrev pub ring_hdr_bytes : ℕ
ring_hdr_bytes = 192

-- `uint64` arithmetic
abbrev pub sub_word : ℕ → ℕ → ℕ
sub_word a b = (a + 18446744073709551616 - b) % 18446744073709551616

abbrev pub next_word : ℕ → ℕ
next_word a = (a + 1) % 18446744073709551616

pub record Ring : Type 0 where
  pub mem : Bytes
  pub slot_size : ℕ
  pub capacity : ℕ
  pub mask : ℕ
  pub slots_off : ℕ
  pub head : ℕ
  pub tail : ℕ

-- The ring that the header of a mapping describes.
abbrev pub ring_of : Bytes → Ring
ring_of mem = record {
  mem = mem;
  slot_size = get_le 4 (drop 4 mem);
  capacity = get_le 4 (drop 8 mem);
  mask = get_le 4 (drop 12 mem);
  slots_off = get_le 4 (drop 16 mem);
  head = get_le 8 (drop 64 mem);
  tail = get_le 8 (drop 128 mem);
}

-- The test of the geometry in the header.
unfoldable pub bad_geometry : Ring → Bool
bad_geometry r =
    ltb r.capacity 2
    || not (bit_and r.capacity (r.capacity - 1) == 0)
    || r.slot_size == 0
    || not (r.mask == r.capacity - 1)
    || not (r.slots_off == ring_hdr_bytes)

-- `Ring.Count`
unfoldable pub count : Ring → ℕ
count r = sub_word r.head r.tail

-- What `AttachRing` checks behind the magic. The sum does not overflow an `int`: both factors are
-- of 32 bits, and the capacity is a power of two.
unfoldable pub checked_ring : Ring → Option Ring
unfolding bad_geometry count
checked_ring r =
    if bad_geometry r
    then none
    else if ltb (length r.mem) (r.slots_off + r.slot_size * r.capacity)
    then none
    else if ltb r.capacity (count r)
    then none
    else some r

-- `AttachRing`
unfoldable pub attach_ring : Bytes → Option Ring
attach_ring mem =
    if ltb (length mem) ring_hdr_bytes
    then none
    else if not (get_le 4 mem == ring_magic)
    then none
    else checked_ring (ring_of mem)

-- `Ring.slot`: where a slot lies, and its bytes.
unfoldable pub slot_offset : Ring → ℕ → ℕ
slot_offset r index = r.slots_off + bit_and index r.mask * r.slot_size

unfoldable pub slot : Ring → ℕ → Bytes
slot r index = read_at r.mem (slot_offset r index) r.slot_size

-- `ProduceBegin`: the slot, or none where the ring is full.
unfoldable pub produce_begin : Ring → Option Bytes
unfolding count
produce_begin r = if leb r.capacity (count r) then none else some (slot r r.head)

-- A write of `w` at the front of the slot that `ProduceBegin` returned.
unfoldable pub store : Ring → Bytes → Ring
store r w = record r { mem = write_at r.mem (slot_offset r r.head) w }

unfoldable pub produce_commit : Ring → Ring
produce_commit r = record r { head = next_word r.head }

-- `ConsumeBegin`: the oldest slot, or none where the ring is empty.
unfoldable pub consume_begin : Ring → Option Bytes
consume_begin r = if r.head == r.tail then none else some (slot r r.tail)

unfoldable pub consume_commit : Ring → Ring
consume_commit r = record r { tail = next_word r.tail }
