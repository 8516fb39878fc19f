-- ===== src/Samples/Rings.antt =====
-- The theorems on the rings at a mapping with two slots of two bytes.
use aimee_module_sandbox.Base.{
  ℕ, ◌+◌, ◌^◌, ◌≤◌, true, some, [], ◌∷◌, ◌++◌, ◌≡◌, ◌⊎◌, refl, arith, length, All,
}
use aimee_module_sandbox.GoString.{Bytes, IsByte}
use aimee_module_sandbox.Bus.LittleEndian.{put_le}
use aimee_module_sandbox.Bus.Ring.{
  Ring, ring_magic, ring_hdr_bytes, ring_of, bad_geometry, checked_ring, attach_ring, slot,
  slot_offset, store, count, produce_begin, produce_commit, consume_begin,
}
use aimee_module_sandbox.Bus.Ring.Attached.{IsRing, attach_ring-IsRing}
use aimee_module_sandbox.Bus.Ring.Slots.{attach_ring-slots}
use aimee_module_sandbox.Bus.Ring.Window.{contents}
use aimee_module_sandbox.Bus.Ring.Delivery.{
  System, Step, begin_produce, fill, commit_produce, begin_consume, start, Reach, here, next,
  delivered_in_order, held_slot_kept,
}
use aimee_module_sandbox.Bus.Ring.Queue.{QueueStep, commits, Step-QueueStep}

-- One slot is filled; the counters are about to wrap around.
abbrev mapping : Bytes
mapping =
    put_le 4 ring_magic
    ++ put_le 4 2
    ++ put_le 4 2
    ++ put_le 4 1
    ++ put_le 4 ring_hdr_bytes
    ++ put_le 44 0
    ++ put_le 8 0
    ++ put_le 56 0
    ++ put_le 8 18446744073709551615
    ++ put_le 56 0
    ++ 1 ∷ 2 ∷ 3 ∷ 4 ∷ []

abbrev ring : Ring
ring = ring_of mapping

mapping-IsByte : All IsByte mapping
mapping-IsByte = grind arith

ring_attached : attach_ring mapping ≡ some ring
unfolding attach_ring checked_ring bad_geometry count
ring_attached = refl

attach_ring-slots_example :
    (ring ≡ ring_of mapping)
    × ((bits : ℕ) × (ring.capacity ≡ 2 ^ bits))
    × (count ring ≤ ring.capacity)
    × ((ring_hdr_bytes ≤ slot_offset ring 4)
        × (slot_offset ring 4 + ring.slot_size ≤ length mapping))
    × ((slot_offset ring 4 + ring.slot_size ≤ slot_offset ring 7)
        ⊎ (slot_offset ring 7 + ring.slot_size ≤ slot_offset ring 4))
attach_ring-slots_example = attach_ring-slots mapping 4 7 mapping-IsByte ring_attached (omega arith)

ring-IsRing : IsRing ring
ring-IsRing = (attach_ring-IsRing mapping mapping-IsByte ring_attached).0

-- The consumer takes the filled slot and holds it while the producer fills the other one.
abbrev reading : System
reading = record (start ring) { reading = true }

abbrev both : System
both = record reading { writing = true }

abbrev filled : System
filled = record both { ring = store ring (8 ∷ 9 ∷ []) }

begins : Step (start ring) reading
unfolding consume_begin slot slot_offset
begins = begin_consume (start ring) (3 ∷ 4 ∷ []) refl

produces : Step reading both
unfolding produce_begin slot slot_offset count
produces = begin_produce reading (1 ∷ 2 ∷ []) refl

fills : Step both filled
fills = fill both (8 ∷ 9 ∷ []) refl (omega arith)

both-Reach : Reach ring both
both-Reach = next (next here begins) produces

delivered_in_order_example :
    IsRing filled.ring × (filled.received ++ contents filled.ring ≡ filled.sent)
delivered_in_order_example = delivered_in_order ring-IsRing (next both-Reach fills)

-- The filled slot is committed.
Step-QueueStep_example :
    QueueStep filled.ring.capacity
      (commits (slot filled.ring filled.ring.head))
      (contents filled.ring)
      (contents (produce_commit filled.ring))
Step-QueueStep_example =
    Step-QueueStep ring-IsRing (next both-Reach fills) (commit_produce filled refl)

held_slot_kept_example : slot filled.ring filled.ring.tail ≡ slot both.ring both.ring.tail
held_slot_kept_example = held_slot_kept ring-IsRing both-Reach fills refl refl
