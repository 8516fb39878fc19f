-- ===== src/Bus/Region.antt =====
-- The mapped regions of server-go/bus/region.go, and the layout of a queue pair that client.go
-- computes. A region is the bytes that are mapped.
use aimee_module_sandbox.Base.{
  ℕ, ◌+◌, ◌*◌, ◌/◌, Bool, not, ◌||◌, Option, none, some, ltb, leb, ◌==◌, if◌then◌else◌, if_elim,
  length, drop, ◌≡◌, refl, All, All-drop,
}
use mathlib.Core.Option.{some-injective}
use mathlib.Core.Path.{subst}
use aimee_module_sandbox.GoString.{Bytes, IsByte}
use aimee_module_sandbox.Bus.LittleEndian.{put_le, get_le}
use aimee_module_sandbox.Bus.Memory.{write_at}
use aimee_module_sandbox.Bus.Ring.{Ring, attach_ring, ring_hdr_bytes}
use aimee_module_sandbox.Bus.Ring.Attached.{IsRing, attach_ring-IsRing}

abbrev pub ctl_magic : ℕ
ctl_magic = 1280590658

abbrev pub ctl_bytes : ℕ
ctl_bytes = 96

-- `Control`
pub record Control : Type 0 where
  pub mem : Bytes

-- `SlotSize`, `InlineBudget`, `QueueCapacity`, `ArenaSize` and `Epoch`.
abbrev pub slot_size_of : Control → ℕ
slot_size_of c = get_le 4 (drop 16 c.mem)

abbrev pub inline_budget_of : Control → ℕ
inline_budget_of c = get_le 4 (drop 20 c.mem)

abbrev pub queue_capacity_of : Control → ℕ
queue_capacity_of c = get_le 4 (drop 24 c.mem)

abbrev pub arena_size_of : Control → ℕ
arena_size_of c = get_le 8 (drop 32 c.mem)

abbrev pub epoch_of : Control → ℕ
epoch_of c = get_le 8 (drop 40 c.mem)

-- `AttachControl`
unfoldable pub attach_control : Bytes → Option Control
attach_control mem =
    let c : Control = record { mem = mem } in
    if ltb (length mem) ctl_bytes
    then none
    else if not (get_le 4 mem == ctl_magic)
    then none
    else if not (get_le 4 (drop 4 mem) == 1) || not (get_le 4 (drop 8 mem) == 1)
    then none
    else if slot_size_of c == 0 || ltb (slot_size_of c) (inline_budget_of c) || arena_size_of c == 0
    then none
    else some c

abbrev pub qp_magic : ℕ
qp_magic = 1380991569

abbrev pub qp_bytes : ℕ
qp_bytes = 96

-- `QueuePair`
pub record QueuePair : Type 0 where
  pub mem : Bytes
  pub inbound : Ring
  pub outbound : Ring

abbrev pub pair_of : Bytes → Option Ring → Option Ring → Option QueuePair
pair_of mem none o = none
pair_of mem (some i) none = none
pair_of mem (some i) (some o) = some (record { mem = mem; inbound = i; outbound = o })

-- `AttachQueuePair`
unfoldable pub attach_queue_pair : Bytes → Option QueuePair
attach_queue_pair mem =
    let in_off = get_le 4 (drop 24 mem) in
    let out_off = get_le 4 (drop 28 mem) in
    if ltb (length mem) qp_bytes
    then none
    else if not (get_le 4 mem == qp_magic)
    then none
    else if leb (length mem) in_off || leb (length mem) out_off || in_off == out_off
    then none
    else pair_of mem (attach_ring (drop in_off mem)) (attach_ring (drop out_off mem))

-- `ControlLost`
unfoldable pub control_lost : QueuePair → Bool
control_lost q = not (get_le 4 (drop 20 q.mem) == 0)

-- `SetHeartbeat`
unfoldable pub set_heartbeat : ℕ → QueuePair → QueuePair
set_heartbeat now q = record q { mem = write_at q.mem 32 (put_le 8 now) }

-- `align64` and `qpairBytes` of client.go: the offsets of the two rings and the length of a region.
abbrev pub align64 : ℕ → ℕ
align64 n = (n + 63) / 64 * 64

unfoldable pub qpair_bytes : ℕ → ℕ → ℕ × ℕ × ℕ
qpair_bytes slot_size capacity =
    let ring = ring_hdr_bytes + slot_size * capacity in
    let in_off = align64 qp_bytes in
    let out_off = align64 (in_off + ring) in (in_off, out_off, out_off + ring)

-- The rings of a pair that attaches are rings of the region, behind its two offsets.
pub attach_queue_pair-IsRing :
    (mem : Bytes) {q : QueuePair}
    → All IsByte mem
    → attach_queue_pair mem ≡ some q
    → IsRing q.inbound × IsRing q.outbound
unfolding attach_queue_pair
attach_queue_pair-IsRing mem {q} bytes =
    if_elim Goal (ltb (length mem) qp_bytes) (λ b e. absurd (cc e))
      λ long.
        if_elim Goal (not (get_le 4 mem == qp_magic)) (λ b e. absurd (cc e))
          λ magic.
            if_elim Goal
              (leb (length mem) (get_le 4 (drop 24 mem))
                || leb (length mem) (get_le 4 (drop 28 mem))
                || get_le 4 (drop 24 mem) == get_le 4 (drop 28 mem))
              (λ b e. absurd (cc e))
              λ inside.
                rings (get_le 4 (drop 24 mem)) (get_le 4 (drop 28 mem))
                  (attach_ring (drop (get_le 4 (drop 24 mem)) mem))
                  (attach_ring (drop (get_le 4 (drop 28 mem)) mem)) refl refl
  where
    Goal : Option QueuePair → Type 0
    Goal o = o ≡ some q → IsRing q.inbound × IsRing q.outbound

    rings :
        (i o : ℕ) (x y : Option Ring)
        → attach_ring (drop i mem) ≡ x
        → attach_ring (drop o mem) ≡ y
        → pair_of mem x y ≡ some q
        → IsRing q.inbound × IsRing q.outbound
    rings i o none y h k e = absurd (cc e)
    rings i o (some a) none h k e = absurd (cc e)
    rings i o (some a) (some b) h k e =
        let same = some-injective _ q e in
        (
          subst (λ (p : QueuePair). IsRing p.inbound) same
              (attach_ring-IsRing (drop i mem) (All-drop IsByte i mem bytes) h).0,
          subst (λ (p : QueuePair). IsRing p.outbound) same
              (attach_ring-IsRing (drop o mem) (All-drop IsByte o mem bytes) k).0,
        )
