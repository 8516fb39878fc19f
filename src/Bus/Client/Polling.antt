-- ===== src/Bus/Client/Polling.antt =====
-- What `Poll` returns of the slots of the inbound ring.
use aimee_module_sandbox.Base.{
  ℕ, zero, suc, ◌+◌, ◌≤◌, ◌<◌, Bool, true, false, not, ◌&&◌, List, ◌∷◌, ◌≡◌, ◌≢◌, ◌↔◌, refl, arith,
  sym, ap, ◌∙◌, ◌==◌, if_elim, length, length-drop, drop, bit_and,
}
use mathlib.Core.List.{head-eq_of_cons-eq}
use aimee_module_sandbox.GoString.{Bytes}
use aimee_module_sandbox.Bus.Wire.{Frame, ok, decode}
use aimee_module_sandbox.Bus.Ring.{Ring, slot, slot_offset, count, consume_begin}
use aimee_module_sandbox.Bus.Ring.Attached.{IsRing}
use aimee_module_sandbox.Bus.Ring.Slots.{slot_in_mapping}
use aimee_module_sandbox.Bus.Ring.Window.{window, contents, consume_begin_lem}
use aimee_module_sandbox.Bus.Client.{
  Client, epoch_changed, blank_frame, Polled, panicked, take_payload, poll_decoded, poll_slot,
  release, poll,
}
use aimee_module_sandbox.Bus.Client.Payload.{take_payload-panics}

-- The client is attached, the host has not restarted, and the last event has been released.
abbrev pub IsPolling : Client → Type 0
IsPolling d = (d.attached ≡ true) × (d.epoch ≡ d.attached_epoch) × (d.pending_read ≡ false)

-- The bytes of the mapping from the oldest slot on.
abbrev pub bytes_from_tail : Client → Bytes
bytes_from_tail d = drop (slot_offset d.inbound d.inbound.tail) d.inbound.mem

pub contents_head :
    (r : Ring) (s : Bytes) (rest : List Bytes)
    → contents r ≡ s ∷ rest
    → (0 < count r) × (slot r r.tail ≡ s)
contents_head r s rest = go (count r)
  where
    go : (n : ℕ) → window r r.tail n ≡ s ∷ rest → (0 < n) × (slot r r.tail ≡ s)
    go zero e = absurd (cc e)
    go (suc n) e = (omega arith, head-eq_of_cons-eq e)

-- A poll that finds a slot which decodes.
pub poll_frame :
    (d : Client) (s : Bytes) (rest : List Bytes) (f : Frame)
    → IsRing d.inbound
    → IsPolling d
    → contents d.inbound ≡ s ∷ rest
    → decode s blank_frame ≡ (ok, f)
    → (poll d).0 ≡ take_payload d.slot_size (bytes_from_tail d) f
unfolding poll epoch_changed
poll_frame d s rest f v (attached, current, free) filled known =
    let (some_left, oldest) = contents_head d.inbound s rest filled in
    if_elim Goal (not d.attached) (λ t. absurd (unattached d.attached attached t))
      λ a.
        if_elim Goal (d.attached && not (d.epoch == d.attached_epoch))
          (λ t. absurd (stale d.attached d.epoch d.attached_epoch current t))
          λ b.
            ap (λ (c : Client). (poll_slot c (consume_begin c.inbound)).0) kept
            ∙ ap (λ o. (poll_slot d o).0) ((consume_begin_lem v s).1 (some_left, oldest))
            ∙ ap (λ r. (poll_decoded d (bytes_from_tail d) r).0) known
  where
    Goal : Polled × Client → Type 0
    Goal o = o.0 ≡ take_payload d.slot_size (bytes_from_tail d) f

    unattached : (b : Bool) → b ≡ true → not b ≡ true → ⊥
    unattached b h k = ground arith

    stale : (b : Bool) (x y : ℕ) → x ≡ y → (b && not (x == y)) ≡ true → ⊥
    stale b x y h k = ground arith

    kept : release d ≡ d
    kept =
        if_elim (λ (c : Client). c ≡ d) d.pending_read (λ t. absurd (cc (sym t ∙ free)))
          (λ no. refl)

pub length-bytes_from_tail :
    (d : Client) → IsRing d.inbound → d.inbound.slot_size ≤ length (bytes_from_tail d)
length-bytes_from_tail d v = omega (
  arith,
  length-drop (slot_offset d.inbound d.inbound.tail) d.inbound.mem,
  (slot_in_mapping v d.inbound.tail).1,
)

-- A poll that finds a frame which decodes panics exactly where the frame announces a payload in its
-- slot whose end, reference and length together, passes 2^64 and so comes before its beginning,
-- and within the slot. The slots of the ring are at least as long as the client was told.
pub poll-panics_iff :
    (d : Client) (s : Bytes) (rest : List Bytes) (f : Frame)
    → IsRing d.inbound
    → IsPolling d
    → d.slot_size ≤ d.inbound.slot_size
    → contents d.inbound ≡ s ∷ rest
    → decode s blank_frame ≡ (ok, f)
    → f.payload_ref < 18446744073709551616
    → f.payload_len < 4294967296
    → ((poll d).0 ≡ panicked) ↔ (
        (bit_and f.hdr_flags 1 ≢ 0)
        × (0 < f.payload_len)
        × (18446744073709551616 ≤ f.payload_ref + f.payload_len)
        × (f.payload_ref + f.payload_len ≤ 18446744073709551616 + d.slot_size))
poll-panics_iff d s rest f v ready same filled known ref len =
    let found = poll_frame d s rest f v ready filled known in
    let panics =
      take_payload-panics d.slot_size (bytes_from_tail d) f
        (omega (arith, same, length-bytes_from_tail d v)) ref len in
    (λ e. panics.0 (sym found ∙ e), λ h. found ∙ panics.1 h)
