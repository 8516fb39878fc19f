-- ===== src/Bus/Client/Received.antt =====
-- What one client sends is what another polls.
use aimee_module_sandbox.Base.{
  ℕ, ◌≤◌, ◌<◌, Bool, true, false, not, List, [], ◌∷◌, ◌++◌, ◌≡◌, inl, inr, refl, arith, sym, ap,
  ◌∙◌, ◌==◌, if◌then◌else◌, length, take, drop, bit_and,
}
use mathlib.Core.Path.{subst}
use Prim.Native.Nat.{bit_or}
use mathlib.Core.List.{head-eq_of_cons-eq, tail-eq_of_cons-eq}
use aimee_module_sandbox.GoString.{Bytes}
use aimee_module_sandbox.Bus.Memory.{read_at}
use aimee_module_sandbox.Bus.Wire.{Frame, ok, hdr_len, header, decode}
use aimee_module_sandbox.Bus.Wire.RoundTrip.{IsSized}
use aimee_module_sandbox.Bus.Ring.{slot}
use aimee_module_sandbox.Bus.Ring.Attached.{IsRing}
use aimee_module_sandbox.Bus.Ring.Window.{contents}
use aimee_module_sandbox.Bus.Runtime.{Event}
use aimee_module_sandbox.Bus.Client.{Client, emitted, frame_for, emit, blank_frame, polled, poll}
use aimee_module_sandbox.Bus.Client.Emitting.{event_slot, decode-event_slot, emit-Leaves}
use aimee_module_sandbox.Bus.Client.Payload.{IsPattern, read_at-take, take_payload-frame}
use aimee_module_sandbox.Bus.Client.Polling.{
  IsPolling, bytes_from_tail, contents_head, poll_frame, length-bytes_from_tail,
}

read_at-event_slot :
    (f : Frame) (payload s : Bytes)
    → read_at (event_slot f payload s) hdr_len (length payload) ≡ payload
unfolding header
read_at-event_slot f payload s = front payload (drop (length payload) (drop hdr_len s))
  where
    front : (p r : Bytes) → take (length p) (p ++ r) ≡ p
    front [] r = refl
    front (x ∷ p) r = ap (◌∷◌ x) (front p r)

last_equal : (l : List Bytes) {a b : Bytes} → l ++ a ∷ [] ≡ l ++ b ∷ [] → a ≡ b
last_equal [] e = head-eq_of_cons-eq e
last_equal (x ∷ l) e = last_equal l (tail-eq_of_cons-eq e)

-- The polled event is the frame that was sent, and its payload.
poll-emit_frame :
    (c d : Client) (flags kind corr : ℕ) (payload s : Bytes) {c' : Client} (rest : List Bytes)
    → IsPattern flags
    → IsSized (frame_for c flags kind corr payload)
    → IsRing c.outbound
    → c.slot_size ≤ c.outbound.slot_size
    → c.outbound.slot_size < 4294967296
    → emit c flags kind corr payload ≡ (emitted, c')
    → contents c'.outbound ≡ contents c.outbound ++ s ∷ []
    → IsRing d.inbound
    → IsPolling d
    → d.slot_size ≡ d.inbound.slot_size
    → d.slot_size ≡ c.outbound.slot_size
    → contents d.inbound ≡ s ∷ rest
    → (poll d).0
      ≡ polled (record { frame = frame_for c flags kind corr payload; payload = payload })
poll-emit_frame c d flags kind corr payload s {c'} rest pattern_of sized v told small sent last w
      ready equal same filled =
    elim (emit-Leaves c flags kind corr payload v told sent) [
      | inl (unsent, kept) ↦ absurd (unsent refl)
      | inr (done, (s0, size, fits, valid, all, ring)) ↦
          let f = frame_for c flags kind corr payload in
          let ours : event_slot f payload s0 ≡ s =
            last_equal (contents c.outbound) (sym all ∙ last) in
          let known : decode s blank_frame ≡ (ok, f) =
            ap (λ b. decode b blank_frame) (sym ours)
            ∙ decode-event_slot f blank_frame payload s0 sized valid in
          let behind = bytes_from_tail d in
          let oldest = (contents_head d.inbound s rest filled).1 in
          let front : take d.inbound.slot_size behind ≡ event_slot f payload s0 =
            unfold slot in (oldest ∙ sym ours) in
          let read : read_at behind hdr_len (length payload) ≡ payload =
            sym (
              read_at-take behind d.inbound.slot_size hdr_len (length payload)
                (omega (arith, fits, size, same, equal)))
            ∙ ap (λ (b : Bytes). read_at b hdr_len (length payload)) front
            ∙ read_at-event_slot f payload s0 in
          poll_frame d s rest f w ready filled known
          ∙ take_payload-frame c flags kind corr payload d.slot_size behind pattern_of
              (omega (arith, fits, size, same)) (omega (arith, same, small))
              (omega (arith, equal, length-bytes_from_tail d w))
          ∙ ap (λ (b : Bytes). polled (record { frame = f; payload = b })) read
    ]

-- A frame of this pattern, kind, correlation and handle.
abbrev pub IsFrameOf : Client → ℕ → ℕ → ℕ → Frame → Type 0
IsFrameOf c flags kind corr f =
    (bit_and f.hdr_flags 254 ≡ flags)
    × (f.event_kind ≡ kind)
    × (f.correlation_id ≡ corr)
    × (f.src_handle ≡ c.handle)

-- The flags are one of a few numbers.
by_pattern :
    (P : ℕ → Type 0) (flags : ℕ)
    → IsPattern flags
    → P 4
    → P 8
    → P 16
    → P 136
    → P 144
    → P 32
    → P flags
by_pattern P flags (inl e) p4 p8 p16 p136 p144 p32 = subst P (sym e) p4
by_pattern P flags (inr (inl e)) p4 p8 p16 p136 p144 p32 = subst P (sym e) p8
by_pattern P flags (inr (inr (inl e))) p4 p8 p16 p136 p144 p32 = subst P (sym e) p16
by_pattern P flags (inr (inr (inr (inl e)))) p4 p8 p16 p136 p144 p32 = subst P (sym e) p136
by_pattern P flags (inr (inr (inr (inr (inl e))))) p4 p8 p16 p136 p144 p32 = subst P (sym e) p144
by_pattern P flags (inr (inr (inr (inr (inr e))))) p4 p8 p16 p136 p144 p32 = subst P (sym e) p32

frame_for-IsFrameOf :
    (c : Client) (flags kind corr : ℕ) (payload : Bytes)
    → IsPattern flags
    → IsFrameOf c flags kind corr (frame_for c flags kind corr payload)
unfolding frame_for
frame_for-IsFrameOf c flags kind corr payload pattern_of =
    (kept (not (length payload == 0)), refl, refl, refl)
  where
    kept : (inline : Bool) → bit_and (if inline then bit_or flags 1 else flags) 254 ≡ flags
    kept true =
        by_pattern (λ n. bit_and (bit_or n 1) 254 ≡ n) flags pattern_of refl refl refl refl refl
          refl
    kept false = by_pattern (λ n. bit_and n 254 ≡ n) flags pattern_of refl refl refl refl refl refl

frame_for-IsSized :
    (c : Client) (flags kind corr : ℕ) (payload : Bytes)
    → IsPattern flags
    → kind < 4294967296
    → corr < 18446744073709551616
    → c.handle < 4294967296
    → IsSized (frame_for c flags kind corr payload)
unfolding frame_for
frame_for-IsSized c flags kind corr payload pattern_of small_kind small_corr small_handle = (
  flag (not (length payload == 0)),
  omega arith,
  small_kind,
  omega arith,
  small_corr,
  omega arith,
  omega arith,
  ref (not (length payload == 0)),
  omega arith,
  small_handle,
  omega arith,
  omega arith,
)
  where
    flag : (inline : Bool) → (if inline then bit_or flags 1 else flags) < 65536
    flag true =
        by_pattern (λ n. bit_or n 1 < 65536) flags pattern_of (omega arith) (omega arith)
          (omega arith) (omega arith) (omega arith) (omega arith)
    flag false =
        by_pattern (λ n. n < 65536) flags pattern_of (omega arith) (omega arith) (omega arith)
          (omega arith) (omega arith) (omega arith)

    ref : (inline : Bool) → (if inline then hdr_len else 0) < 18446744073709551616
    ref true = omega arith
    ref false = omega arith

-- The slot that one client has sent, when it stands first in the inbound ring of another, is polled
-- as an event with the flags of the pattern, the kind, the correlation and the payload that were
-- sent, and the handle of the client that sent it. The flags are those of a publication, or of a
-- request or a reply with or without more to come, or of a cancellation; the kind and the handle
-- have 32 bits and the correlation 64; the slots of the two rings have one length, below 4 GiB,
-- which the clients were told; the second client is attached and has released its last event.
pub poll-emit :
    (c d : Client) (flags kind corr : ℕ) (payload s : Bytes) {c' : Client} (rest : List Bytes)
    → IsPattern flags
    → kind < 4294967296
    → corr < 18446744073709551616
    → c.handle < 4294967296
    → IsRing c.outbound
    → c.slot_size ≤ c.outbound.slot_size
    → c.outbound.slot_size < 4294967296
    → emit c flags kind corr payload ≡ (emitted, c')
    → contents c'.outbound ≡ contents c.outbound ++ s ∷ []
    → IsRing d.inbound
    → IsPolling d
    → d.slot_size ≡ d.inbound.slot_size
    → d.slot_size ≡ c.outbound.slot_size
    → contents d.inbound ≡ s ∷ rest
    → (e : Event) × ((poll d).0 ≡ polled e)
      × IsFrameOf c flags kind corr e.frame
      × (e.payload ≡ payload)
poll-emit c d flags kind corr payload s {c'} rest pattern_of small_kind small_corr small_handle v
      told small sent last w ready equal same filled =
    (
      record { frame = frame_for c flags kind corr payload; payload = payload },
      poll-emit_frame c d flags kind corr payload s rest pattern_of
          (frame_for-IsSized c flags kind corr payload pattern_of small_kind small_corr
            small_handle)
          v told small sent last w ready equal same filled,
      frame_for-IsFrameOf c flags kind corr payload pattern_of,
      refl,
    )
