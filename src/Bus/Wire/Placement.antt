-- ===== src/Bus/Wire/Placement.antt =====
-- `CheckPlacement` against the place of a payload in a slot or an arena.
use aimee_module_sandbox.Base.{ℕ, ◌+◌, ◌≤◌, ◌<◌, ◌≡◌, ◌≢◌, refl, arith, bit_and, ◌↔◌, ◌⊎◌}
use aimee_module_sandbox.Bus.Wire.{
  Frame, Result, ok, err_short, err_magic, err_version, err_flags, err_payload_len, err_correlation,
  err_reserved, hdr_len, validate, and_then, placement, check_placement,
}

-- There is no payload, or it lies in the slot behind the header without a wrap-around, or it is no
-- longer than the arena.
abbrev pub IsPlaced : Frame → ℕ → ℕ → Type 0
IsPlaced f slot_size arena_size =
    (f.payload_len ≡ 0)
    ⊎ ((bit_and f.hdr_flags 1 ≢ 0)
        × (hdr_len ≤ f.payload_ref)
        × (f.payload_ref + f.payload_len ≤ slot_size))
    ⊎ ((bit_and f.hdr_flags 1 ≡ 0) × (f.payload_len ≤ arena_size))

placement_iff :
    (f : Frame) (slot_size arena_size : ℕ)
    → f.payload_ref < 18446744073709551616
    → f.payload_len < 4294967296
    → slot_size < 4294967296
    → (placement f slot_size arena_size ≡ ok) ↔ IsPlaced f slot_size arena_size
unfolding placement
placement_iff f slot_size arena_size ref_width len_width slot_width = ground arith

and_then_ok : (r q : Result) → (and_then r q ≡ ok) ↔ ((r ≡ ok) × (q ≡ ok))
and_then_ok ok q = (λ e. (refl, e), λ h. h.1)
and_then_ok err_short q = (λ e. absurd (cc e), λ h. absurd (cc h.0))
and_then_ok err_magic q = (λ e. absurd (cc e), λ h. absurd (cc h.0))
and_then_ok err_version q = (λ e. absurd (cc e), λ h. absurd (cc h.0))
and_then_ok err_flags q = (λ e. absurd (cc e), λ h. absurd (cc h.0))
and_then_ok err_payload_len q = (λ e. absurd (cc e), λ h. absurd (cc h.0))
and_then_ok err_correlation q = (λ e. absurd (cc e), λ h. absurd (cc h.0))
and_then_ok err_reserved q = (λ e. absurd (cc e), λ h. absurd (cc h.0))

-- For a frame and a slot whose fields are within their widths, the check passes exactly where the
-- rules accept the frame and its payload is empty, lies in the slot behind the header without a
-- wrap-around of the 64-bit sum, or is no longer than the arena.
pub check_placement_iff :
    (f : Frame) (slot_size arena_size : ℕ)
    → f.payload_ref < 18446744073709551616
    → f.payload_len < 4294967296
    → slot_size < 4294967296
    → (check_placement f slot_size arena_size ≡ ok)
      ↔ ((validate f ≡ ok) × IsPlaced f slot_size arena_size)
unfolding check_placement
check_placement_iff f slot_size arena_size ref_width len_width slot_width =
    let both = and_then_ok (validate f) (placement f slot_size arena_size) in
    let placed = placement_iff f slot_size arena_size ref_width len_width slot_width in
    (λ e. let h = both.0 e in (h.0, placed.0 h.1), λ h. both.1 (h.0, placed.1 h.1))
