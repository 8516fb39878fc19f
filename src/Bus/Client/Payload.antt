-- ===== src/Bus/Client/Payload.antt =====
-- The payload that `Poll` cuts out of a slot.
use aimee_module_sandbox.Base.{
  ℕ, zero, suc, ◌+◌, ◌-◌, ◌%◌, ◌≤◌, ◌<◌, true, false, not, ◌&&◌, ◌||◌, [], ◌∷◌, ◌≡◌, ◌≢◌, ◌⊎◌, ◌↔◌,
  inl, inr, refl, arith, ap, ◌∙◌, ltb, leb, ◌==◌, if◌then◌else◌, if_elim, length, take, bit_and,
}
use Prim.Native.Nat.{bit_or}
use aimee_module_sandbox.GoString.{Bytes}
use aimee_module_sandbox.Bus.Memory.{read_at}
use aimee_module_sandbox.Bus.Wire.{Frame, hdr_len}
use aimee_module_sandbox.Bus.Client.{
  Client, frame_for, Polled, panicked, polled, payload_slice, take_payload,
}

-- The flag, the reference, the length and the room for which the slice of the payload is not one.
abbrev pub Wraps : ℕ → ℕ → ℕ → ℕ → Type 0
Wraps flag ref len size =
    (flag ≢ 0)
    × (0 < len)
    × (18446744073709551616 ≤ ref + len)
    × (ref + len ≤ 18446744073709551616 + size)

pub take_payload-panics :
    (size : ℕ) (behind : Bytes) (f : Frame)
    → size ≤ length behind
    → f.payload_ref < 18446744073709551616
    → f.payload_len < 4294967296
    → (take_payload size behind f ≡ panicked)
      ↔ Wraps (bit_and f.hdr_flags 1) f.payload_ref f.payload_len size
unfolding take_payload payload_slice
take_payload-panics size behind f room ref len =
    let end = (f.payload_ref + f.payload_len) % 18446744073709551616 in
    if_elim Goal (not (bit_and f.hdr_flags 1 == 0) && (ltb 0 f.payload_len && leb end size))
      (λ taken.
        if_elim Goal (ltb end f.payload_ref || ltb (length behind) end)
          (λ bad. (
            λ e.
                wraps (bit_and f.hdr_flags 1) f.payload_ref f.payload_len (length behind) room ref
                  len taken bad,
            λ h. refl,
          ))
          (λ fine. (
            λ e. absurd (cc e),
            λ h. absurd (
                whole (bit_and f.hdr_flags 1) f.payload_ref f.payload_len (length behind) ref len h
                  fine),
          )))
      (λ left. (
        λ e. absurd (cc e),
        λ h. absurd (inline (bit_and f.hdr_flags 1) f.payload_ref f.payload_len ref len h left),
      ))
  where
    Goal : Polled → Type 0
    Goal o = (o ≡ panicked) ↔ Wraps (bit_and f.hdr_flags 1) f.payload_ref f.payload_len size

    wraps :
        (flag ref len n : ℕ)
        → size ≤ n
        → ref < 18446744073709551616
        → len < 4294967296
        → (not (flag == 0) && (ltb 0 len && leb ((ref + len) % 18446744073709551616) size)) ≡ true
        → (ltb ((ref + len) % 18446744073709551616) ref
            || ltb n ((ref + len) % 18446744073709551616))
          ≡ true
        → Wraps flag ref len size
    wraps flag ref len n a b c d e = ground arith

    whole :
        (flag ref len n : ℕ)
        → ref < 18446744073709551616
        → len < 4294967296
        → Wraps flag ref len size
        → (ltb ((ref + len) % 18446744073709551616) ref
            || ltb n ((ref + len) % 18446744073709551616))
          ≡ false
        → ⊥
    whole flag ref len n b c h e = ground arith

    inline :
        (flag ref len : ℕ)
        → ref < 18446744073709551616
        → len < 4294967296
        → Wraps flag ref len size
        → (not (flag == 0) && (ltb 0 len && leb ((ref + len) % 18446744073709551616) size)) ≡ false
        → ⊥
    inline flag ref len b c h e = ground arith

-- Bytes at an offset are those of a front that reaches behind them.
pub read_at-take : (b : Bytes) (m k n : ℕ) → k + n ≤ m → read_at (take m b) k n ≡ read_at b k n
read_at-take b m k zero h = refl
read_at-take b zero k (suc n) h = absurd (omega arith)
read_at-take [] (suc m) zero (suc n) h = refl
read_at-take [] (suc m) (suc k) (suc n) h = refl
read_at-take (x ∷ b) (suc m) zero (suc n) h = ap (◌∷◌ x) (read_at-take b m 0 n (omega arith))
read_at-take (x ∷ b) (suc m) (suc k) (suc n) h = read_at-take b m k (suc n) (omega arith)

-- The flags that the calls of the client pass: a notification, a request and a reply, the last two
-- also with more behind them, and a cancellation.
abbrev pub IsPattern : ℕ → Type 0
IsPattern flags =
    (flags ≡ 4) ⊎ ((flags ≡ 8) ⊎ ((flags ≡ 16) ⊎ ((flags ≡ 136) ⊎ ((flags ≡ 144) ⊎ (flags ≡ 32)))))

pub pattern_inline : (flags : ℕ) → IsPattern flags → bit_and (bit_or flags 1) 1 ≡ 1
pattern_inline flags (inl e) = ap (λ (x : ℕ). bit_and (bit_or x 1) 1) e
pattern_inline flags (inr (inl e)) = ap (λ (x : ℕ). bit_and (bit_or x 1) 1) e
pattern_inline flags (inr (inr (inl e))) = ap (λ (x : ℕ). bit_and (bit_or x 1) 1) e
pattern_inline flags (inr (inr (inr (inl e)))) = ap (λ (x : ℕ). bit_and (bit_or x 1) 1) e
pattern_inline flags (inr (inr (inr (inr (inl e))))) = ap (λ (x : ℕ). bit_and (bit_or x 1) 1) e
pattern_inline flags (inr (inr (inr (inr (inr e))))) = ap (λ (x : ℕ). bit_and (bit_or x 1) 1) e

pub take_payload_empty :
    (size : ℕ) (behind : Bytes) (f : Frame)
    → f.payload_len ≡ 0
    → take_payload size behind f ≡ polled (record { frame = f; payload = [] })
unfolding take_payload
take_payload_empty size behind f e =
    if_elim (λ o. o ≡ polled (record { frame = f; payload = [] }))
      (not (bit_and f.hdr_flags 1 == 0)
        && (ltb 0 f.payload_len
            && leb ((f.payload_ref + f.payload_len) % 18446744073709551616) size))
      (λ taken. absurd (
        none_there (bit_and f.hdr_flags 1) f.payload_len
          ((f.payload_ref + f.payload_len) % 18446744073709551616) e taken))
      (λ left. refl)
  where
    none_there :
        (flag len end : ℕ) → len ≡ 0 → (not (flag == 0) && (ltb 0 len && leb end size)) ≡ true → ⊥
    none_there flag len end e h = ground arith

pub take_payload_inline :
    (size n : ℕ) (behind : Bytes) (f : Frame)
    → bit_and f.hdr_flags 1 ≡ 1
    → f.payload_ref ≡ hdr_len
    → f.payload_len ≡ n
    → 0 < n
    → hdr_len + n ≤ size
    → size < 4294967296
    → size ≤ length behind
    → take_payload size behind f ≡ polled (record { frame = f; payload = read_at behind hdr_len n })
unfolding take_payload payload_slice
take_payload_inline size n behind f flag ref len pos fits small room =
    let end = (f.payload_ref + f.payload_len) % 18446744073709551616 in
    let at_end : end ≡ hdr_len + n = omega (arith, ref, len) in
    if_elim Goal (not (bit_and f.hdr_flags 1 == 0) && (ltb 0 f.payload_len && leb end size))
      (λ taken.
        if_elim Goal (ltb end f.payload_ref || ltb (length behind) end)
          (λ bad. absurd (outside end f.payload_ref (length behind) at_end ref room bad))
          (λ fine. λ i. polled (record {
            frame = f;
            payload = read_at behind (ref i) (count_of end f.payload_ref at_end ref i);
          })))
      (λ left. absurd (inline (bit_and f.hdr_flags 1) f.payload_len end flag len at_end left))
  where
    Goal : Polled → Type 0
    Goal o = o ≡ polled (record { frame = f; payload = read_at behind hdr_len n })

    count_of : (end ref : ℕ) → end ≡ hdr_len + n → ref ≡ hdr_len → end - ref ≡ n
    count_of end ref a b = omega arith

    outside :
        (end ref m : ℕ)
        → end ≡ hdr_len + n
        → ref ≡ hdr_len
        → size ≤ m
        → (ltb end ref || ltb m end) ≡ true
        → ⊥
    outside end ref m a b c h = ground arith

    inline :
        (flag len end : ℕ)
        → flag ≡ 1
        → len ≡ n
        → end ≡ hdr_len + n
        → (not (flag == 0) && (ltb 0 len && leb end size)) ≡ false
        → ⊥
    inline flag len end a b c h = ground arith

-- The payload of a frame of the client, in a slot that holds it.
pub take_payload-frame :
    (c : Client) (flags kind corr : ℕ) (payload : Bytes) (size : ℕ) (behind : Bytes)
    → IsPattern flags
    → hdr_len + length payload ≤ size
    → size < 4294967296
    → size ≤ length behind
    → take_payload size behind (frame_for c flags kind corr payload)
      ≡ polled (record {
        frame = frame_for c flags kind corr payload;
        payload = read_at behind hdr_len (length payload);
      })
unfolding frame_for
take_payload-frame c flags kind corr [] size behind p fits small room =
    take_payload_empty size behind (frame_for c flags kind corr []) refl
take_payload-frame c flags kind corr (x ∷ payload) size behind p fits small room =
    let n = length (x ∷ payload) in
    take_payload_inline size n behind (frame_for c flags kind corr (x ∷ payload))
      (ap (λ (y : ℕ). bit_and y 1) (chosen n (bit_or flags 1) flags (omega arith))
        ∙ pattern_inline flags p)
      (chosen n hdr_len 0 (omega arith)) (omega (arith, fits)) (omega arith) fits small room
  where
    chosen : (n a b : ℕ) → 0 < n → (if not (n == 0) then a else b) ≡ a
    chosen n a b h = ground arith
