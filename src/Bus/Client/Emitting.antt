-- ===== src/Bus/Client/Emitting.antt =====
-- What `emit` leaves in the outbound ring.
use aimee_module_sandbox.Base.{
  ℕ, ◌+◌, ◌%◌, ◌≤◌, ◌<◌, Bool, true, false, not, ◌&&◌, ◌||◌, some, [], ◌∷◌, ◌++◌, ◌≡◌, ◌≢◌, ◌⊎◌,
  inl, inr, refl, arith, sym, ap, ◌∙◌, ltb, ◌==◌, if_elim, Option-cases, length, length-append,
  length-drop, drop,
}
use mathlib.Core.Path.{subst}
use aimee_module_sandbox.GoString.{Bytes}
use aimee_module_sandbox.Bus.Fragments.{write_behind}
use aimee_module_sandbox.Bus.Wire.{
  Frame, Result, ok, err_short, err_magic, err_version, err_flags, err_payload_len, err_correlation,
  err_reserved, hdr_len, header, encode, decode, validate, is_ok,
}
use aimee_module_sandbox.Bus.Wire.RoundTrip.{IsSized, decode-encode}
use aimee_module_sandbox.Bus.Ring.{Ring, slot, store, count, produce_begin, produce_commit}
use aimee_module_sandbox.Bus.Ring.Attached.{IsRing}
use aimee_module_sandbox.Bus.Ring.Slots.{length-slot, slot-store_self, store-IsRing}
use aimee_module_sandbox.Bus.Ring.Window.{
  contents, contents-store, contents-produce_commit, produce_commit-IsRing, produce_begin_lem,
}
use aimee_module_sandbox.Bus.Client.{
  Client, epoch_changed, Emitted, emitted, err_protocol, err_payload, err_epoch, err_would_block,
  frame_for, fill_slot, emit_slot, emit,
}

is_ok-ok : (r : Result) → is_ok r ≡ true → r ≡ ok
is_ok-ok ok h = refl
is_ok-ok err_short h = absurd (cc h)
is_ok-ok err_magic h = absurd (cc h)
is_ok-ok err_version h = absurd (cc h)
is_ok-ok err_flags h = absurd (cc h)
is_ok-ok err_payload_len h = absurd (cc h)
is_ok-ok err_correlation h = absurd (cc h)
is_ok-ok err_reserved h = absurd (cc h)

-- An encoding that writes a header.
encode_full :
    (f : Frame) (s : Bytes)
    → not ((encode f s).0 == hdr_len) ≡ false
    → (hdr_len ≤ length s) × (validate f ≡ ok)
unfolding encode
encode_full f s =
    if_elim Goal (ltb (length s) hdr_len) (λ short e. absurd (cc e))
      λ long.
        if_elim Goal (not (is_ok (validate f))) (λ bad e. absurd (cc e))
          λ good e.
            (enough (length s) long, is_ok-ok (validate f) (positive (is_ok (validate f)) good))
  where
    Goal : ℕ × Bytes → Type 0
    Goal r = not (r.0 == hdr_len) ≡ false → (hdr_len ≤ length s) × (validate f ≡ ok)

    enough : (n : ℕ) → ltb n hdr_len ≡ false → hdr_len ≤ n
    enough n h = ground arith

    positive : (b : Bool) → not b ≡ false → b ≡ true
    positive b h = ground arith

-- The slot of an event: the header, the payload, and what stood there behind it.
abbrev pub event_slot : Frame → Bytes → Bytes → Bytes
event_slot f payload s = header f ++ (payload ++ drop (length payload) (drop hdr_len s))

fill_slot_lem :
    (f : Frame) (payload s : Bytes)
    → hdr_len + length payload ≤ length s
    → fill_slot (header f ++ drop hdr_len s) payload ≡ event_slot f payload s
unfolding header
fill_slot_lem f payload s room =
    write_behind (header f) (drop hdr_len s) payload (omega (arith, room, length-drop hdr_len s))

pub decode-event_slot :
    (f g : Frame) (payload s : Bytes)
    → IsSized f
    → validate f ≡ ok
    → decode (event_slot f payload s) g ≡ (ok, f)
unfolding header
decode-event_slot f g payload s sized valid =
    ((decode-encode f g (event_slot f payload s) sized
      (omega (arith, length-append (header f) (payload ++ drop (length payload) (drop hdr_len s))))
      valid).2)

-- One slot more stands in the outbound ring, with the frame and the payload.
abbrev pub Sends : Client → Client → Frame → Bytes → Type 0
Sends c c' f payload =
    (s : Bytes) × (length s ≡ c.outbound.slot_size)
    × (hdr_len + length payload ≤ length s)
    × (validate f ≡ ok)
    × (contents c'.outbound ≡ contents c.outbound ++ event_slot f payload s ∷ [])
    × IsRing c'.outbound

-- The committed ring, where the slot at the head has been filled.
filled_ring :
    (r : Ring) (w : Bytes)
    → IsRing r
    → count r < r.capacity
    → length w ≡ r.slot_size
    → (contents (produce_commit (store r w)) ≡ contents r ++ w ∷ [])
      × IsRing (produce_commit (store r w))
filled_ring r w v room size =
    let v' = store-IsRing w v in
    let room' : count (store r w) < (store r w).capacity = unfold store count in room in
    (
      contents-produce_commit v' room'
          ∙ ap (λ l. l ++ slot (store r w) (store r w).head ∷ [])
              (contents-store w v (omega (arith, size)) room)
          ∙ ap (λ (b : Bytes). contents r ++ b ∷ [])
              (ap (slot (store r w)) same_head ∙ slot-store_self w v size),
      produce_commit-IsRing v' room',
    )
  where
    same_head : (store r w).head ≡ r.head
    same_head = unfold store in refl

-- An event that is not sent leaves the client as it is.
abbrev pub Leaves : Client → Frame → Bytes → Emitted → Client → Type 0
Leaves c f payload r c' = ((r ≢ emitted) × (c' ≡ c)) ⊎ ((r ≡ emitted) × Sends c c' f payload)

unsent :
    (c : Client) (f : Frame) (payload : Bytes) (x : Emitted) {r : Emitted} {c' : Client}
    → (x ≡ emitted → ⊥)
    → ◌≡◌ {A = Emitted × Client} (x, c) (r, c')
    → Leaves c f payload r c'
unsent c f payload x h e = inl (λ q. h (ap (λ p. p.0) e ∙ q), sym (ap (λ p. p.1) e))

emit_slot-Sends :
    (c : Client) (f : Frame) (payload s : Bytes) {r : Emitted} {c' : Client}
    → IsRing c.outbound
    → count c.outbound < c.outbound.capacity
    → length s ≡ c.outbound.slot_size
    → (hdr_len ≤ length s → hdr_len + length payload ≤ length s)
    → emit_slot c f payload (some s) ≡ (r, c')
    → Leaves c f payload r c'
emit_slot-Sends c f payload s {r} {c'} v room size fits =
    if_elim Goal (not ((encode f s).0 == hdr_len))
      (λ bad e. unsent c f payload err_protocol (λ q. cc q) e)
      λ good e.
        let (long, valid) = encode_full f s good in
        let w = event_slot f payload s in
        let written : fill_slot (encode f s).1 payload ≡ w =
          ap (λ p. fill_slot p.1 payload) (encode_lem valid long)
          ∙ fill_slot_lem f payload s (fits long) in
        let whole : length w ≡ c.outbound.slot_size = omega (
          arith,
          fits long,
          size,
          header_length,
          length-append (header f) (payload ++ drop (length payload) (drop hdr_len s)),
          length-append payload (drop (length payload) (drop hdr_len s)),
          length-drop (length payload) (drop hdr_len s),
          length-drop hdr_len s,
        ) in
        let (all, ring) = filled_ring c.outbound w v room whole in
        let left : c'.outbound ≡ produce_commit (store c.outbound w) =
          ap (λ p. p.1.outbound) (sym e) ∙ ap (λ b. produce_commit (store c.outbound b)) written in
        inr (
          sym (ap (λ p. p.0) e),
          (s, size, fits long, valid, ap contents left ∙ all, subst IsRing (sym left) ring),
        )
  where
    Goal : Emitted × Client → Type 0
    Goal o = o ≡ (r, c') → Leaves c f payload r c'

    header_length : length (header f) ≡ hdr_len
    header_length = unfold header in refl

    encode_lem :
        validate f ≡ ok → hdr_len ≤ length s → encode f s ≡ (hdr_len, header f ++ drop hdr_len s)
    encode_lem valid long =
        unfold encode in
        if_elim (λ r. r ≡ (hdr_len, header f ++ drop hdr_len s)) (ltb (length s) hdr_len)
          (λ e. absurd (short (length s) long e)) (λ e. rw valid refl)
      where
        short : (n : ℕ) → hdr_len ≤ n → ltb n hdr_len ≡ true → ⊥
        short n h e = ground arith

fits_slot :
    (c : Client) (payload : Bytes) (n : ℕ)
    → c.slot_size ≤ n
    → (ltb 0 (length payload)
        && (ltb c.inline_budget (length payload % 4294967296)
            || ltb c.slot_size (hdr_len + length payload)))
      ≡ false
    → hdr_len ≤ n
    → hdr_len + length payload ≤ n
fits_slot c payload n same fine long =
    fits (length payload) (length payload % 4294967296) c.slot_size c.inline_budget same fine
  where
    fits :
        (len narrow size budget : ℕ)
        → size ≤ n
        → (ltb 0 len && (ltb budget narrow || ltb size (hdr_len + len))) ≡ false
        → hdr_len + len ≤ n
    fits len narrow size budget same fine = ground arith

-- An event that is not sent, for whatever reason, leaves the client and its rings as they are; one
-- that is sent is one slot more behind those of the outbound ring, which holds the header of the
-- frame and behind it the whole payload, and the frame is one that the rules accept. The slots of
-- the ring are at least as long as the client was told.
pub emit-Leaves :
    (c : Client) (flags kind corr : ℕ) (payload : Bytes) {r : Emitted} {c' : Client}
    → IsRing c.outbound
    → c.slot_size ≤ c.outbound.slot_size
    → emit c flags kind corr payload ≡ (r, c')
    → Leaves c (frame_for c flags kind corr payload) payload r c'
unfolding emit
emit-Leaves c flags kind corr payload {r} {c'} v same =
    let f = frame_for c flags kind corr payload in
    if_elim Goal (not c.attached) (λ t e. unsent c f payload err_protocol (λ q. cc q) e)
      λ attached.
        if_elim Goal
          (ltb 0 (length payload)
            && (ltb c.inline_budget (length payload % 4294967296)
                || ltb c.slot_size (hdr_len + length payload)))
          (λ t e. unsent c f payload err_payload (λ q. cc q) e)
          λ fine.
            if_elim Goal (epoch_changed c) (λ t e. unsent c f payload err_epoch (λ q. cc q) e)
              λ current. elim (Option-cases (produce_begin c.outbound)) [
                | inl full ↦ λ e.
                    unsent c f payload err_would_block (λ q. cc q)
                      (ap (emit_slot c f payload) (sym full) ∙ e)
                | inr (s, given) ↦ λ e.
                    let (room, at_head) = (produce_begin_lem v s).0 given in
                    let size : length s ≡ c.outbound.slot_size =
                      ap length (sym at_head) ∙ length-slot v c.outbound.head in
                    emit_slot-Sends c f payload s v room size
                      (λ long. fits_slot c payload (length s) (omega (arith, size, same)) fine long)
                      (ap (emit_slot c f payload) (sym given) ∙ e)
              ]
  where
    Goal : Emitted × Client → Type 0
    Goal o = o ≡ (r, c') → Leaves c (frame_for c flags kind corr payload) payload r c'
