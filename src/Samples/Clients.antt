-- ===== src/Samples/Clients.antt =====
-- The theorems on clients at a request of two bytes, on rings with two slots of 72 bytes.
use aimee_module_sandbox.Base.{
  ◌+◌, ◌≤◌, ◌<◌, true, false, some, [], ◌∷◌, ◌++◌, ◌≡◌, ◌≢◌, ◌↔◌, inl, inr, refl, arith, All,
  bit_and,
}
use aimee_module_sandbox.GoString.{Bytes, IsByte}
use aimee_module_sandbox.Bus.LittleEndian.{put_le}
use aimee_module_sandbox.Bus.Memory.{write_at}
use aimee_module_sandbox.Bus.Wire.{
  Frame, ok, header, encode, decode, validate, validate_payload, validate_rest, more_allowed,
  exactly_one, read_frame,
}
use aimee_module_sandbox.Bus.Ring.{
  Ring, ring_magic, ring_hdr_bytes, ring_of, bad_geometry, checked_ring, attach_ring, slot,
  slot_offset, store, count, produce_begin, produce_commit, consume_begin,
}
use aimee_module_sandbox.Bus.Ring.Attached.{IsRing, attach_ring-IsRing}
use aimee_module_sandbox.Bus.Ring.Window.{contents}
use aimee_module_sandbox.Bus.Runtime.{Event}
use aimee_module_sandbox.Bus.Client.{
  Client, epoch_changed, emitted, err_payload, frame_for, emit, blank_frame, panicked, polled,
  take_payload, payload_slice, poll,
}
use aimee_module_sandbox.Bus.Client.Emitting.{event_slot, Leaves, emit-Leaves}
use aimee_module_sandbox.Bus.Client.Polling.{poll-panics_iff}
use aimee_module_sandbox.Bus.Client.Received.{IsFrameOf, poll-emit}

abbrev geometry : Bytes
geometry =
    put_le 4 ring_magic
    ++ put_le 4 72
    ++ put_le 4 2
    ++ put_le 4 1
    ++ put_le 4 ring_hdr_bytes
    ++ put_le 44 0

-- An empty ring, and one whose first slot holds `s`.
abbrev empty_mapping : Bytes
empty_mapping = geometry ++ put_le 128 0 ++ put_le 144 0

abbrev mapping_with : Bytes → Bytes
mapping_with s = geometry ++ put_le 8 1 ++ put_le 120 0 ++ s ++ put_le 72 0

empty_mapping-IsByte : All IsByte empty_mapping
empty_mapping-IsByte = grind arith

empty_attached : attach_ring empty_mapping ≡ some (ring_of empty_mapping)
unfolding attach_ring checked_ring bad_geometry count
empty_attached = refl

empty-IsRing : IsRing (ring_of empty_mapping)
empty-IsRing = (attach_ring-IsRing empty_mapping empty_mapping-IsByte empty_attached).0

abbrev client : Ring → Client
client inbound = record {
  handle = 3;
  slot_size = 72;
  inline_budget = 8;
  attached_epoch = 1;
  attached = true;
  epoch = 1;
  inbound = inbound;
  outbound = ring_of empty_mapping;
  pending_read = false;
}

abbrev caller : Client
caller = client (ring_of empty_mapping)

abbrev payload : Bytes
payload = 5 ∷ 6 ∷ []

-- The caller behind a request that it has sent.
abbrev behind : Client
behind = (emit caller 8 20 7 payload).1

request_emitted : emit caller 8 20 7 payload ≡ (emitted, behind)
unfolding emit epoch_changed produce_begin count slot slot_offset encode validate validate_payload
    validate_rest more_allowed exactly_one header frame_for
request_emitted = refl

emit-Leaves_example : Leaves caller (frame_for caller 8 20 7 payload) payload emitted behind
emit-Leaves_example = emit-Leaves caller 8 20 7 payload empty-IsRing (omega arith) request_emitted

abbrev request_slot : Bytes
request_slot = event_slot (frame_for caller 8 20 7 payload) payload (put_le 72 0)

abbrev server : Client
server = client (ring_of (mapping_with request_slot))

server_mapping-IsByte : All IsByte (mapping_with request_slot)
unfolding header frame_for
server_mapping-IsByte = grind arith

server_attached : attach_ring (mapping_with request_slot) ≡ some server.inbound
unfolding attach_ring checked_ring bad_geometry count header frame_for
server_attached = refl

server-IsRing : IsRing server.inbound
server-IsRing =
    (attach_ring-IsRing (mapping_with request_slot) server_mapping-IsByte server_attached).0

slot_sent : contents behind.outbound ≡ contents caller.outbound ++ request_slot ∷ []
unfolding emit epoch_changed produce_begin produce_commit store write_at count slot slot_offset
    encode validate validate_payload validate_rest more_allowed exactly_one header frame_for
slot_sent = refl

slot_there : contents server.inbound ≡ request_slot ∷ []
unfolding count slot slot_offset header frame_for
slot_there = refl

poll-emit_example :
    (e : Event) × ((poll server).0 ≡ polled e)
    × IsFrameOf caller 8 20 7 e.frame
    × (e.payload ≡ payload)
poll-emit_example =
    poll-emit caller server 8 20 7 payload request_slot [] (inr (inl refl)) (omega arith)
      (omega arith) (omega arith) empty-IsRing (omega arith) (omega arith) request_emitted slot_sent
      server-IsRing (refl, refl, refl) refl refl slot_there

-- A frame whose reference is the greatest of 64 bits.
abbrev wrapped : Frame
wrapped = record (frame_for caller 8 20 7 payload) { payload_ref = 18446744073709551615 }

abbrev wrapped_slot : Bytes
wrapped_slot = event_slot wrapped payload (put_le 72 0)

abbrev attacked : Client
attacked = client (ring_of (mapping_with wrapped_slot))

wrapped_mapping-IsByte : All IsByte (mapping_with wrapped_slot)
unfolding header frame_for
wrapped_mapping-IsByte = grind arith

wrapped_attached : attach_ring (mapping_with wrapped_slot) ≡ some attacked.inbound
unfolding attach_ring checked_ring bad_geometry count header frame_for
wrapped_attached = refl

wrapped_there : contents attacked.inbound ≡ wrapped_slot ∷ []
unfolding count slot slot_offset header frame_for
wrapped_there = refl

wrapped_decoded : decode wrapped_slot blank_frame ≡ (ok, wrapped)
unfolding decode read_frame validate validate_payload validate_rest more_allowed exactly_one header
    frame_for
wrapped_decoded = refl

poll-panics_iff_example : ((poll attacked).0 ≡ panicked) ↔ (
    (bit_and wrapped.hdr_flags 1 ≢ 0)
    × (0 < wrapped.payload_len)
    × (18446744073709551616 ≤ wrapped.payload_ref + wrapped.payload_len)
    × (wrapped.payload_ref + wrapped.payload_len ≤ 18446744073709551616 + attacked.slot_size))
poll-panics_iff_example =
    poll-panics_iff attacked wrapped_slot [] wrapped
      (attach_ring-IsRing (mapping_with wrapped_slot) wrapped_mapping-IsByte wrapped_attached).0
      (refl, refl, refl) (omega arith) wrapped_there wrapped_decoded (omega arith)
      (unfold frame_for in omega arith)

wrapped_panics : (poll attacked).0 ≡ panicked
unfolding poll epoch_changed consume_begin take_payload payload_slice slot slot_offset decode
    read_frame validate validate_payload validate_rest more_allowed exactly_one header frame_for
wrapped_panics = refl

-- A payload above the budget is not sent.
long_refused : emit caller 8 20 7 (put_le 9 0) ≡ (err_payload, caller)
unfolding emit epoch_changed
long_refused = refl
