-- ===== src/Bus/Client.antt =====
-- An attached client of server-go/bus/client.go: what it sends and what it polls. The two rings are
-- apart, as the host lays them out; of the control region the epoch is a field, which the host
-- changes.
pub mod Emitting
pub mod Payload
pub mod Polling
pub mod Received
use aimee_module_sandbox.Base.{
  ℕ, ◌+◌, ◌-◌, ◌%◌, Bool, true, false, not, ◌&&◌, ◌||◌, Option, none, some, [], ltb, leb, ◌==◌,
  if◌then◌else◌, length, take, drop, bit_and,
}
use Prim.Native.Nat.{bit_or}
use aimee_module_sandbox.GoString.{Bytes}
use aimee_module_sandbox.Bus.Memory.{write_at, read_at}
use aimee_module_sandbox.Bus.Wire.{
  Frame, Result, ok, err_short, err_magic, err_version, err_flags, err_payload_len, err_correlation,
  err_reserved, hdr_len, encode, decode, is_ok,
}
use aimee_module_sandbox.Bus.Ring.{
  Ring, slot_offset, store, produce_begin, produce_commit, consume_begin, consume_commit,
}
use aimee_module_sandbox.Bus.Runtime.{Event}

-- `Client`. `attached` tells whether there is a control region.
pub record Client : Type 0 where
  pub handle : ℕ
  pub slot_size : ℕ
  pub inline_budget : ℕ
  pub attached_epoch : ℕ
  pub attached : Bool
  pub epoch : ℕ
  pub inbound : Ring
  pub outbound : Ring
  pub pending_read : Bool

-- `EpochChanged`
unfoldable pub epoch_changed : Client → Bool
epoch_changed c = c.attached && not (c.epoch == c.attached_epoch)

pub data Emitted : Type 0 where
  emitted err_protocol err_payload err_epoch err_would_block : Emitted

-- The frame of an event, with its payload behind the header of the slot.
unfoldable pub frame_for : Client → ℕ → ℕ → ℕ → Bytes → Frame
frame_for c flags kind corr payload =
    let inline = not (length payload == 0) in
    record {
      hdr_flags = if inline then bit_or flags 1 else flags;
      wire_version = 3;
      event_kind = kind;
      principal_ref = 0;
      correlation_id = corr;
      seq = 0;
      logical_ts = 0;
      payload_ref = if inline then hdr_len else 0;
      payload_len = length payload % 4294967296;
      src_handle = c.handle;
      dst_handle = 0;
      generation = 0;
    }

-- A slot with a frame written and its payload copied: the slice has the length of the slot, which
-- cuts off what is longer.
abbrev pub fill_slot : Bytes → Bytes → Bytes
fill_slot written payload = write_at written hdr_len payload

-- The end of `emit`, from the slot that `ProduceBegin` returned. An `Encode` that fails writes
-- nothing.
abbrev pub emit_slot : Client → Frame → Bytes → Option Bytes → Emitted × Client
emit_slot c f payload none = (err_would_block, c)
emit_slot c f payload (some s) =
    let (n, written) = encode f s in
    if not (n == hdr_len) then (err_protocol, c) else (
      emitted,
      record c { outbound = produce_commit (store c.outbound (fill_slot written payload)) },
    )

-- `emit`
unfoldable pub emit : Client → ℕ → ℕ → ℕ → Bytes → Emitted × Client
emit c flags kind corr payload =
    if not c.attached
    then (err_protocol, c)
    else if ltb 0 (length payload)
        && (ltb c.inline_budget (length payload % 4294967296)
            || ltb c.slot_size (hdr_len + length payload))
    then (err_payload, c)
    else if epoch_changed c
    then (err_epoch, c)
    else emit_slot c (frame_for c flags kind corr payload) payload (produce_begin c.outbound)

-- `Publish`
unfoldable pub publish : Client → ℕ → Bytes → Emitted × Client
publish c kind payload = emit c 4 kind 0 payload

-- `RequestFragment` and `ReplyFragment`, with the flag of the pattern.
unfoldable pub emit_fragment : ℕ → Client → ℕ → ℕ → Bytes → Bool → Emitted × Client
emit_fragment pattern c kind corr payload more =
    if corr == 0
    then (err_protocol, c)
    else if more && length payload == 0
    then (err_protocol, c)
    else emit c (if more then bit_or pattern 128 else pattern) kind corr payload

abbrev pub request_fragment : Client → ℕ → ℕ → Bytes → Bool → Emitted × Client
request_fragment = emit_fragment 8

abbrev pub reply_fragment : Client → ℕ → ℕ → Bytes → Bool → Emitted × Client
reply_fragment = emit_fragment 16

-- `Request`, `Reply` and `Cancel`.
abbrev pub request : Client → ℕ → ℕ → Bytes → Emitted × Client
request c kind corr payload = request_fragment c kind corr payload false

abbrev pub reply : Client → ℕ → ℕ → Bytes → Emitted × Client
reply c kind corr payload = reply_fragment c kind corr payload false

unfoldable pub cancel : Client → ℕ → ℕ → Emitted × Client
cancel c kind corr = if corr == 0 then (err_protocol, c) else emit c 32 kind corr []

-- What `Poll` returns: an error, no event, or an event; or it panics.
pub data Polled : Type 0 where
  poll_protocol poll_epoch no_event panicked : Polled
  polled : Event → Polled

-- The frame before `Decode` has written it.
abbrev pub blank_frame : Frame
blank_frame = record {
  hdr_flags = 0;
  wire_version = 0;
  event_kind = 0;
  principal_ref = 0;
  correlation_id = 0;
  seq = 0;
  logical_ts = 0;
  payload_ref = 0;
  payload_len = 0;
  src_handle = 0;
  dst_handle = 0;
  generation = 0;
}

-- `slot[ref:end]`: a slice of the slot may reach to the end of the mapping, whose bytes from the
-- slot on are `behind`.
unfoldable pub payload_slice : Bytes → ℕ → ℕ → Frame → Polled
payload_slice behind ref end f =
    if ltb end ref || ltb (length behind) end
    then panicked
    else polled (record { frame = f; payload = read_at behind ref (end - ref) })

-- The payload of a frame, from the bytes of the mapping behind the front of the slot.
unfoldable pub take_payload : ℕ → Bytes → Frame → Polled
take_payload slot_size behind f =
    let end = (f.payload_ref + f.payload_len) % 18446744073709551616 in
    if not (bit_and f.hdr_flags 1 == 0) && (ltb 0 f.payload_len && leb end slot_size)
    then payload_slice behind f.payload_ref end f
    else polled (record { frame = f; payload = [] })

-- The slot of an event is released by the next call; a panic leaves the call before it is noted.
abbrev pub read_pending : Polled → Client → Client
read_pending panicked c = c
read_pending poll_protocol c = c
read_pending poll_epoch c = c
read_pending no_event c = c
read_pending (polled e) c = record c { pending_read = true }

abbrev pub poll_decoded : Client → Bytes → Result × Frame → Polled × Client
poll_decoded c behind (r, f) =
    if is_ok r
    then (take_payload c.slot_size behind f, read_pending (take_payload c.slot_size behind f) c)
    else (no_event, record c { inbound = consume_commit c.inbound })

abbrev pub poll_slot : Client → Option Bytes → Polled × Client
poll_slot c none = (no_event, c)
poll_slot c (some s) =
    poll_decoded c (drop (slot_offset c.inbound c.inbound.tail) c.inbound.mem)
      (decode s blank_frame)

-- The release of the slot of the last event.
abbrev pub release : Client → Client
release c =
    if c.pending_read
    then record c { inbound = consume_commit c.inbound; pending_read = false }
    else c

-- `Poll`
unfoldable pub poll : Client → Polled × Client
poll c =
    if not c.attached
    then (poll_protocol, c)
    else if epoch_changed c
    then (poll_epoch, c)
    else poll_slot (release c) (consume_begin (release c).inbound)
