-- ===== src/Bus/Wire.antt =====
-- The frame codec of server-go/bus/wire.go.
pub mod RoundTrip
pub mod Placement
use aimee_module_sandbox.Base.{
  ℕ, zero, suc, ◌+◌, ◌-◌, ◌*◌, ◌/◌, ◌%◌, Bool, true, false, not, ◌&&◌, ◌||◌, List, [], ◌∷◌, ◌++◌,
  ltb, leb, ◌==◌, if◌then◌else◌, length, drop, bit_and,
}
use aimee_module_sandbox.GoString.{Bytes}
use aimee_module_sandbox.Bus.LittleEndian.{put_le, get_le}

abbrev pub wire_magic : ℕ
wire_magic = 810767682

abbrev pub wire_version_spoken : ℕ
wire_version_spoken = 3

abbrev pub hdr_len : ℕ
hdr_len = 64

abbrev pub max_payload : ℕ
max_payload = 1048576

-- `fPlacementMask`, `fPatternMask`, and the bits of a `uint16` outside `fKnownMask`.
abbrev pub f_placement_mask : ℕ
f_placement_mask = 3

abbrev pub f_pattern_mask : ℕ
f_pattern_mask = 60

abbrev pub f_unknown_mask : ℕ
f_unknown_mask = 65280

pub record Frame : Type 0 where
  pub hdr_flags : ℕ
  pub wire_version : ℕ
  pub event_kind : ℕ
  pub principal_ref : ℕ
  pub correlation_id : ℕ
  pub seq : ℕ
  pub logical_ts : ℕ
  pub payload_ref : ℕ
  pub payload_len : ℕ
  pub src_handle : ℕ
  pub dst_handle : ℕ
  pub generation : ℕ

pub data Result : Type 0 where
  ok err_short err_magic err_version err_flags err_payload_len err_correlation err_reserved : Result

-- `exactlyOne`
unfoldable pub exactly_one : ℕ → Bool
exactly_one v = not (v == 0) && bit_and v (v - 1) == 0

-- The rules on the placement and the payload.
unfoldable pub validate_payload : Frame → Result
validate_payload f =
    if ltb 0 f.payload_len
    then (if not (exactly_one (bit_and f.hdr_flags f_placement_mask))
        then err_flags
        else if ltb max_payload f.payload_len
        then err_payload_len
        else ok)
    else if not (bit_and f.hdr_flags f_placement_mask == 0)
    then err_flags
    else if not (f.payload_ref == 0)
    then err_payload_len
    else ok

-- The rule on frames with `FMore`, which come in fragments.
unfoldable pub more_allowed : Frame → Bool
more_allowed f =
    bit_and f.hdr_flags 128 == 0
    || ((bit_and f.hdr_flags f_pattern_mask == 8 || bit_and f.hdr_flags f_pattern_mask == 16)
        && (bit_and f.hdr_flags f_placement_mask == 1 && not (f.payload_len == 0)))

unfoldable pub validate_rest : Frame → Result
validate_rest f =
    if not (more_allowed f)
    then err_flags
    else if bit_and f.hdr_flags 2 == 0 && not (f.generation == 0)
    then err_flags
    else if not (bit_and f.hdr_flags 4 == 0)
    then (if not (f.correlation_id == 0) then err_correlation else ok)
    else if f.correlation_id == 0
    then err_correlation
    else ok

abbrev pub and_then : Result → Result → Result
and_then ok r = r
and_then err_short r = err_short
and_then err_magic r = err_magic
and_then err_version r = err_version
and_then err_flags r = err_flags
and_then err_payload_len r = err_payload_len
and_then err_correlation r = err_correlation
and_then err_reserved r = err_reserved

-- `Frame.Validate`
unfoldable pub validate : Frame → Result
validate f =
    if not (f.wire_version == wire_version_spoken)
    then err_version
    else if not (bit_and f.hdr_flags f_unknown_mask == 0)
    then err_flags
    else if not (exactly_one (bit_and f.hdr_flags f_pattern_mask))
    then err_flags
    else and_then (validate_payload f) (validate_rest f)

unfoldable pub header : Frame → Bytes
header f =
    put_le 4 wire_magic
    ++ (put_le 2 f.hdr_flags
        ++ (put_le 2 f.wire_version
            ++ (put_le 4 f.event_kind
                ++ (put_le 4 f.principal_ref
                    ++ (put_le 8 f.correlation_id
                        ++ (put_le 8 f.seq
                            ++ (put_le 8 f.logical_ts
                                ++ (put_le 8 f.payload_ref
                                    ++ (put_le 4 f.payload_len
                                        ++ (put_le 4 f.src_handle
                                            ++ (put_le 4 f.dst_handle
                                                ++ put_le 4 f.generation)))))))))))

abbrev pub is_ok : Result → Bool
is_ok ok = true
is_ok err_short = false
is_ok err_magic = false
is_ok err_version = false
is_ok err_flags = false
is_ok err_payload_len = false
is_ok err_correlation = false
is_ok err_reserved = false

-- `Frame.Encode`: the bytes written, and the buffer.
unfoldable pub encode : Frame → Bytes → ℕ × Bytes
encode f out =
    if ltb (length out) hdr_len
    then (0, out)
    else if not (is_ok (validate f))
    then (0, out)
    else (hdr_len, header f ++ drop hdr_len out)

-- The header at its offsets.
unfoldable pub read_frame : Bytes → Frame
read_frame s = record {
  hdr_flags = get_le 2 (drop 4 s);
  wire_version = get_le 2 (drop 6 s);
  event_kind = get_le 4 (drop 8 s);
  principal_ref = get_le 4 (drop 12 s);
  correlation_id = get_le 8 (drop 16 s);
  seq = get_le 8 (drop 24 s);
  logical_ts = get_le 8 (drop 32 s);
  payload_ref = get_le 8 (drop 40 s);
  payload_len = get_le 4 (drop 48 s);
  src_handle = get_le 4 (drop 52 s);
  dst_handle = get_le 4 (drop 56 s);
  generation = get_le 4 (drop 60 s);
}

abbrev pub accepted : Frame → Frame → Result → Result × Frame
accepted f out ok = (ok, f)
accepted f out err_short = (err_short, out)
accepted f out err_magic = (err_magic, out)
accepted f out err_version = (err_version, out)
accepted f out err_flags = (err_flags, out)
accepted f out err_payload_len = (err_payload_len, out)
accepted f out err_correlation = (err_correlation, out)
accepted f out err_reserved = (err_reserved, out)

-- `Decode`, with the frame in `*out` before it and behind it.
unfoldable pub decode : Bytes → Frame → Result × Frame
decode s out =
    if ltb (length s) hdr_len
    then (err_short, out)
    else if not (get_le 4 s == wire_magic)
    then (err_magic, out)
    else accepted (read_frame s) out (validate (read_frame s))

-- `Frame.CheckPlacement` behind its call of `Validate`.
unfoldable pub placement : Frame → ℕ → ℕ → Result
placement f slot_size arena_size =
    if f.payload_len == 0
    then ok
    else if not (bit_and f.hdr_flags 1 == 0)
    then (let end = (f.payload_ref + f.payload_len) % 18446744073709551616 in
        if ltb end f.payload_ref
        then err_payload_len
        else if ltb f.payload_ref hdr_len || ltb slot_size end
        then err_payload_len
        else ok)
    else if ltb arena_size f.payload_len
    then err_payload_len
    else ok

unfoldable pub check_placement : Frame → ℕ → ℕ → Result
check_placement f slot_size arena_size = and_then (validate f) (placement f slot_size arena_size)
