-- ===== src/Samples/Frames.antt =====
-- The frame codec at a concrete frame.
use aimee_module_sandbox.Base.{◌++◌, ◌≡◌, refl, arith, ◌↔◌, length, All, drop}
use aimee_module_sandbox.GoString.{Bytes, IsByte}
use aimee_module_sandbox.Bus.LittleEndian.{put_le}
use aimee_module_sandbox.Bus.Wire.{
  Frame, ok, hdr_len, header, read_frame, exactly_one, validate_payload, validate_rest,
  more_allowed, validate, encode, decode, check_placement,
}
use aimee_module_sandbox.Bus.Wire.RoundTrip.{IsSized, decode-encode, encode-decode}
use aimee_module_sandbox.Bus.Wire.Placement.{IsPlaced, check_placement_iff}

-- A request with five bytes of payload in its slot.
abbrev request : Frame
request = record {
  hdr_flags = 9;
  wire_version = 3;
  event_kind = 10753;
  principal_ref = 1;
  correlation_id = 300;
  seq = 2;
  logical_ts = 3;
  payload_ref = 64;
  payload_len = 5;
  src_handle = 1;
  dst_handle = 2;
  generation = 0;
}

request_valid : validate request ≡ ok
unfolding validate exactly_one validate_payload validate_rest more_allowed
request_valid = refl

request-IsSized : IsSized request
request-IsSized = grind arith

abbrev blank : Bytes
blank = put_le 64 0

decode-encode_example :
    (encode request blank ≡ (hdr_len, header request ++ drop hdr_len blank))
    × (length (header request) ≡ hdr_len)
    × (decode (header request ++ drop hdr_len blank) request ≡ (ok, request))
decode-encode_example =
    decode-encode request request blank request-IsSized (omega arith) request_valid

request-IsByte : All IsByte (header request)
unfolding header
request-IsByte = grind arith

request_decoded : decode (header request) request ≡ (ok, request)
unfolding decode header read_frame validate exactly_one validate_payload validate_rest more_allowed
request_decoded = refl

encode-decode_example :
    (validate request ≡ ok) × (encode request (header request) ≡ (hdr_len, header request))
encode-decode_example =
    encode-decode (header request) request request request-IsByte request_decoded

check_placement_iff_example :
    (check_placement request 256 0 ≡ ok) ↔ ((validate request ≡ ok) × IsPlaced request 256 0)
check_placement_iff_example =
    check_placement_iff request 256 0 (omega arith) (omega arith) (omega arith)
