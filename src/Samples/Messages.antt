-- ===== src/Samples/Messages.antt =====
-- The message codec at a concrete invocation.
use aimee_module_sandbox.Base.{◌+◌, ◌≤◌, some, [], ◌∷◌, ◌++◌, ◌≡◌, refl, arith, length, All, drop}
use aimee_module_sandbox.GoString.{Bytes, IsByte}
use aimee_module_sandbox.Bus.LittleEndian.{put_le}
use aimee_module_sandbox.Bus.Message.{
  ModuleMessage, module_message_header_len, valid, message_header, read_message, checked_message,
  encode_message, decode_module_message,
}
use aimee_module_sandbox.Bus.Message.Guards.{IsMessage, IsNarrow}
use aimee_module_sandbox.Bus.Message.RoundTrips.{
  decode-encode_message, encode-decode_module_message,
}

-- An invocation of the first stage with two bytes of body.
abbrev invocation : ModuleMessage
invocation = record {
  operation = 1;
  status = 0;
  stage_id = 1;
  flags = 0;
  body_len = 2;
  deadline_ns = 5000;
  trace_id = 7;
}

invocation-IsMessage : IsMessage invocation
invocation-IsMessage = grind arith

invocation-IsNarrow : IsNarrow invocation
invocation-IsNarrow = grind arith

abbrev blank : Bytes
blank = put_le 42 0

decode-encode_message_example :
    let written = message_header invocation ++ drop module_message_header_len blank in
    (encode_message invocation blank ≡ some (module_message_header_len, written))
    × (decode_module_message written ≡ some invocation)
decode-encode_message_example =
    decode-encode_message invocation blank invocation-IsMessage invocation-IsNarrow (omega arith)

abbrev payload : Bytes
payload = message_header invocation ++ b'{' ∷ b'}' ∷ []

payload-IsByte : All IsByte payload
unfolding message_header
payload-IsByte = grind arith

payload_decoded : decode_module_message payload ≡ some invocation
unfolding decode_module_message checked_message read_message valid message_header
payload_decoded = refl

encode-decode_module_message_example :
    IsMessage invocation
    × (invocation.body_len + module_message_header_len ≤ length payload)
    × (encode_message invocation payload ≡ some (module_message_header_len, payload))
encode-decode_module_message_example =
    encode-decode_module_message payload invocation payload-IsByte payload_decoded
