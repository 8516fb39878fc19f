-- ===== src/Bus/Message.antt =====
-- The header of the messages to and from modules, of server-go/bus/module_protocol.go.
pub mod Guards
pub mod RoundTrips
use aimee_module_sandbox.Base.{
  ℕ, ◌+◌, ◌-◌, Bool, true, false, not, ◌&&◌, ◌||◌, Option, none, some, ◌++◌, ltb, leb, ◌==◌,
  if◌then◌else◌, length, drop,
}
use aimee_module_sandbox.GoString.{Bytes}
use aimee_module_sandbox.Bus.LittleEndian.{put_le, get_le}

abbrev pub module_message_magic : ℕ
module_message_magic = 1146047809

abbrev pub module_message_header_len : ℕ
module_message_header_len = 40

abbrev pub max_body : ℕ
max_body = 16777216

-- The operation is 1 for `ModuleOpInvoke` and 2 for `ModuleOpResult`; the statuses are 0 for
-- `ModuleStatusOK` to 5 for `ModuleStatusInternal`.
pub record ModuleMessage : Type 0 where
  pub operation : ℕ
  pub status : ℕ
  pub stage_id : ℕ
  pub flags : ℕ
  pub body_len : ℕ
  pub deadline_ns : ℕ
  pub trace_id : ℕ

unfoldable pub valid : ModuleMessage → Bool
valid m =
    if not (m.operation == 1) && not (m.operation == 2)
    then false
    else if ltb 5 m.status || (m.operation == 1 && not (m.status == 0))
    then false
    else not (m.stage_id == 0) && m.flags == 0 && leb m.body_len max_body

unfoldable pub message_header : ModuleMessage → Bytes
message_header m =
    put_le 4 module_message_magic
    ++ (put_le 2 1
        ++ (put_le 2 module_message_header_len
            ++ (put_le 2 m.operation
                ++ (put_le 2 m.status
                    ++ (put_le 4 m.stage_id
                        ++ (put_le 4 m.flags
                            ++ (put_le 4 m.body_len
                                ++ (put_le 8 m.deadline_ns ++ put_le 8 m.trace_id))))))))

-- `ModuleMessage.Encode`: the bytes written and the buffer, or the error, which writes none.
unfoldable pub encode_message : ModuleMessage → Bytes → Option (ℕ × Bytes)
encode_message m out =
    if ltb (length out) module_message_header_len || not (valid m)
    then none
    else some (module_message_header_len, message_header m ++ drop module_message_header_len out)

unfoldable pub read_message : Bytes → ModuleMessage
read_message s = record {
  operation = get_le 2 (drop 8 s);
  status = get_le 2 (drop 10 s);
  stage_id = get_le 4 (drop 12 s);
  flags = get_le 4 (drop 16 s);
  body_len = get_le 4 (drop 20 s);
  deadline_ns = get_le 8 (drop 24 s);
  trace_id = get_le 8 (drop 32 s);
}

-- `DecodeModuleMessage` behind the tests of the fixed fields.
unfoldable pub checked_message : ModuleMessage → Bytes → Option ModuleMessage
checked_message m s =
    if not (valid m) || ltb (length s - module_message_header_len) m.body_len then none else some m

unfoldable pub decode_module_message : Bytes → Option ModuleMessage
decode_module_message s =
    if ltb (length s) module_message_header_len
      || not (get_le 4 s == module_message_magic)
      || not (get_le 2 (drop 4 s) == 1)
      || not (get_le 2 (drop 6 s) == module_message_header_len)
    then none
    else checked_message (read_message s) s

-- `DeadlineExpired`
unfoldable pub deadline_expired : ModuleMessage → ℕ → Bool
deadline_expired m now_ns = not (m.deadline_ns == 0) && leb m.deadline_ns now_ns
