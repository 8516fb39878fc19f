-- ===== src/Bus/Fragments/Payload.antt =====
-- The payload that a message header and one part make: how it is written, and what is read of it.
use aimee_module_sandbox.Base.{
  ℕ, ◌+◌, ◌≤◌, some, [], ◌∷◌, ◌++◌, ◌≡◌, refl, arith, sym, ap, ◌∙◌, length, take, drop, length-drop,
  take_all,
}
use mathlib.Core.List.{append_assoc}
use aimee_module_sandbox.GoString.{Bytes}
use aimee_module_sandbox.Bus.Memory.{write_at}
use aimee_module_sandbox.Bus.Message.{
  ModuleMessage, module_message_header_len, message_header, checked_message, decode_module_message,
}
use aimee_module_sandbox.Bus.Message.Guards.{
  IsMessage, IsNarrow, read-message_header, long_enough, checked_lem, decode_headed,
  header-IsHeaded,
}
use aimee_module_sandbox.Bus.Fragments.{write_behind}

length-message_header : (m : ModuleMessage) → length (message_header m) ≡ module_message_header_len
unfolding message_header
length-message_header m = refl

abbrev pub written_message : ModuleMessage → Bytes → Bytes
written_message m out = message_header m ++ drop module_message_header_len out

pub drop_header :
    (m : ModuleMessage) (s : Bytes) → drop module_message_header_len (message_header m ++ s) ≡ s
unfolding message_header
drop_header m s = refl

take-append : (s t : Bytes) → take (length s) (s ++ t) ≡ s
take-append [] t = refl
take-append (b ∷ s) t = ap (◌∷◌ b) (take-append s t)

-- A part copied behind the header.
pub write_part :
    (m : ModuleMessage) (out part : Bytes)
    → module_message_header_len + length part ≤ length out
    → write_at (written_message m out) module_message_header_len part
      ≡ (message_header m ++ part) ++ drop (length part) (drop module_message_header_len out)
write_part m out part room =
    ap (λ (n : ℕ). write_at (written_message m out) n part) (sym (length-message_header m))
    ∙ write_behind (message_header m) (drop module_message_header_len out) part
        (omega (arith, length-drop module_message_header_len out))
    ∙ sym (
        append_assoc (message_header m) part
          (drop (length part) (drop module_message_header_len out)))

pub length-payload :
    (m : ModuleMessage) (part : Bytes)
    → length (message_header m ++ part) ≡ module_message_header_len + length part
length-payload m part = long_enough (message_header m) part (length-message_header m)

pub take_payload :
    (m : ModuleMessage) (out part : Bytes)
    → module_message_header_len + length part ≤ length out
    → take
        (module_message_header_len + length part)
        (write_at (written_message m out) module_message_header_len part)
      ≡ message_header m ++ part
take_payload m out part room =
    ap (take (module_message_header_len + length part)) (write_part m out part room)
    ∙ ap
        (λ (n : ℕ).
          take n
            ((message_header m ++ part) ++ drop (length part) (drop module_message_header_len out)))
        (sym (length-payload m part))
    ∙ take-append (message_header m ++ part)
        (drop (length part) (drop module_message_header_len out))

-- The payload decodes to its message, and the body of the message is the part.
pub decode-payload :
    (m : ModuleMessage) (part : Bytes)
    → IsMessage m
    → IsNarrow m
    → m.body_len ≡ length part
    → decode_module_message (message_header m ++ part) ≡ some m
decode-payload m part legal narrow len =
    decode_headed (message_header m ++ part) (header-IsHeaded m part)
    ∙ ap (λ r. checked_message r (message_header m ++ part))
        (read-message_header m part legal narrow)
    ∙ checked_lem m (message_header m ++ part) legal (omega (arith, len, length-payload m part))

pub take-part :
    (m : ModuleMessage) (part : Bytes)
    → m.body_len ≡ length part
    → take m.body_len (drop module_message_header_len (message_header m ++ part)) ≡ part
take-part m part len =
    ap (take m.body_len) (drop_header m part) ∙ take_all m.body_len part (omega (arith, len))
