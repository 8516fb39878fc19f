-- ===== src/Bus/Message/RoundTrips.antt =====
-- Encoding and decoding of the message header, one after the other.
use aimee_module_sandbox.Base.{
  ℕ, ◌+◌, ◌-◌, ◌≤◌, true, not, ◌||◌, some, ◌++◌, ◌≡◌, refl, arith, sym, ap, ltb, length, drop,
  if_elim, ◌∙◌, length-drop, All,
}
use mathlib.Core.Path.{subst}
use mathlib.Core.Option.{some-injective}
use aimee_module_sandbox.GoString.{Bytes, IsByte}
use aimee_module_sandbox.Bus.LittleEndian.{put_le, get_le, field_at}
use aimee_module_sandbox.Bus.Message.{
  ModuleMessage, module_message_magic, module_message_header_len, valid, message_header,
  encode_message, read_message, checked_message, decode_module_message,
}
use aimee_module_sandbox.Bus.Message.Guards.{
  IsMessage, valid_iff, IsNarrow, read-message_header, long_enough, checked_lem, decode_headed,
  decode_some, encode_accepted, header-IsHeaded,
}

-- A message that the rules accept, with its stage, deadline and trace within their widths, is
-- written in 40 bytes at the front of a buffer that has room for it and its body, with the rest of
-- the buffer as it was, and is decoded from the buffer as itself.
pub decode-encode_message :
    (m : ModuleMessage) (out : Bytes)
    → IsMessage m
    → IsNarrow m
    → m.body_len + module_message_header_len ≤ length out
    → let written = message_header m ++ drop module_message_header_len out in
      (encode_message m out ≡ some (module_message_header_len, written))
      × (decode_module_message written ≡ some m)
decode-encode_message m out h narrow room =
    let rest = drop module_message_header_len out in
    let read_back = read-message_header m rest h narrow in
    let fits : m.body_len + module_message_header_len ≤ length (message_header m ++ rest) = omega (
      arith,
      length-drop module_message_header_len out,
      long_enough (message_header m) rest header_length,
    ) in
    (
      encode_accepted m out h (omega arith),
      decode_headed (message_header m ++ rest) (header-IsHeaded m rest)
          ∙ ap (λ r. checked_message r (message_header m ++ rest)) read_back
          ∙ checked_lem m (message_header m ++ rest) h fits,
    )
  where
    header_length : length (message_header m) ≡ module_message_header_len
    header_length = unfold message_header in refl

header-read_message :
    (s : Bytes)
    → All IsByte s
    → module_message_header_len ≤ length s
    → get_le 4 s ≡ module_message_magic
    → get_le 2 (drop 4 s) ≡ 1
    → get_le 2 (drop 6 s) ≡ module_message_header_len
    → message_header (read_message s) ++ drop module_message_header_len s ≡ s
unfolding message_header read_message
header-read_message s h long magic version size =
    fixed 4 0 4 module_message_magic (omega arith) refl magic (
      fixed 2 4 6 1 (omega arith) refl version (
        fixed 2 6 8 module_message_header_len (omega arith) refl size (
          chain 2 8 10 (omega arith) refl (
            chain 2 10 12 (omega arith) refl (
              chain 4 12 16 (omega arith) refl (
                chain 4 16 20 (omega arith) refl (
                  chain 4 20 24 (omega arith) refl (
                    chain 8 24 32 (omega arith) refl (chain 8 32 40 (omega arith) refl refl)))))))))
  where
    chain :
        (n k m : ℕ)
        → m ≤ length s
        → k + n ≡ m
        → {t : Bytes} → t ≡ drop m s
        → put_le n (get_le n (drop k s)) ++ t ≡ drop k s
    chain n k m fits e {t} q =
        ap (λ r. put_le n (get_le n (drop k s)) ++ r) q ∙ field_at n k m s h fits e

    fixed :
        (n k m v : ℕ)
        → m ≤ length s
        → k + n ≡ m
        → get_le n (drop k s) ≡ v
        → {t : Bytes} → t ≡ drop m s
        → put_le n v ++ t ≡ drop k s
    fixed n k m v fits e g {t} q = ap (λ w. put_le n w ++ t) (sym g) ∙ chain n k m fits e q

-- What `checked_message` lets through.
checked_some :
    (m : ModuleMessage) (s : Bytes) (r : ModuleMessage)
    → module_message_header_len ≤ length s
    → checked_message m s ≡ some r
    → (valid m ≡ true) × (m.body_len + module_message_header_len ≤ length s) × (m ≡ r)
unfolding checked_message
checked_some m s r long =
    if_elim
      (λ o.
        o ≡ some r
        → (valid m ≡ true) × (m.body_len + module_message_header_len ≤ length s) × (m ≡ r))
      (not (valid m) || ltb (length s - module_message_header_len) m.body_len)
      (λ bad q. absurd (cc q)) λ fine q. (ground arith, ground arith, some-injective m r q)

-- Bytes that decode are the encoding of the message they give, and hold its whole body: written
-- over them, the message leaves them as they are; and the message is one that the rules accept.
pub encode-decode_module_message :
    (s : Bytes) (m : ModuleMessage)
    → All IsByte s
    → decode_module_message s ≡ some m
    → IsMessage m
      × (m.body_len + module_message_header_len ≤ length s)
      × (encode_message m s ≡ some (module_message_header_len, s))
encode-decode_module_message s m bytes e =
    let ((long, magic, version, size), checked) = decode_some s m e in
    let (good, fits, same) = checked_some (read_message s) s m long checked in
    let legal : IsMessage m = (valid_iff m).0 (ap valid (sym same) ∙ good) in
    let text =
      ap (λ r. message_header r ++ drop module_message_header_len s) (sym same)
      ∙ header-read_message s bytes long magic version size in
    (
      legal,
      subst (λ (r : ModuleMessage). r.body_len + module_message_header_len ≤ length s) same fits,
      encode_accepted m s legal long ∙ ap (λ t. some (module_message_header_len, t)) text,
    )
