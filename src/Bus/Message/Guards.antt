-- ===== src/Bus/Message/Guards.antt =====
-- The guards of the message header, and the fields behind them.
use aimee_module_sandbox.Base.{
  ℕ, ◌+◌, ◌-◌, ◌≤◌, ◌<◌, true, false, not, ◌||◌, none, some, [], ◌++◌, ◌≡◌, ◌≢◌, refl, arith, ltb,
  ◌==◌, if◌then◌else◌, length, drop, if_elim, length-append, ◌⊎◌, ◌↔◌,
}
use aimee_module_sandbox.GoString.{Bytes}
use aimee_module_sandbox.Bus.LittleEndian.{get_le, get_le-put_le, to_bound}
use aimee_module_sandbox.Bus.Message.{
  ModuleMessage, module_message_magic, module_message_header_len, max_body, valid, message_header,
  encode_message, read_message, checked_message, decode_module_message,
}

-- An invocation has the status 0 and a result one of 0 to 5; there is a stage, no flag is set, and
-- the body is at most 16 MiB.
abbrev pub IsMessage : ModuleMessage → Type 0
IsMessage m =
    (((m.operation ≡ 1) × (m.status ≡ 0)) ⊎ ((m.operation ≡ 2) × (m.status ≤ 5)))
    × (m.stage_id ≢ 0)
    × (m.flags ≡ 0)
    × (m.body_len ≤ max_body)

pub valid_iff : (m : ModuleMessage) → (valid m ≡ true) ↔ IsMessage m
unfolding valid
valid_iff m = ground arith

-- The deadline and the trace are within 64 bits and the stage within 32.
abbrev pub IsNarrow : ModuleMessage → Type 0
IsNarrow m =
    (m.stage_id < 4294967296)
    × (m.deadline_ns < 18446744073709551616)
    × (m.trace_id < 18446744073709551616)

pub read-message_header :
    (m : ModuleMessage) (rest : Bytes)
    → IsMessage m
    → IsNarrow m
    → read_message (message_header m ++ rest) ≡ m
unfolding read_message message_header
read-message_header m rest h (stage, deadline, trace) = λ i. record {
  operation = get_le-put_le 2 m.operation [] (to_bound (operation_small m h) refl) i;
  status = get_le-put_le 2 m.status [] (to_bound (status_small m h) refl) i;
  stage_id = get_le-put_le 4 m.stage_id [] (to_bound stage refl) i;
  flags = get_le-put_le 4 m.flags [] (to_bound (flags_small m h) refl) i;
  body_len = get_le-put_le 4 m.body_len [] (to_bound (body_small m h) refl) i;
  deadline_ns = get_le-put_le 8 m.deadline_ns [] (to_bound deadline refl) i;
  trace_id = get_le-put_le 8 m.trace_id [] (to_bound trace refl) i;
}
  where
    operation_small : (m : ModuleMessage) → IsMessage m → m.operation < 65536
    operation_small m h = ground arith

    status_small : (m : ModuleMessage) → IsMessage m → m.status < 65536
    status_small m h = ground arith

    flags_small : (m : ModuleMessage) → IsMessage m → m.flags < 4294967296
    flags_small m h = ground arith

    body_small : (m : ModuleMessage) → IsMessage m → m.body_len < 4294967296
    body_small m h = ground arith

pub long_enough :
    (s t : Bytes)
    → length s ≡ module_message_header_len
    → length (s ++ t) ≡ module_message_header_len + length t
long_enough s t h = omega (arith, length-append s t)

-- The guards of `checked_message`.
pub checked_lem :
    (m : ModuleMessage) (s : Bytes)
    → IsMessage m
    → m.body_len + module_message_header_len ≤ length s
    → checked_message m s ≡ some m
unfolding checked_message
checked_lem m s h fits =
    let good = (valid_iff m).1 h in
    if_elim (λ o. o ≡ some m)
      (not (valid m) || ltb (length s - module_message_header_len) m.body_len)
      (λ bad. absurd (ground arith)) λ fine. refl

-- The fixed fields of a header.
abbrev pub IsHeaded : Bytes → Type 0
IsHeaded s =
    (module_message_header_len ≤ length s)
    × (get_le 4 s ≡ module_message_magic)
    × (get_le 2 (drop 4 s) ≡ 1)
    × (get_le 2 (drop 6 s) ≡ module_message_header_len)

pub decode_headed :
    (s : Bytes) → IsHeaded s → decode_module_message s ≡ checked_message (read_message s) s
unfolding decode_module_message
decode_headed s (long, magic, version, size) =
    closed (length s) (get_le 4 s) (get_le 2 (drop 4 s)) (get_le 2 (drop 6 s)) long magic version
      size
  where
    closed :
        (n a b c : ℕ)
        → module_message_header_len ≤ n
        → a ≡ module_message_magic
        → b ≡ 1
        → c ≡ module_message_header_len
        → (if ltb n module_message_header_len
              || not (a == module_message_magic)
              || not (b == 1)
              || not (c == module_message_header_len)
            then none
            else checked_message (read_message s) s)
          ≡ checked_message (read_message s) s
    closed n a b c long magic version size = ground arith

pub decode_some :
    (s : Bytes) (m : ModuleMessage)
    → decode_module_message s ≡ some m
    → IsHeaded s × (checked_message (read_message s) s ≡ some m)
unfolding decode_module_message
decode_some s m =
    if_elim (λ o. o ≡ some m → IsHeaded s × (checked_message (read_message s) s ≡ some m))
      (ltb (length s) module_message_header_len
        || not (get_le 4 s == module_message_magic)
        || not (get_le 2 (drop 4 s) == 1)
        || not (get_le 2 (drop 6 s) == module_message_header_len))
      (λ bad q. absurd (cc q))
      λ fine q. (headed (length s) (get_le 4 s) (get_le 2 (drop 4 s)) (get_le 2 (drop 6 s)) fine, q)
  where
    headed :
        (n a b c : ℕ)
        → (ltb n module_message_header_len
            || not (a == module_message_magic)
            || not (b == 1)
            || not (c == module_message_header_len))
          ≡ false
        → (module_message_header_len ≤ n)
          × (a ≡ module_message_magic)
          × (b ≡ 1)
          × (c ≡ module_message_header_len)
    headed n a b c fine = ground arith

pub encode_accepted :
    (m : ModuleMessage) (out : Bytes)
    → IsMessage m
    → module_message_header_len ≤ length out
    → encode_message m out
      ≡ some (module_message_header_len, message_header m ++ drop module_message_header_len out)
unfolding encode_message
encode_accepted m out h room =
    if_elim
      (λ o.
        o
        ≡ some (module_message_header_len, message_header m ++ drop module_message_header_len out))
      (ltb (length out) module_message_header_len || not (valid m))
      (λ bad. absurd (refuted (length out) room bad)) λ fine. refl
  where
    refuted :
        (n : ℕ)
        → module_message_header_len ≤ n
        → (ltb n module_message_header_len || not (valid m)) ≡ true
        → ⊥
    refuted n k bad = let good = (valid_iff m).1 h in ground arith

pub header-IsHeaded : (m : ModuleMessage) (rest : Bytes) → IsHeaded (message_header m ++ rest)
unfolding message_header
header-IsHeaded m rest = (omega (arith, long_enough (message_header m) rest refl), refl, refl, refl)
