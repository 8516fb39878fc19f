-- ===== src/Bus/Wire/RoundTrip.antt =====
-- `Encode` and `Decode` of a frame, one after the other.
use aimee_module_sandbox.Base.{
  ℕ, ◌+◌, ◌≤◌, ◌<◌, true, false, not, [], ◌++◌, ◌≡◌, refl, arith, sym, ap, ltb, ◌==◌, length, drop,
  if_elim, ◌∙◌, length-append, All,
}
use aimee_module_sandbox.GoString.{Bytes, IsByte}
use aimee_module_sandbox.Bus.LittleEndian.{put_le, get_le, get_le-put_le, to_bound, field_at}
use aimee_module_sandbox.Bus.Wire.{
  Frame, Result, ok, err_short, err_magic, err_version, err_flags, err_payload_len, err_correlation,
  err_reserved, wire_magic, hdr_len, header, read_frame, validate, is_ok, encode, decode, accepted,
}

-- Every field is within its width.
abbrev pub IsSized : Frame → Type 0
IsSized f =
    (f.hdr_flags < 65536)
    × (f.wire_version < 65536)
    × (f.event_kind < 4294967296)
    × (f.principal_ref < 4294967296)
    × (f.correlation_id < 18446744073709551616)
    × (f.seq < 18446744073709551616)
    × (f.logical_ts < 18446744073709551616)
    × (f.payload_ref < 18446744073709551616)
    × (f.payload_len < 4294967296)
    × (f.src_handle < 4294967296)
    × (f.dst_handle < 4294967296)
    × (f.generation < 4294967296)

read_frame-header : (f : Frame) (rest : Bytes) → IsSized f → read_frame (header f ++ rest) ≡ f
unfolding read_frame header
read_frame-header f rest (h0, h1, h2, h3, h4, h5, h6, h7, h8, h9, h10, h11) = λ i. record {
  hdr_flags = get_le-put_le 2 f.hdr_flags [] (to_bound h0 refl) i;
  wire_version = get_le-put_le 2 f.wire_version [] (to_bound h1 refl) i;
  event_kind = get_le-put_le 4 f.event_kind [] (to_bound h2 refl) i;
  principal_ref = get_le-put_le 4 f.principal_ref [] (to_bound h3 refl) i;
  correlation_id = get_le-put_le 8 f.correlation_id [] (to_bound h4 refl) i;
  seq = get_le-put_le 8 f.seq [] (to_bound h5 refl) i;
  logical_ts = get_le-put_le 8 f.logical_ts [] (to_bound h6 refl) i;
  payload_ref = get_le-put_le 8 f.payload_ref [] (to_bound h7 refl) i;
  payload_len = get_le-put_le 4 f.payload_len [] (to_bound h8 refl) i;
  src_handle = get_le-put_le 4 f.src_handle [] (to_bound h9 refl) i;
  dst_handle = get_le-put_le 4 f.dst_handle [] (to_bound h10 refl) i;
  generation = get_le-put_le 4 f.generation [] (to_bound h11 refl) i;
}

not_short : (n : ℕ) → hdr_len ≤ n → ltb n hdr_len ≡ true → ⊥
not_short n h e = ground arith

long_enough : (s t : Bytes) → length s ≡ hdr_len → hdr_len ≤ length (s ++ t)
long_enough s t h = omega (arith, length-append s t)

-- A frame that the rules accept, with its fields within their widths, is written in full at the
-- front of a buffer that has room, with the rest of the buffer as it was, and is decoded from the
-- buffer as itself.
pub decode-encode :
    (f out_frame : Frame) (out : Bytes)
    → IsSized f
    → hdr_len ≤ length out
    → validate f ≡ ok
    → (encode f out ≡ (hdr_len, header f ++ drop hdr_len out))
      × (length (header f) ≡ hdr_len)
      × (decode (header f ++ drop hdr_len out) out_frame ≡ (ok, f))
unfolding encode decode header
decode-encode f out_frame out sized room valid = (
  if_elim (λ r. r ≡ (hdr_len, header f ++ drop hdr_len out)) (ltb (length out) hdr_len)
      (λ e. absurd (not_short (length out) room e)) λ e. rw valid refl,
  refl,
  if_elim (λ (r : Result × Frame). r ≡ (ok, f))
      (ltb (length (header f ++ drop hdr_len out)) hdr_len)
      (λ e. absurd (not_short _ (long_enough (header f) (drop hdr_len out) refl) e))
      λ e. rw (read_frame-header f (drop hdr_len out) sized, valid) refl,
)

header-read_frame :
    (s : Bytes)
    → All IsByte s
    → hdr_len ≤ length s
    → get_le 4 s ≡ wire_magic
    → header (read_frame s) ++ drop hdr_len s ≡ s
unfolding header read_frame
header-read_frame s h long magic = chain_magic (
    chain 2 4 6 (omega arith) refl (
      chain 2 6 8 (omega arith) refl (
        chain 4 8 12 (omega arith) refl (
          chain 4 12 16 (omega arith) refl (
            chain 8 16 24 (omega arith) refl (
              chain 8 24 32 (omega arith) refl (
                chain 8 32 40 (omega arith) refl (
                  chain 8 40 48 (omega arith) refl (
                    chain 4 48 52 (omega arith) refl (
                      chain 4 52 56 (omega arith) refl (
                        chain 4 56 60 (omega arith) refl
                          (chain 4 60 64 (omega arith) refl refl))))))))))))
  where
    chain :
        (n k m : ℕ)
        → m ≤ length s
        → k + n ≡ m
        → {t : Bytes} → t ≡ drop m s
        → put_le n (get_le n (drop k s)) ++ t ≡ drop k s
    chain n k m fits e {t} q =
        ap (λ r. put_le n (get_le n (drop k s)) ++ r) q ∙ field_at n k m s h fits e

    chain_magic : {t : Bytes} → t ≡ drop 4 s → put_le 4 wire_magic ++ t ≡ s
    chain_magic {t} q = ap (λ v. put_le 4 v ++ t) (sym magic) ∙ chain 4 0 4 (omega arith) refl q

failure : (r : Result) (f g : Frame) → is_ok r ≡ false → ◌≡◌ {A = Result × Frame} (r, f) (ok, g) → ⊥
failure r f g bad q = absurd (cc (ap (λ (p : Result × Frame). is_ok p.0) q, bad))

validate_of :
    (f out_frame : Frame) (r : Result) (g : Frame)
    → accepted f out_frame r ≡ (ok, g)
    → (r ≡ ok) × (f ≡ g)
validate_of f out_frame ok g e = (refl, ap (λ p. p.1) e)
validate_of f out_frame err_short g q = absurd (failure err_short out_frame g refl q)
validate_of f out_frame err_magic g q = absurd (failure err_magic out_frame g refl q)
validate_of f out_frame err_version g q = absurd (failure err_version out_frame g refl q)
validate_of f out_frame err_flags g q = absurd (failure err_flags out_frame g refl q)
validate_of f out_frame err_payload_len g q = absurd (failure err_payload_len out_frame g refl q)
validate_of f out_frame err_correlation g q = absurd (failure err_correlation out_frame g refl q)
validate_of f out_frame err_reserved g q = absurd (failure err_reserved out_frame g refl q)

-- Bytes that decode are the encoding of the frame they give: written over them, the frame leaves
-- them as they are; and the frame is one that the rules accept.
pub encode-decode :
    (s : Bytes) (f out_frame : Frame)
    → All IsByte s
    → decode s out_frame ≡ (ok, f)
    → (validate f ≡ ok) × (encode f s ≡ (hdr_len, s))
unfolding decode encode
encode-decode s f out_frame bytes =
    if_elim Goal (ltb (length s) hdr_len) (λ short q. absurd (failure err_short out_frame f refl q))
      λ long.
        if_elim Goal (not (get_le 4 s == wire_magic))
          (λ other q. absurd (failure err_magic out_frame f refl q))
          λ magic q.
            let (valid, same) =
              validate_of (read_frame s) out_frame (validate (read_frame s)) f q in
            let accepted_frame : validate f ≡ ok = ap validate (sym same) ∙ valid in
            (
              accepted_frame,
              rewritten (enough (length s) long) accepted_frame (
                  ap (λ g. header g ++ drop hdr_len s) (sym same)
                  ∙ header-read_frame s bytes (enough (length s) long)
                      (is_magic (get_le 4 s) magic)),
            )
  where
    Goal : Result × Frame → Type 0
    Goal r = r ≡ (ok, f) → (validate f ≡ ok) × (encode f s ≡ (hdr_len, s))

    enough : (n : ℕ) → ltb n hdr_len ≡ false → hdr_len ≤ n
    enough n h = ground arith

    is_magic : (n : ℕ) → not (n == wire_magic) ≡ false → n ≡ wire_magic
    is_magic n h = ground arith

    rewritten :
        hdr_len ≤ length s
        → validate f ≡ ok
        → header f ++ drop hdr_len s ≡ s
        → encode f s ≡ (hdr_len, s)
    rewritten room valid q =
        if_elim (λ r. r ≡ (hdr_len, s)) (ltb (length s) hdr_len)
          (λ e. absurd (not_short (length s) room e)) λ e. rw valid (ap (λ t. (hdr_len, t)) q)
