-- ===== src/Samples/Requests.antt =====
-- Request lines, heads and decisions at concrete requests.
use aimee_module_sandbox.Base.{
  true, false, none, some, [], ◌++◌, ◌≡◌, ◌≢◌, refl, arith, ◌↔◌, length, All,
}
use aimee_module_sandbox.GoString.{
  Bytes, codes, Unicode, equal, one_of, has_prefix, index_byte, last_index_byte, rune_starts,
  to_lower, trim_space, trim_right, trim_left, trim_suffix, split_on, is_ascii, lower_byte,
  rune_width, fields, split_fields,
}
use aimee_module_sandbox.Proxy.Address.{proxy_port_allowed}
use aimee_module_sandbox.Proxy.Host.{
  copy_proxy_host, copy_loop, is_forbidden, lower_ascii, parse_proxy_port, port_loop,
  proxy_host_allowed, some_entry_allows, entry_allows, suffix_allows, equal_fold_ascii, fold_loop,
  is_separator,
}
use aimee_module_sandbox.Proxy.Request.{
  ProxyKind, invalid, connect, Classified, classify_proxy_request_line, classify_parts,
  classify_target, classify_connect, version_accepted, scan,
}
use aimee_module_sandbox.Proxy.Request.Grammar.{RequestLine}
use aimee_module_sandbox.Proxy.Request.Sound.{classify_proxy_request_line_sound}
use aimee_module_sandbox.Proxy.Request.Complete.{classify_proxy_request_line_complete}
use aimee_module_sandbox.Proxy.Rewrite.{
  rewrite_proxy_head, rewrite_request, collect, emit, survives, read_header, header_name,
  options_of, add_options, proxy_header_should_strip, origin_path, next_line,
  valid_proxy_header_name, name_bytes_valid,
}
use aimee_module_sandbox.Proxy.Rewrite.Lines.{header_lines, read_all, collected, collect_lem}
use aimee_module_sandbox.Proxy.Rewrite.Headers.{IsNameByte, valid_proxy_header_name_iff}
use aimee_module_sandbox.Proxy.Rewrite.Spec.{Rewritten, rewrite_proxy_head_lem}
use aimee_module_sandbox.Learned.Store.{Codec, Faults, Disk}
use aimee_module_sandbox.Handler.{ProxyRequestPolicyRequest, decide, permits, Messages, handle}
use aimee_module_sandbox.Handler.Decision.{IsPermitted, decide-IsPermitted}
use aimee_module_sandbox.Handler.Effects.{IsHandled, handle_lem}

-- The Unicode tables on texts that need none.
abbrev plain : Unicode
plain = record { lower = λ s. s; trim = λ s. s }

abbrev tunnel_line : Bytes
tunnel_line = codes "CONNECT pypi.org:443 HTTP/1.1"

abbrev tunnel_class : Classified
tunnel_class = record { kind = connect; host = codes "pypi.org"; port = 443 }

tunnel_classified : classify_proxy_request_line tunnel_line ≡ tunnel_class
unfolding classify_proxy_request_line classify_parts classify_target classify_connect
    version_accepted equal one_of has_prefix index_byte last_index_byte copy_proxy_host copy_loop
    is_forbidden lower_ascii parse_proxy_port port_loop rune_starts rune_width scan
tunnel_classified = refl

connect-not-invalid : (kind : ProxyKind) → kind ≡ connect → kind ≢ invalid
connect-not-invalid kind e k = cc

classify_proxy_request_line_sound_example :
    RequestLine tunnel_line (classify_proxy_request_line tunnel_line)
classify_proxy_request_line_sound_example =
    classify_proxy_request_line_sound tunnel_line (
      connect-not-invalid (classify_proxy_request_line tunnel_line).kind
        (rw tunnel_classified refl))

tunnel_parsed : RequestLine tunnel_line tunnel_class
tunnel_parsed = rw tunnel_classified at classify_proxy_request_line_sound_holds
  where
    classify_proxy_request_line_sound_holds :
        RequestLine tunnel_line (classify_proxy_request_line tunnel_line)
    classify_proxy_request_line_sound_holds = classify_proxy_request_line_sound tunnel_line (
        connect-not-invalid (classify_proxy_request_line tunnel_line).kind
          (rw tunnel_classified refl))

classify_proxy_request_line_complete_example :
    classify_proxy_request_line tunnel_line ≡ tunnel_class
classify_proxy_request_line_complete_example =
    classify_proxy_request_line_complete tunnel_line tunnel_class tunnel_parsed

abbrev head : Bytes
head = codes "GET http://a.org/x HTTP/1.1\r\nHost: a.org\r\nProxy-Authorization: b\r\n\r\n"

abbrev forwarded : Bytes
forwarded = codes "GET /x HTTP/1.1\r\nHost: a.org\r\nConnection: close\r\n\r\n"

head_rewritten : rewrite_proxy_head plain head ≡ some forwarded
unfolding rewrite_proxy_head rewrite_request collect emit survives read_header header_name
    options_of add_options proxy_header_should_strip origin_path next_line valid_proxy_header_name
    name_bytes_valid equal one_of has_prefix index_byte rune_starts to_lower trim_space trim_right
    trim_left trim_suffix split_on is_ascii lower_byte rune_width scan
head_rewritten = refl

rewrite_proxy_head_lem_example : Rewritten plain head forwarded
rewrite_proxy_head_lem_example = rewrite_proxy_head_lem plain head head_rewritten

abbrev header_text : Bytes
header_text = codes "Host: a.org\r\n\r\n"

collect_lem_example :
    collect plain (length header_text) header_text [] []
    ≡ collected plain
        ([] ++ header_lines header_text)
        (read_all plain (header_lines header_text) [])
collect_lem_example = collect_lem plain (length header_text) header_text [] [] (omega arith)

valid_proxy_header_name_iff_example :
    (valid_proxy_header_name (codes "Host") ≡ true)
    ↔ ((codes "Host" ≢ []) × All IsNameByte (codes "Host"))
valid_proxy_header_name_iff_example = valid_proxy_header_name_iff (codes "Host")

abbrev tunnel_request : ProxyRequestPolicyRequest
tunnel_request = record { line = tunnel_line; allowlist = none }

tunnel_allowed : (decide plain tunnel_request).allowed ≡ true
unfolding decide permits proxy_port_allowed proxy_host_allowed some_entry_allows entry_allows
    suffix_allows equal_fold_ascii fold_loop fields split_fields is_separator lower_ascii
    classify_proxy_request_line classify_parts classify_target classify_connect version_accepted
    equal one_of has_prefix index_byte last_index_byte copy_proxy_host copy_loop is_forbidden
    parse_proxy_port port_loop rune_starts rune_width scan
tunnel_allowed = refl

decide-IsPermitted_example : IsPermitted plain tunnel_request (decide plain tunnel_request)
decide-IsPermitted_example = decide-IsPermitted plain tunnel_request tunnel_allowed

-- Codecs that read one message and write none.
abbrev messages : Messages
messages = record {
  decode_observe = λ s. some (record { git_root = codes "/r"; command = s });
  decode_load = λ s. some s;
  decode_proxy_request = λ s. some (record { line = s; allowlist = none });
  decode_proxy_address = λ s. some s;
  encode_observe = λ r. some [];
  encode_load = λ r. some [];
  encode_proxy_request = λ r. some r.forward_head;
  encode_proxy_address = λ b. some [];
  parse_ip = λ s. some s;
}

abbrev json : Codec
json = record { unmarshal = λ s. some (some []); marshal = λ d. some (codes "{}") }

abbrev no_faults : Faults
no_faults = record {
  stat = false;
  read_file = false;
  create_temp = false;
  write = false;
  close = false;
  rename = false;
  remove = false;
}

abbrev fresh_disk : Disk
fresh_disk = record { sidecar = none; temps = 0 }

handle_lem_example :
    IsHandled plain messages false json no_faults fresh_disk true 1
      (codes "apt install curl")
      (handle plain messages false json no_faults fresh_disk true 1 (codes "apt install curl"))
handle_lem_example =
    handle_lem plain messages false json no_faults fresh_disk true 1 (codes "apt install curl")
