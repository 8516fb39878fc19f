-- ===== src/Handler.antt =====
-- `NewHandler`, the handlers of the four stages and `encode`, of
-- server-go/modules/sandbox/module.go and the end of proxy_policy.go. The JSON codecs of the
-- messages and `net.ParseIP` are parameters, and so is whether the invocation has been cancelled.
pub mod Decision
pub mod Effects
use aimee_module_sandbox.Base.{
  ℕ, zero, suc, ◌%◌, Bool, true, false, ◌&&◌, ◌||◌, Option, none, some, List, [], ◌∷◌, ltb, leb,
  ◌==◌, if◌then◌else◌, length,
}
use aimee_module_sandbox.GoString.{Bytes, Unicode}
use aimee_module_sandbox.Proxy.Address.{proxy_port_allowed, proxy_ip_blocked}
use aimee_module_sandbox.Proxy.Host.{default_package_allowlist, proxy_host_allowed}
use aimee_module_sandbox.Proxy.Request.{
  ProxyKind, invalid, api, connect, absolute, Classified, classify_proxy_request_line,
}
use aimee_module_sandbox.Proxy.Rewrite.{rewrite_proxy_head}
use aimee_module_sandbox.Learned.Parse.{learn_max, parse_apt}
use aimee_module_sandbox.Learned.Store.{
  Codec, Faults, Disk, Recording, recorded, failed, panicked, load, record_names,
}

-- `ModuleStatus`, without the two values that the runtime alone reports.
pub data ModuleStatus : Type 0 where
  ok cancelled invalid_request internal : ModuleStatus

pub record ProxyRequestPolicyRequest : Type 0 where
  pub line : Bytes
  pub allowlist : Option Bytes

pub record ProxyRequestPolicyResponse : Type 0 where
  pub kind : ProxyKind
  pub host : Bytes
  pub port : ℕ
  pub allowed : Bool
  pub forward_head : Bytes

pub record ObserveRequest : Type 0 where
  pub git_root : Bytes
  pub command : Bytes

pub record ObserveResponse : Type 0 where
  pub parsed : ℕ
  pub recorded : ℕ
  pub packages : List Bytes

-- encoding/json on the messages, and `net.ParseIP`.
pub record Messages : Type 0 where
  pub decode_observe : Bytes → Option ObserveRequest
  pub decode_load : Bytes → Option Bytes
  pub decode_proxy_request : Bytes → Option ProxyRequestPolicyRequest
  pub decode_proxy_address : Bytes → Option Bytes
  pub encode_observe : ObserveResponse → Option Bytes
  pub encode_load : List Bytes → Option Bytes
  pub encode_proxy_request : ProxyRequestPolicyResponse → Option Bytes
  pub encode_proxy_address : Bool → Option Bytes
  pub parse_ip : Bytes → Option Bytes

abbrev pub module_message_max_body : ℕ
module_message_max_body = 16777216

-- A body and a status; nil and the empty body are one.
abbrev pub Reply : Type 0
Reply = Bytes × ModuleStatus

-- How a call of a handler ends: with a reply, or with the panic of a call below it.
pub data Handled : Type 0 where
  replied : Reply → Handled
  panics : Handled

-- `encode`
unfoldable pub encode : Option Bytes → Reply
encode none = ([], internal)
encode (some encoded) =
    if ltb module_message_max_body (length encoded % 4294967296)
    then ([], internal)
    else (encoded, ok)

abbrev pub list_of : Option Bytes → Bytes
list_of none = default_package_allowlist
list_of (some list) = list

abbrev pub is_forwarding : ProxyKind → Bool
is_forwarding connect = true
is_forwarding absolute = true
is_forwarding invalid = false
is_forwarding api = false

abbrev pub is_absolute : ProxyKind → Bool
is_absolute absolute = true
is_absolute connect = false
is_absolute invalid = false
is_absolute api = false

-- `response.Allowed`, before the head is rewritten.
unfoldable pub permits : Classified → Bytes → Bool
permits c list =
    is_forwarding c.kind && (proxy_port_allowed c.port && proxy_host_allowed c.host list)

abbrev pub response : Classified → Bool → Bytes → ProxyRequestPolicyResponse
response c allowed head = record {
  kind = c.kind;
  host = c.host;
  port = c.port;
  allowed = allowed;
  forward_head = head;
}

abbrev pub rewritten : Classified → Option Bytes → ProxyRequestPolicyResponse
rewritten c none = response c false []
rewritten c (some head) = response c true head

-- The decision of `handleProxyRequest` on a decoded request.
unfoldable pub decide : Unicode → ProxyRequestPolicyRequest → ProxyRequestPolicyResponse
decide u request =
    let c = classify_proxy_request_line request.line in
    if permits c (list_of request.allowlist) && is_absolute c.kind
    then rewritten c (rewrite_proxy_head u request.line)
    else response c (permits c (list_of request.allowlist)) []

module _ (u : Unicode) (messages : Messages) (is_cancelled : Bool) where
  abbrev pub decided : Option ProxyRequestPolicyRequest → Reply
  decided none = ([], invalid_request)
  decided (some request) =
      if is_cancelled
      then ([], cancelled)
      else encode (messages.encode_proxy_request (decide u request))

  unfoldable pub handle_proxy_request : Bytes → Reply
  handle_proxy_request request = decided (messages.decode_proxy_request request)

  abbrev pub judged : Option Bytes → Reply
  judged none = ([], invalid_request)
  judged (some ip) =
      if is_cancelled
      then ([], cancelled)
      else encode (messages.encode_proxy_address (proxy_ip_blocked (messages.parse_ip ip)))

  unfoldable pub handle_proxy_address : Bytes → Reply
  handle_proxy_address request = judged (messages.decode_proxy_address request)

  module _ (json : Codec) (faults : Faults) (disk : Disk) where
    abbrev pub loaded : Option Bytes → Reply
    loaded none = ([], invalid_request)
    loaded (some root) =
        if length root == 0
        then ([], invalid_request)
        else if is_cancelled
        then ([], cancelled)
        else encode (messages.encode_load (load json faults disk root learn_max))

    unfoldable pub handle_load : Bytes → Reply
    handle_load request = loaded (messages.decode_load request)

    abbrev pub learned : List Bytes → Recording × Disk → Handled × Disk
    learned parsed (panicked, after) = (panics, after)
    learned parsed (failed, after) = (replied ([], internal), after)
    learned parsed (recorded added, after) = (
      replied (
          encode (
            messages.encode_observe
              (record { parsed = length parsed; recorded = added; packages = parsed }))),
      after,
    )

    -- `handleObserve` behind its guards; nothing is recorded where nothing was parsed.
    unfoldable pub observe : Bytes → List Bytes → Handled × Disk
    observe root parsed =
        if length parsed == 0
        then learned parsed (recorded 0, disk)
        else learned parsed (record_names json faults disk root parsed)

    abbrev pub observed : Option ObserveRequest → Handled × Disk
    observed none = (replied ([], invalid_request), disk)
    observed (some request) =
        if length request.git_root == 0
        then (replied ([], invalid_request), disk)
        else if is_cancelled
        then (replied ([], cancelled), disk)
        else observe request.git_root (parse_apt learn_max request.command)

    unfoldable pub handle_observe : Bytes → Handled × Disk
    handle_observe request = observed (messages.decode_observe request)

    -- `NewHandler`: the stages, with or without a store.
    unfoldable pub handle : Bool → ℕ → Bytes → Handled × Disk
    handle has_store stage request =
        if stage == 1
        then (if has_store then handle_observe request else (replied ([], internal), disk))
        else if stage == 2
        then (replied (if has_store then handle_load request else ([], internal)), disk)
        else if stage == 3
        then (replied (handle_proxy_request request), disk)
        else if stage == 4
        then (replied (handle_proxy_address request), disk)
        else (replied ([], invalid_request), disk)
