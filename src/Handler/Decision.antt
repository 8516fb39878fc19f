-- ===== src/Handler/Decision.antt =====
-- The decision on a proxied request.
use aimee_module_sandbox.Base.{
  true, false, ◌&&◌, Option, none, some, [], ◌≡◌, refl, arith, sym, ap, ◌⊎◌, ◌∙◌, if_elim,
}
use mathlib.Core.Path.{subst}
use aimee_module_sandbox.GoString.{Bytes, Unicode}
use aimee_module_sandbox.Proxy.Address.{proxy_port_allowed}
use aimee_module_sandbox.Proxy.Host.{proxy_host_allowed}
use aimee_module_sandbox.Proxy.Request.{
  ProxyKind, invalid, api, connect, absolute, Classified, classify_proxy_request_line,
}
use aimee_module_sandbox.Proxy.Request.Grammar.{RequestLine}
use aimee_module_sandbox.Proxy.Request.Sound.{classify_proxy_request_line_sound}
use aimee_module_sandbox.Proxy.Rewrite.{rewrite_proxy_head}
use aimee_module_sandbox.Proxy.Rewrite.Spec.{Rewritten, rewrite_proxy_head_lem}
use aimee_module_sandbox.Handler.{
  ProxyRequestPolicyRequest, ProxyRequestPolicyResponse, list_of, is_forwarding, is_absolute,
  permits, response, rewritten, decide,
}

-- What is forwarded for a request that is let through: nothing for a tunnel, and a rewritten head
-- for an absolute request.
abbrev pub IsForwarded : Unicode → Bytes → ProxyKind → Bytes → Type 0
IsForwarded u line connect head = head ≡ []
IsForwarded u line absolute head = Rewritten u line head
IsForwarded u line invalid head = ⊥
IsForwarded u line api head = ⊥

-- What holds of a request that is let through, by the response to it.
abbrev pub IsPermitted : Unicode → ProxyRequestPolicyRequest → ProxyRequestPolicyResponse → Type 0
IsPermitted u request r =
    RequestLine request.line (record { kind = r.kind; host = r.host; port = r.port })
    × ((r.port ≡ 80) ⊎ (r.port ≡ 443))
    × (proxy_host_allowed r.host (list_of request.allowlist) ≡ true)
    × IsForwarded u request.line r.kind r.forward_head

permits_sound :
    (c : Classified) (list : Bytes)
    → permits c list ≡ true
    → (is_forwarding c.kind ≡ true)
      × (proxy_port_allowed c.port ≡ true)
      × (proxy_host_allowed c.host list ≡ true)
unfolding permits
permits_sound c list h = ground arith

-- A class that is not among the forwarded kinds cannot be permitted; the others are valid lines.
forwarded_class :
    (u : Unicode) (request : ProxyRequestPolicyRequest) (c : Classified) (head : Bytes)
    → classify_proxy_request_line request.line ≡ c
    → permits c (list_of request.allowlist) ≡ true
    → IsForwarded u request.line c.kind head
    → IsPermitted u request (response c true head)
unfolding proxy_port_allowed
forwarded_class u request c head q h f =
    let (kind, port, host) = permits_sound c (list_of request.allowlist) h in
    (
      subst (RequestLine request.line) q (
          classify_proxy_request_line_sound request.line
            (λ e. not_invalid c.kind (sym (ap (λ (d : Classified). d.kind) q) ∙ e) kind)),
      ground arith,
      host,
      f,
    )
  where
    not_invalid : (kind : ProxyKind) → kind ≡ invalid → is_forwarding kind ≡ true → ⊥
    not_invalid kind e k = absurd (cc (ap is_forwarding e, k))

absolute_case :
    (u : Unicode) (request : ProxyRequestPolicyRequest) (c : Classified) (o : Option Bytes)
    → classify_proxy_request_line request.line ≡ c
    → permits c (list_of request.allowlist) ≡ true
    → is_absolute c.kind ≡ true
    → rewrite_proxy_head u request.line ≡ o
    → (rewritten c o).allowed ≡ true
    → IsPermitted u request (rewritten c o)
absolute_case u request c none q h k e a = absurd (cc a)
absolute_case u request c (some head) q h k e a = forwarded_class u request c head q h (go c.kind k)
  where
    go : (kind : ProxyKind) → is_absolute kind ≡ true → IsForwarded u request.line kind head
    go absolute k = rewrite_proxy_head_lem u request.line e
    go connect k = absurd (cc k)
    go invalid k = absurd (cc k)
    go api k = absurd (cc k)

tunnel_case :
    (u : Unicode) (request : ProxyRequestPolicyRequest) (c : Classified)
    → classify_proxy_request_line request.line ≡ c
    → (permits c (list_of request.allowlist) && is_absolute c.kind) ≡ false
    → permits c (list_of request.allowlist) ≡ true
    → IsPermitted u request (response c true [])
tunnel_case u request c q n h =
    forwarded_class u request c [] q h
      (go c.kind (ground arith) (permits_sound c (list_of request.allowlist) h).0)
  where
    go :
        (kind : ProxyKind)
        → is_absolute kind ≡ false
        → is_forwarding kind ≡ true
        → IsForwarded u request.line kind []
    go connect n k = refl
    go absolute n k = absurd (cc n)
    go invalid n k = absurd (cc k)
    go api n k = absurd (cc k)

-- A request is let through only where its first line has the grammar of a tunnel or of an absolute
-- request, with the host and the port of the response, the port is 80 or 443, and the list in
-- force allows the host; and what is forwarded is nothing for a tunnel and the rewritten head for
-- an absolute request.
pub decide-IsPermitted :
    (u : Unicode) (request : ProxyRequestPolicyRequest)
    → (decide u request).allowed ≡ true
    → IsPermitted u request (decide u request)
unfolding decide
decide-IsPermitted u request =
    let c = classify_proxy_request_line request.line in
    if_elim (λ (r : ProxyRequestPolicyResponse). r.allowed ≡ true → IsPermitted u request r)
      (permits c (list_of request.allowlist) && is_absolute c.kind)
      (λ both.
        absolute_case u request c (rewrite_proxy_head u request.line) refl (ground arith)
          (ground arith) refl)
      λ n a. tunnel_of n a
  where
    c : Classified
    c = classify_proxy_request_line request.line

    tunnel_of :
        (permits c (list_of request.allowlist) && is_absolute c.kind) ≡ false
        → permits c (list_of request.allowlist) ≡ true
        → IsPermitted u request (response c (permits c (list_of request.allowlist)) [])
    tunnel_of n a =
        subst (λ b. IsPermitted u request (response c b [])) (sym a)
          (tunnel_case u request c refl n a)
