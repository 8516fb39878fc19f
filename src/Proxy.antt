-- ===== src/Proxy.antt =====
-- server-go/modules/sandbox/proxy_policy.go.
pub mod Address
pub mod Host
pub mod Request
pub mod Rewrite
