-- ===== src/Learned.antt =====
-- server-go/modules/sandbox/sandbox.go: the packages learned from the commands, and their store.
pub mod Grammar
pub mod Tokens
pub mod Parse
pub mod Store
