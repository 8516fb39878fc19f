-- ===== src/Bus.antt =====
-- server-go/bus: the Go client of the event bus.
pub mod LittleEndian
pub mod Wire
pub mod Message
pub mod Memory
pub mod Fragments
pub mod Ring
pub mod Stages
pub mod Runtime
pub mod Caller
pub mod Region
pub mod Client
