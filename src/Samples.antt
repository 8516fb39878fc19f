-- ===== src/Samples.antt =====
-- The theorems at concrete inputs, and runs of the definitions.
mod Requests
mod Addresses
mod Packages
mod Frames
mod Messages
mod Rings
mod Modules
mod Clients
