-- ===== src/Tests.antt =====
-- The theorems at concrete inputs, and runs of the definitions.
mod Filters
mod Plans
mod Decoding
mod Polls
mod Requests
mod Control
mod Storage
mod Services
mod Creation
