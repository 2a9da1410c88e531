-- ===== src/Tests.antt =====
-- The theorems at concrete inputs.
mod Gateway
mod Guests
mod Local
mod Network
mod Store
