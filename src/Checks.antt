-- ===== src/Checks.antt =====
-- Concrete inputs for the theorems.
mod Samples
mod Attempts
mod Rooms
mod Configs
mod Texts
mod Jobs
mod Threads
mod Store
mod Protocol
mod Replies
