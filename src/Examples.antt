-- ===== src/Examples.antt =====
-- Concrete runs of src/server: every result with a condition is applied where its conditions hold.
mod Shared
mod Reading
mod Sending
mod Handlers
mod Bodies
mod Bans
mod Login
mod Network
mod Packets
mod Rounds
mod Schedules
mod Sessions
mod Server
mod Accounts
mod Texts
