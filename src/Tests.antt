-- ===== src/Tests.antt =====
-- Sample data, tests, and each theorem at a concrete input.
mod Samples
mod Hubs
mod Views
mod Exchange
mod Forgeries
mod Lives
mod Lines
mod Calls
mod Sockets
mod Paths
mod Attempts
mod Shells
mod Rooms
mod Worlds
mod Locks
mod Sessions
mod Gathering
mod Connecting
mod Deadlines
mod Programs
