-- ===== src/Events.antt =====
-- The package events: the syscalls, how their arguments are named, the decoding of a kernel record
-- into the event that the rules read, and the captures of events.
pub mod Syscall
pub mod Constants
pub mod Event
pub mod Record
