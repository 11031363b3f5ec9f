-- ===== src/Detect.antt =====
-- The package detect: the rules over an event and its process's history, and the state around
-- them (tracker, deduplicator, correlator, engine).
pub mod Alert
pub mod Config
pub mod Tracker
pub mod Privesc
pub mod Ptrace
pub mod SensitiveFile
pub mod Revshell
pub mod Dedup
pub mod Storyline
pub mod Engine
