-- ===== src/Output.antt =====
-- output/: the destinations of alerts.
pub mod Terminal
pub mod Dashboard
pub mod Console
pub mod Sink
