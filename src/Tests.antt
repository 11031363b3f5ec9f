-- ===== src/Tests.antt =====
-- Runs of the modelled program at concrete inputs, and the properties applied to them.
mod Data
mod Rules
mod State
mod Engines
mod Captures
mod Filters
mod Output
mod Loader
mod Pipeline
mod Runs
