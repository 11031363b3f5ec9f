-- ===== src/Loader.antt =====
-- ebpfloader/: the records of the ring buffer, and the life of the probes.
pub mod Decode
pub mod Collector
