-- ===== src/Sinks.antt =====
-- core/ramdb_writer.py and sinks/: the file sinks, which write to a temporary file in the target's
-- directory and rename it over the target's file.
pub mod Replace
pub mod Ramdb
pub mod ArrowIpc
