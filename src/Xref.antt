-- ===== src/Xref.antt =====
-- Cross-reference streams: the reader of decoded entries, and the packer of the incremental writer.
pub mod Entries
pub mod Pack
pub mod Bytes
pub mod Records
pub mod Runs
pub mod Subsections
pub mod RoundTrip
pub mod Checks
pub mod Total
mod Tests
