-- ===== src/Pdf.antt =====
-- Byte-level access to PDF files, crates/presslint-pdf/src.
pub mod Source
pub mod Scans
pub mod Strings
pub mod ArrayExtent
pub mod DictionaryExtent
pub mod Ownership
pub mod Reference
pub mod Headers
mod Tests
