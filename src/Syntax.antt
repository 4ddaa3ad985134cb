-- ===== src/Syntax.antt =====
-- crates/presslint-syntax: content-stream tokens, their serialization, and operator records.
pub mod Model
pub mod Tokenizer
pub mod Serializer
pub mod Assembler
mod Tests
