-- ===== src/Lib.antt =====
-- Verification library for the pure cores of PressLint, a PDF prepress engine in Rust.
--
-- A PDF goes through PressLint as bytes, inventory, selectors, actions, patch plan and bytes again.
-- The library models the parts of that path that are pure functions of their input.
--
-- Common: Boolean tests, lists over native numbers, and `Outcome`, what a call of a Rust function
--   comes to: a value, an error of its own, a panic, or `stuck`, a loop of the model without fuel.
-- Types: crates/presslint-types/src/lib.rs, and the inventory entry of
--   crates/presslint-inventory/src/inventory.rs.
-- Syntax: crates/presslint-syntax/src. Syntax/Model has the types of model.rs, Syntax/Tokenizer the
--   functions of tokenizer.rs, Syntax/Serializer those of serializer.rs, Syntax/Assembler those of
--   assembler.rs, each under its name there. The tokenizer's tokens are what the serializer and
--   the assembler read.
-- Selectors: crates/presslint-selectors/src/lib.rs, evaluated over the entries of Types.
-- Xref: cross-reference streams. Xref/Entries has crates/presslint-pdf/src/xref_stream_entries.rs,
--   Xref/Pack the packing of entries in crates/presslint-write/src/xref_stream_writer.rs, which makes
--   the bytes, widths and subsections that the former reads.
-- Pdf: Pdf/Source has the scanners of crates/presslint-pdf/src/source_utils.rs that
--   Pdf/ArrayExtent and Pdf/DictionaryExtent call, the functions of array_extent.rs and
--   dictionary_extent.rs beside it. Pdf/Reference has the parser of `N G <keyword>` in
--   source_utils.rs, and Pdf/Headers object_header.rs, which calls it.
-- Paint: crates/presslint-paint/src. Paint/Names and Paint/Envs have the environments (font_env.rs,
--   extgstate_env.rs, color_space_env.rs), Paint/Operands operands.rs, Paint/Model, Paint/Arms and
--   Paint/Walker the types and the step of walker.rs, Paint/Program the iterator of
--   paint_program.rs, and Paint/CallMachine call_machine.rs, which runs an iterator for each
--   form on its stack. `f64`, the parser of numbers and the resolver of forms are parameters.
-- Actions: crates/presslint-actions/src. Actions/Model has the types, Actions/Plan the planner of
--   lib.rs, which evaluates the selectors of Selectors over the entries of an inventory, and
--   Actions/Boundary the page boxes of patch.rs. The decision about ownership that a boundary holds
--   is in Pdf/Ownership, from crates/presslint-pdf/src/lib.rs.
-- Color: crates/presslint-color/src. Color/Policy has policy.rs, Color/DeviceLink, Color/Spot,
--   Color/Overprint and Color/OutputIntent the resolvers of devicelink.rs, spot.rs, overprint.rs and
--   output_intent.rs, and Color/Plan color_policy.rs, transform_plan.rs and transform_cache.rs. An
--   iterator argument is the list of its items, and a `String` its UTF-8 bytes.
--
-- A byte is a number, a slice a list. A `&mut` argument is a value that the function returns anew.
-- An `Rc` is its value. An index out of range and an `unreachable!` are `panic`. `usize` sums on offsets of a slice are
-- written without wrap, since Rust keeps a slice below 2^63 bytes; the depth counters
-- wrap, at 2^32 in the tokenizer (`u32`) and at 2^64 in the PDF scanners (`usize`), and so does the
-- next object number of `index_runs` (`u32`). A `while` loop takes the length of its list as fuel: each round
-- moves its index forward. The call machine takes any fuel; what is enough depends on the resolver. Stack depth is not modelled: `append_composite_operand` recurs once for
-- each open bracket.
--
-- Not modelled: the inventory builder, the
-- rest of the PDF access layer, and the planners and writers of incremental revisions. Floating-point
-- numbers are a parameter (`Selectors.Float`) with the order laws of finite numbers. Flate and ICC
-- transforms belong to third-party libraries.
pub mod Common
pub mod Syntax
pub mod Types
pub mod Selectors
pub mod Xref
pub mod Pdf
pub mod Paint
pub mod Color
pub mod Actions
