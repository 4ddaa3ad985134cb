-- ===== src/Paint.antt =====
-- The paint program of crates/presslint-paint/src: operators interpreted as graphics-state events.
pub mod Floats
pub mod Names
pub mod Envs
pub mod Layers
pub mod Model
pub mod Operands
pub mod Blame
pub mod Arms
pub mod Walker
pub mod Steps
pub mod Nesting
pub mod Program
pub mod CallMachine
mod Tests
