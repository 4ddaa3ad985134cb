-- ===== src/Actions.antt =====
-- crates/presslint-actions/src: recipes, and the plans of the patches that they ask for.
pub mod Model
pub mod Boundary
pub mod Sources
pub mod Plan
pub mod Targets
pub mod Recipes
mod Tests
