-- ===== src/Recipe.antt =====
-- The package recipe: declarative specifications of agents, and the checks on them.
pub mod Spec
pub mod Parameters
pub mod Validate
pub mod Context
pub mod Build
pub mod Correct
mod Witness
