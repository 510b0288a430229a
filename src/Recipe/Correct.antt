-- ===== src/Recipe/Correct.antt =====
-- What the checks of recipe/validate.go accept, without reference to the order of their tests.
pub mod Names
pub mod Parameters
pub mod Values
pub mod Whole
