-- ===== src/Filter.antt =====
-- parseon-core/src/filter.rs: the filter language, its compiler and its evaluator.
pub mod Ast
pub mod Limits
pub mod Fields
pub mod Literals
pub mod Compile
pub mod Evaluate
pub mod Definition
pub mod Kinds
pub mod Meaning
pub mod Shape
pub mod Canonical
pub mod Rewritten
