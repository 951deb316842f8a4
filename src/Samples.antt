-- ===== src/Samples.antt =====
-- Tests of the definitions on small programs, and the theorems at inputs that meet their hypotheses.
pub mod Programs
mod Graphs
mod Reaching
mod Loops
mod Patterns
mod Ambiguity
mod Tainting
mod Resolving
mod Pages
mod Declared
mod Calls
