-- ===== src/Tests.antt =====
-- Concrete runs of the program, and instances at which the theorems' hypotheses hold.
pub mod Data
pub mod Session
pub mod Login
pub mod Content
pub mod Store
pub mod Writing
pub mod Markup
pub mod Screens
pub mod Config
pub mod Process
