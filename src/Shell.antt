-- ===== src/Shell.antt =====
-- lab1: the shell, its command trees, how they are printed and how they are executed.
pub mod Syntax
pub mod System
pub mod Execute
pub mod Status
pub mod Conditions
pub mod Print
pub mod Main
pub mod Texts
pub mod Script
pub mod Parse
mod Tests
