-- ===== src/Shell/Parse.antt =====
-- lab1/read-command.c: the parser of the shell.
pub mod Text
pub mod Kind
pub mod Create
pub mod Stream
pub mod Simple
pub mod Lines
pub mod Script
mod Tests
