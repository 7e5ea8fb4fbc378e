-- ===== src/Cli.antt =====
-- crates/cli: the SQL shell.
pub mod Chars
pub mod Split
pub mod Table
pub mod Shell
pub mod Fuel
