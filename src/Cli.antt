-- ===== src/Cli.antt =====
-- backend/src/cli: the arguments of the command.
pub mod Options
