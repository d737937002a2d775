-- ===== src/Cli.antt =====
-- The command line: src/args.ts and src/cli.
pub mod Args
pub mod PromptQueue
mod Examples
