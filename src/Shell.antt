-- ===== src/Shell.antt =====
-- internal/shellcmd: the parts of the interactive shell that compute.
pub mod Lexer
pub mod Parameters
pub mod Distance
