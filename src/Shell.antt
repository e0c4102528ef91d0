-- ===== src/Shell.antt =====
-- shell.c: the line that is typed, its history, and the commands. A string is the list of its
-- bytes, without the final 0; a pointer that may be null is an `Option`.
pub mod Actions
pub mod Rules
pub mod Words
pub mod History
pub mod Files
pub mod Info
pub mod Execute
