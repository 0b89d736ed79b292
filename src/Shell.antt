-- ===== src/Shell.antt =====
-- shlab-handout/tsh.c: the shell with job control.
pub mod Jobs
pub mod Signals
pub mod Parse
pub mod Eval
mod Tests
