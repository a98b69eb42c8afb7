-- ===== src/Generate.antt =====
-- mysql_seed_generate.h: the command line of mode generate, from the arguments to the specifications
-- of databases. An argument is the list of its bytes before the NUL, and a pointer into argv is the
-- list of the arguments from there up to `argv.arg.until`.
pub mod Name
pub mod Flag
pub mod State
pub mod Count
pub mod Node
pub mod ColType
pub mod Spec
pub mod Valid
