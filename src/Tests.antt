-- ===== src/Tests.antt =====
-- Runs of the definitions on concrete inputs.
mod Text
mod Calendar
mod Tables
mod Threads
mod Files
mod Generate
