-- ===== src/Dhrystone.antt =====
-- dhrystone/: the run-time library of the benchmark builds.
pub mod Syscalls
pub mod Stdlib
pub mod Strings
pub mod Dhry
