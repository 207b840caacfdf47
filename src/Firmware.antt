-- ===== src/Firmware.antt =====
-- firmware/: the test firmware that runs on the simulated core.
pub mod Print
pub mod Hello
pub mod Sieve
pub mod Returns
pub mod Stats
pub mod Multest
pub mod Irq
