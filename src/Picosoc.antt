-- ===== src/Picosoc.antt =====
-- picosoc/firmware.c, the demo firmware of the PicoSoC.
pub mod Soc
pub mod Flash
pub mod Text
pub mod Input
pub mod Report
pub mod Memtest
pub mod Benchmark
pub mod Menu
pub mod Progress
