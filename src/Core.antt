-- ===== src/Core.antt =====
-- The core itself, picorv32.v, beside its units (Pcpi): the data lanes of its memory interface and
-- its shifter.
pub mod Lanes
pub mod Shift
