-- ===== src/Pcpi/Units/Reset.antt =====
-- The units after a reset.
use picorv.Base.{none, ℕ, ◌^◌, ◌<◌, ◌≡◌, refl, true, false}
use picorv.Firmware.Multest.Laws.{AgreesOn}
use picorv.Pcpi.{Request}
use picorv.Pcpi.Mul as MulUnit
use picorv.Pcpi.Div as DivUnit
use picorv.Pcpi.Mul.Clocks as MulClocks
use picorv.Pcpi.Div.Clocks as DivClocks
use picorv.Pcpi.Units.{Units, clock, hard_units}
use picorv.Pcpi.Units.Laws.{IsIdle, hard_units-AgreesOn}

-- A clock in which `resetn` is low.
module _ (i : Request) (low : i.resetn ≡ false) where
  multiplier-clock :
      (s : MulUnit.Multiplier)
      → MulUnit.clock i s ≡ record (MulUnit.output i s (MulUnit.control i s)) {
        mul_finish = false;
        mul_waiting = true;
      }
  unfolding MulUnit.clock
  multiplier-clock s = rw low refl

  divider-clock :
      (s : DivUnit.Divider)
      → DivUnit.clock i s ≡ record (DivUnit.control i s) {
        pcpi_ready = false;
        pcpi_wr = false;
        pcpi_rd = none;
        running = false;
      }
  unfolding DivUnit.clock
  divider-clock s = rw low refl

module _ (a b c : Request) (la : a.resetn ≡ false) (lb : b.resetn ≡ false)
    (lc : c.resetn ≡ false) where
  multiplier-reset :
      (s : MulUnit.Multiplier)
      → MulClocks.IsIdle (MulUnit.clock c (MulUnit.clock b (MulUnit.clock a s)))
  unfolding MulUnit.control MulUnit.output
  multiplier-reset s =
      rw (multiplier-clock a la s, multiplier-clock b lb _, multiplier-clock c lc _)
        (record {
          mul = rw lc refl;
          mulh = rw lc refl;
          mulhsu = rw lc refl;
          mulhu = rw lc refl;
          waits = rw lb refl;
          waited = rw la refl;
          waiting = refl;
          unfinished = refl;
        })

  divider-reset :
      (s : DivUnit.Divider)
      → DivClocks.IsIdle (DivUnit.clock c (DivUnit.clock b (DivUnit.clock a s)))
  unfolding DivUnit.control
  divider-reset s =
      rw (divider-clock a la s, divider-clock b lb _, divider-clock c lc _)
        (record {
          div = rw lc refl;
          divu = rw lc refl;
          rem = rw lc refl;
          remu = rw lc refl;
          waits = rw lb refl;
          waited = rw la refl;
          running = refl;
          silent = refl;
        })

  reset-IsIdle : (u : Units) → IsIdle (clock c (clock b (clock a u)))
  unfolding clock
  reset-IsIdle u = record { mul = multiplier-reset u.mul; div = divider-reset u.div }

  -- Whatever the registers hold, after three clocks with `resetn` low the units carry out the eight
  -- instructions on all 32-bit operands as the C arithmetic of firmware/multest.c does.
  pub hard_units-AgreesOn_after_reset :
      (u : Units) (x y : ℕ)
      → x < 2 ^ 32
      → y < 2 ^ 32
      → AgreesOn (hard_units (clock c (clock b (clock a u)))) x y
  hard_units-AgreesOn_after_reset u x y lx ly =
      hard_units-AgreesOn (clock c (clock b (clock a u))) (reset-IsIdle u) x y lx ly
