-- ===== src/Lib.antt =====
-- The firmware that runs on the PicoRV32 core: the demo firmware of the PicoSoC, the test firmware
-- of the simulated core, the runtime of its Dhrystone port, and a Gray code demo; and of the core
-- itself, the units that multiply and divide, the data lanes of its memory interface and its shifter.
--
-- The parts and their files:
-- * picosoc/firmware.c is Picosoc.antt. Picosoc/Soc is the state that the firmware sees (registers,
--   UART, flash, counters, RAM) and the monad of a routine on it; Flash has flashio and the flash
--   modes, Text the output routines, Input getchar_prompt, getchar and cmd_echo, Report
--   cmd_print_spi_state and the cmd_read_flash_* commands, Memtest cmd_memtest, Benchmark
--   cmd_benchmark and cmd_benchmark_all, Menu main. Both configurations (ICEBREAKER and HX8KDEMO)
--   are modelled: where the file has two versions of a function, Config chooses one. Text/Laws and
--   Text/Decimal say what is printed, Input/Laws what is read and echoed, Flash/Laws which flags the
--   modes set, Memtest/Words, Lanes and Laws what the memory test finds, Benchmark/Laws what the
--   second loop of the benchmark does to its buffer, Benchmark/Reference what its rounds compute,
--   Progress and its children that the routines end.
-- * firmware/print.c, hello.c, sieve.c, stats.c, multest.c and irq.c are the files of these names under
--   Firmware. They write to one output port and may stop at an ebreak; Console has the monad. A
--   state that the C standard leaves undefined is the outcome `undefined`. Sieve/Bitmap, Marking,
--   Primes and Output lead from one bit to what sieve prints.
-- * Of picorv32.v, the modules picorv32_pcpi_div and picorv32_pcpi_mul are Pcpi/Div and Pcpi/Mul, a
--   register each a field, an edge of the clock one call of `clock`. Pcpi/Units has both as the core
--   instantiates them, and on them the routines hard_mul to hard_remu of firmware/start.S, which
--   multest.c calls: they fill the parameter of Firmware/Multest. Rounds has the invariant of the
--   rounds of a unit, Clocks the clocks around them, Laws the result, Service the
--   handshake after an answer, Units/Reset a reset.
-- * Core/Lanes has what the core puts on the data lanes of its memory interface for a store and takes
--   from them for a load, and picosoc_mem of picosoc/picosoc.v behind them; Lanes/Laws is about the
--   stores, Lanes/Loads about the loads. Core/Shift has cpu_state_shift and the barrel shifter.
-- * The generator that picosoc/firmware.c and firmware/multest.c share is Xorshift.
-- * scripts/icestorm/firmware.c is Gray.
-- * dhrystone/stdlib.c is Dhrystone/Stdlib, its strcpy and strcmp Dhrystone/Strings (Zero has
--   the test for a zero byte, Compare and Copy the word loops), and dhrystone/syscalls.c is
--   Dhrystone/Syscalls. dhrystone/dhry_2.c and the procedures of dhrystone/dhry_1.c are
--   Dhrystone/Dhry, with Blocks for the two records; its main is Dhry/Main (the initializations and
--   a run) and Main/Report (what is printed). Main/Runs and Final follow the variables through the
--   runs, Prints, Figures and Output the text; Stdlib/Format says what a format stands for.
-- * scripts/presyn/firmware.c, of which scripts/vivado and scripts/quartus have copies, is Presyn.
-- * Base has the shared helpers: Boolean tests, arrays as lists, bits, texts and numerals. Examples
--   applies the theorems to concrete inputs.
--
-- How the code is read:
-- * A machine word is a natural number; where the C code can wrap, the wrap-around is written out.
-- * Definitions keep the names of the C code. A static variable is an argument and a result.
-- * Assembly and hardware are parameters: the flash (a reply for each byte shifted in), the RAM (what
--   a cell holds after a write), the values that reads of the UART and of the counters give, the
--   instructions under test (Hard), and the memory at the program counter of an interrupt.
-- * A unit of the core answers after a number of clocks: the core holds its request for 36 of them, or
--   68 for the upper half of a product, which is what the units need (two clocks to decode, one or two
--   to load, one for each bit of the operands and one for the result).
-- * Loops are structural in their number of rounds, which is the source's bound where it has one. The
--   other loops run on fuel: the loops of the menu and of the echo on one more than the number of
--   values left in the UART, since each round takes one (`waiting` is a program that polls an empty
--   UART for ever); the marking loop of the sieve on 134, enough for every step that sieve takes; the
--   decoding loop of the Gray code on 8, the bits of a byte. The loops of strcpy and strcmp run on fuel
--   as well, for which one more than the place of the NUL is enough. Two loops of the benchmark have
--   fuel 2, since each makes a single round; its loops over runs and letters are structural. The
--   shifter has as many clocks as its steps by four places and by one need, and one to hand over.
--
-- Not modelled: the rest of the core (the handshake of its memory interface, the decoder, the register
-- file, most of its state machine, the fast multiplier) and the hardware around it, the start-up
-- code, dhrystone/dhry_1_orig.c, which is not built, the floating point units, the C++ demo and the
-- boot loader demo under scripts/, and time and insn of dhrystone/stdlib.c, which read a counter.
pub mod Base
pub mod Console
pub mod Firmware
pub mod Picosoc
pub mod Xorshift
pub mod Gray
pub mod Dhrystone
pub mod Presyn
pub mod Pcpi
pub mod Core
pub mod Examples
