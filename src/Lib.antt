-- ===== src/Lib.antt =====
-- A model of the AArch64 emulator, a program that runs the machine code of a small kernel, with the
-- theorems that make its parts correct.
--
-- The program. `main` (src/emulator.cc) builds an `Emulator`: the loader (src/loader.cc) maps the
-- program's file and copies its segments into the guest's RAM, and the processor starts at the
-- program's entry point. `Emulator::execute_loop` counts the timer, lets the processor take
-- an interrupt, fetches an instruction word and has the processor decode and execute it, until the
-- word is zero. The processor (src/cpu.cc, src/include/cpu.h) keeps the registers, the flags, the
-- exception level and the system registers. Its accesses go through the translation unit
-- (src/mmu.cc), which walks tables that it reads over the bus, and then over the bus
-- (src/bus.cc), which hands an address to the guest's memory (src/mem.cc), the UART (src/uart.cc),
-- the interrupt controller (src/gic.cc) or the block device (src/virtio.cc). A second thread,
-- `read_stdin`, puts what is typed into the UART's receive buffer.
--
-- The files. Each module has the name of the source's file or class, its record the fields of the
-- class, and its functions the names of the methods; a `switch` or a loop inside a method that has
-- a name of its own here says which method it is part of.
--   Access, Util       the access sizes of src/include/bus.h and the bit helpers of
--                      src/include/utils.h and src/utils.cc
--   Mem, Uart, Gic, Virtio, Bus, Mmu   the devices, the bus and the translation unit
--   Cpu                state, fetch, accesses and conditions; its children are Extend (the operand
--                      extensions), Adder (sums and flags), Interrupt, Immediate and Register (data
--                      processing), LoadStore, System (exceptions, barriers, system registers),
--                      Branch and Decode (the dispatchers from `decode_start` down)
--   Loader             the program's file and its segments; its child Memory has the emulator's own
--                      address space, Image the RAM that a file describes
--   Emulator           one round of the loop, and the loop; its children Start (the constructors and
--                      `main`) and Input (the input thread and its interleavings)
--   Tests              a small machine, runs of it, and the theorems at its states
-- Further children hold proofs and are named for what they prove: Bus/RoundTrip, Mmu/Walk,
-- Virtio/Transfer and Virtio/Writing, Gic/Bounds, Cpu/Decode/Frames, Loader/Segments, Emulator/Boot,
-- Emulator/Delivery and so on. Base has the shared notation, fixed-width arithmetic, the laws of the
-- bit operations, and the type of outcomes.
--
-- Conventions. A w-bit number is a natural number, and wrap-around is written out as a remainder. An
-- operation gives `ok` with its result, `exit` with the status that the source ends the process
-- with, or `undefined` where the C++ behaviour is: an access outside the host's mapped memory, a
-- read past an array, an overflow of a signed number, or a test of a variable that has no value. The
-- build defines NDEBUG, so an `assert` does nothing. Host memory and the disk are partial functions from addresses to bytes. State is
-- passed on explicitly. What the system calls answer, and where the fields of the structures of
-- <elf.h> lie, are parameters: the records System and Elf of Loader. Of the members without an
-- initial value, `entry` and `init_done_`, on which the program's course hangs, are none until they
-- are set. Any other is a number that is not known until it is set, and the theorems hold for every
-- such number; where the source reads one before it is set, as it does the loader's `text_size`,
-- the UART's interrupt mask and the processor's `timer_count`, C++ leaves the read undefined, and
-- the model goes on with the number. The input thread and the processor's thread take turns, at the
-- granularity of one `fgets`, one round of the counting loop, one poll or one register access; in
-- `execute_loop` the thread's steps stand in front of a round, since the poll that a round starts
-- with is all that reads what the thread writes.
--
-- Fuel. `execute_loop` takes the input thread's turns, one number for each round it may run, as the
-- program itself need not end. The loader's loop over the headers has 2 ^ 16 rounds, as their number
-- has 16 bits. The
-- replication of a logical immediate runs at most 7 times, as the element's size doubles from at
-- least 1 to 64. The disk's transfer loop runs over the descriptor's length where that fits its
-- 16-bit counter, and is undefined beyond, where the source does not end.
--
-- Not modelled: logging and debugging output with the count of the rounds that it alone reads, and the
-- destructors, which release files and mappings; but that the input thread is destroyed before it
-- is joined, which aborts the process, is the constructor `aborted` of the result of `main`.
pub mod Base
pub mod Access
pub mod Util
pub mod Mem
pub mod Uart
pub mod Gic
pub mod Virtio
pub mod Bus
pub mod Mmu
pub mod Cpu
pub mod Loader
pub mod Emulator
pub mod Tests
