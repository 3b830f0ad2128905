-- ===== src/Lib.antt =====
-- RetroCpuEmu: the two processors of the CPU board of the TypeScript emulator, retrocpu_emu_ts.
--
-- The program emulates a board with one of two processors, an MN1613 or a TMS9995, beside an IO board.
-- Modelled here are both cores and the units that they work with. For the TMS9995:
--   * Status: tms9995/status.ts, and testCondition of tms9995/execute.ts: the status word and what an
--     instruction makes of it.
--   * Machine: the variables of tms9995/tms9995.ts, its access to memory (readByte, writeByte,
--     readWord, writeWord, readReg, writeReg, fetchWord) and its context switch (doBlwp).
--   * Addressing: tms9995/addressing.ts: the operands of an instruction.
--   * Context and Execute: tms9995/execute.ts, executeInstruction with all its branches. Execute.Shift is
--     shiftOp, Execute.Divide the multiplications and divisions, Execute.CruTransfer LDCR and STCR,
--     Execute.Format1 the two-operand instructions, Execute.Single Format 6, Execute.Decode the rest.
--   * Run: the run loop of tms9995/tms9995.ts: interrupts, decrementer, reset, pins, tickCpu.
--   * PinSignal: pin_signal.ts: levels, edges and deferred requests.
--   * IoMmap: tms9995/io_mmap.ts: the memory-mapped IO at FE80 to FEFF, with which a program sets
--     the address comparators (AddrComparator: mn1613/addr_comparator.ts) and the step unit
--     (StepBreak: mn1613/step_break.ts).
--   * Cru: tms9995/cru_handshake.ts: the bits that the two boards exchange.
--   * IoPorts: io_ports.ts and tms9995/cru_timer.ts: the port map that ties these to the core and to
--     the bus that both boards share.
-- For the MN1613, in mn1613/mn1613.ts:
--   * Mn1613.Register: the registers and the fields that select them. Mn1613.Board: the memory, the IO
--     callbacks that io_ports.ts attaches (attachIoBoardPorts), the comparators, the step unit, the
--     clock and the pending interrupts. Mn1613.Bridge: handshake/io_port_bridge.ts.
--   * Mn1613.Core: fetch, addresses, flags, skips, the stack and interrupts. Mn1613.Float: the IBM
--     hexadecimal floats.
--   * Mn1613.Move (groups 01 to 03), BitOps (05 to 07), Arith (08 to 0B), Logic (0C to 0F), Extended
--     (04, _exec04) and Execute (the rest, _executeOne): every instruction.
--   * Mn1613.Run: reset, the pins, tickCpu, step and run.
--   * Mn1613.Memory, Stack, Alu, Divide, Psw, Traps, Block and Width hold proofs alone.
-- For the IO board, in ioboard/timer, ioboard/dma, ioboard/lcd_console and
-- ioboard/setting_area:
--   * IoBoard.Timer: io_timer.ts, the interval timer. IoBoard.Clock: io_time.ts, the 64-bit time.
--   * IoBoard.Dma: dma.ts, the DMA master; IoBoard.Sessions: proofs on it.
--   * IoBoard.Lcd: lcd_console.ts; IoBoard.Screen and IoBoard.Visible: proofs on it.
--   * IoBoard.Settings: setting_area.ts; IoBoard.Stored: proofs on it.
-- For the handshake, in ioboard/handshake and shared/handshake:
--   * Handshake.Cmd and Handshake.Command: the commands and their frame sizes. Handshake.Notify and
--     Handshake.Dispatcher: command_cpu_to_io.ts, the decoder of a notice and the dispatcher, whose
--     handlers are the record CpuToIoHandlers. Handshake.Wire: handshake_ioboard.ts, the transfers by
--     units of two bytes and the receptions of a whole session; a wait that times out is `none`.
--   * Handshake.Debug and Handshake.DebugHost: debug_addr_break.ts, debug_mem_read.ts,
--     debug_mem_write.ts and debug_host.ts of ioboard, the requests of the debugger and their server;
--     Handshake.Requests, Queue and Relays: proofs on them.
--   * Handshake.Layout, Replies, Transfers, Frames and Breaks hold proofs alone.
-- For the disassembler, in dis_assembler/mn1613:
--   * Disassembler.Operand, Moves, Extended, Alu and Decode: decode.ts. Disassembler.Labels:
--     labels.ts. Disassembler.Format: format.ts and mn1613_disassembler.ts.
--   * Disassembler.Lengths, Disputed, Skips and Precedence hold proofs alone; Skips sets the
--     disassembler beside `_skipNext` of the core.
-- For all:
--   * Shared: lists, bits, texts, signed integers and the state monad; Examples: the theorems at concrete
--     inputs.
-- The paths of the cores are below retrocpu_emu_ts/src/cpuboard, the others below retrocpu_emu_ts/src.
--
-- A module variable or a class's field is a record's field with the source's name in lower case, and a
-- function that changes one returns the new state; Shared.State composes such functions. RAM is a
-- function from addresses. `& 0xffff` is `% 2 ^ 16`, other masks and shifts are divisions and
-- remainders by powers of 2, and `|`, `&`, `^` are the native bit operations. A register, a flag word
-- or an address is a natural number; signed readings are integers of Shared.Int.
-- A callback (onHit, doBlwp, illegal) is the value that the caller then acts on. A thrown error is `none`.
--
-- The instruction X executes the word that it fetches, which may be X again: execute_instruction takes
-- fuel and returns `none` past it; a word other than X spends one unit. The decrementer's loop
-- takes as fuel the number of whole 3000s in the clock count, which is the number of its rounds. Shifts
-- and parity are loops on their counts. BLK of the MN1613 takes R0 as fuel, which is the number of its
-- rounds, and the loops of _fpToWords the distance of the exponent from 0 and from 127, past which
-- their conditions fail. A batch of run is a loop on its 1000 rounds; the promise is its outcome.
--
-- The numbers of JavaScript are a parameter of the MN1613's floating point, the record
-- Mn1613.Float.JsNumber of their operations; no law of them is assumed. An exception that leaves an
-- instruction (a read of a comparator slot that is not there) is the field `threw`, cleared before an
-- instruction.
--
-- The DMA master waits on polls of RUN, a list that ends where RUN is low: one that goes on for ever
-- has no end to speak of. The ticks between two pulses of its clock let other code run, which the model
-- leaves out.
--
-- The wire of the handshake is the list of the units, two bytes each, that the CPU sends; the end of the
-- list is the timeout of a wait. The levels of the signals within a unit are left out. An adaptive
-- reception is a loop on the bytes of that list, so it needs no fuel.
--
-- Not modelled: the rest of the IO board, the worker threads and shared buffers, the trace and stop callbacks of the
-- host, the accessors that only the worker and the tests use (setMemory, getPins, getState, and on the
-- TMS9995 setState, pokeByte, peekByte), the names of the CRU signals, the user interface, the assemblers, the
-- editor and debugger extensions, and the monitor programs in assembly.
mod Shared
pub mod Status
pub mod StepBreak
pub mod AddrComparator
pub mod IoMmap
pub mod PinSignal
pub mod Cru
pub mod IoPorts
pub mod Machine
pub mod Addressing
pub mod Context
pub mod Execute
pub mod Run
pub mod Mn1613
pub mod IoBoard
pub mod Disassembler
pub mod Handshake
mod Examples
