-- ===== src/Examples/Cpu.antt =====
-- The core at concrete inputs.
use retro_cpu_emu.Shared.{
  ℕ, ◌+◌, ◌*◌, ◌≡◌, ◌&&◌, refl, ap, sym, subst, suc, ◌<◌, arith, true, false, none,
}
use retro_cpu_emu.IoMmap.{is_io_addr}
use retro_cpu_emu.Machine.{Machine, read_word, write_word, even_addr}
use retro_cpu_emu.Machine.Memory.{read_word-value, read_word-write_word}
use retro_cpu_emu.Addressing.{at_addr, read_word_ea, read_byte_ea, write_byte_ea}
use retro_cpu_emu.Addressing.Operands.{read_byte_ea-write_byte_ea}
use retro_cpu_emu.Context.{illegal, blwp}
use retro_cpu_emu.Execute.Decode.{execute_other, jump_or_bit, rtwp}
use retro_cpu_emu.Addressing.{resolve_ea}
use retro_cpu_emu.Machine.{read_reg, fetch_word, read_byte, finish_read}
use retro_cpu_emu.IoPorts.{tms9995_mem_read_io_byte}
use retro_cpu_emu.IoMmap
use retro_cpu_emu.Execute.Decode.{execute_instruction, fetch_inner}
use retro_cpu_emu.Context.{Context}
use retro_cpu_emu.Shared.{some}
use retro_cpu_emu.Execute.Decoding.{jump_or_bit-taken, execute_other-illegal}
use retro_cpu_emu.Execute.Divide.{floor_div16, rem16, signed32, div_overflow, divs_overflow}
use retro_cpu_emu.Status.{signed16}
use retro_cpu_emu.Execute.Quotients.{div-quotient, Divided, divs-quotient}
use retro_cpu_emu.Execute.Return.{rtwp-blwp, PlainSave, switch_wp}
use retro_cpu_emu.Run.{process_input_pins, is_running}
use retro_cpu_emu.Run.Decrementer.{counter, rounds, rounds-request}
use retro_cpu_emu.Run.Pins.{RunMatches, process_input_pins-RunMatches}
use retro_cpu_emu.Examples.{some_machine, some_context}

read_word-write_word_example :
    (read_word 0x8003 (write_word 0x8003 0x1abcd some_machine).1).0 ≡ 0xabcd
unfolding is_io_addr
read_word-write_word_example = read_word-write_word 0x8003 0x1abcd some_machine refl

read_byte_ea-write_byte_ea_example :
    (read_byte_ea (at_addr 0x8003) (write_byte_ea (at_addr 0x8003) 0x1cd some_machine).1).0 ≡ 0xcd
unfolding is_io_addr
read_byte_ea-write_byte_ea_example =
    read_byte_ea-write_byte_ea (at_addr 0x8003) 0x1cd some_machine refl

jump_or_bit-taken_example :
    (jump_or_bit 0x16fe some_context).1 ≡ record some_context { pc = 0x00fe }
jump_or_bit-taken_example = jump_or_bit-taken 0x16fe some_context (omega arith)

execute_other-illegal_example : execute_other 0xc140 some_context ≡ illegal some_context
execute_other-illegal_example =
    execute_other-illegal 0xc140 some_context (omega arith) (omega arith) (omega arith)

div-quotient_example :
    (floor_div16 (signed32 1 5) 7 * 7 + rem16 (signed32 1 5) 7 ≡ 0x10005)
    × (rem16 (signed32 1 5) 7 < 7)
unfolding div_overflow
div-quotient_example = div-quotient 1 5 7 (omega arith) (omega arith) (omega arith) refl

-- -7 / 2, to -3 with the remainder -1.
divs-quotient_example :
    Divided (divs_overflow 0xffff 0xfff9 2) (signed32 0xffff 0xfff9) (signed16 2)
divs-quotient_example = divs-quotient 0xffff 0xfff9 2

save_plain : PlainSave (switch_wp 0x0040 some_machine)
unfolding is_io_addr
save_plain =
    let e : switch_wp 0x0040 some_machine ≡ 0x8280 =
      ap (λ (w : ℕ). even_addr w) (read_word-value 0x0040 some_machine refl) in
    subst (λ (w : ℕ). PlainSave w) (sym e) (refl, refl, refl)

rtwp-blwp_example :
    let c' = (rtwp (blwp 0x0040 none some_context).1).1 in
    (c'.wp ≡ 0x8000) × (c'.pc ≡ 0x0100) × (c'.st ≡ 0xf003)
rtwp-blwp_example = rtwp-blwp 0x0040 some_context save_plain

-- With no request of interrupt 3 waiting.
abbrev calm_machine : Machine
calm_machine = record some_machine { pending_irq3 = false }

calm_counter : counter calm_machine ≡ 4884
unfolding is_io_addr
calm_counter = read_word-value 0xfffa calm_machine refl

rounds-request_example :
    (counter (rounds 4884 calm_machine) ≡ 0)
    × ((rounds 4884 calm_machine).pending_irq3 ≡ false)
    × ((rounds (suc 4884) calm_machine).pending_irq3 ≡ true)
    × (counter (rounds (suc 4884) calm_machine) ≡ 0xffff)
rounds-request_example = rounds-request 4884 calm_machine calm_counter (omega arith)

process_input_pins-RunMatches_example :
    RunMatches (process_input_pins some_machine)
    × ((some_machine.pin_hlt.now && is_running (process_input_pins some_machine).exec_status)
        ≡ false)
process_input_pins-RunMatches_example = process_input_pins-RunMatches some_machine refl

-- X R1, whose inner word is fetched from the PC: 0506, which negates R6.
abbrev after_x : Context
after_x =
    let (inner, c) = fetch_inner 0x0481 some_context in
    record ((execute_other inner c).1) { pc = 0x0102 }

x_runs : execute_instruction 2 0x0481 some_context ≡ some after_x
unfolding execute_instruction fetch_inner resolve_ea read_word_ea read_reg fetch_word read_word
    read_byte finish_read tms9995_mem_read_io_byte IoMmap.read_byte is_io_addr
    retro_cpu_emu.IoPorts.mmap_probe IoMmap.probe retro_cpu_emu.AddrComparator.probe
    retro_cpu_emu.AddrComparator.take_hit retro_cpu_emu.AddrComparator.first_match IoMmap.reset
    retro_cpu_emu.AddrComparator.reset retro_cpu_emu.AddrComparator.slot_matches
x_runs = refl
