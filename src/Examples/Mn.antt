-- ===== src/Examples/Mn.antt =====
-- The MN1613 core at concrete inputs.
use retro_cpu_emu.Shared.{
  ◌+◌, ◌*◌, ◌-◌, ◌/◌, ◌%◌, ◌^◌, ◌<◌, ◌≤◌, ◌≡◌, ◌↔◌, ◌⊎◌, refl, arith, true, false, not, ◌&&◌, none,
  [], ◌∷◌, ◌==◌, if◌then◌else◌,
}
use retro_cpu_emu.Shared.Bits.{has}
use retro_cpu_emu.Shared.Int.{ℤ, pos, ◌+ℤ◌, ◌-ℤ◌, ltb_ℤ, pos_part, neg_part}
use retro_cpu_emu.AddrComparator
use retro_cpu_emu.StepBreak
use retro_cpu_emu.IoPorts.{PortMode}
use retro_cpu_emu.Machine.{running}
use retro_cpu_emu.Mn1613.Register.{CpuRegister}
use retro_cpu_emu.Mn1613.Board.{Board, phys, word_at}
use retro_cpu_emu.Mn1613.Core.{Cpu, sub, accept_irq, str_e, str_ovf, iisr_undef}
use retro_cpu_emu.Mn1613.Float.{JsNumber}
use retro_cpu_emu.Mn1613.Move.{signed_word}
use retro_cpu_emu.Mn1613.BitOps.{blk}
use retro_cpu_emu.Mn1613.Logic.{div_by}
use retro_cpu_emu.Mn1613.Extended.{lpsw}
use retro_cpu_emu.Mn1613.Execute.{decode, execute_one}
use retro_cpu_emu.Mn1613.Run.{power_on_idle, reset, tick_cpu, step_one}
use retro_cpu_emu.Mn1613.Memory.{phys-lt}
use retro_cpu_emu.Mn1613.Stack.{
  Refines, pushed, popped, run_stack, list_stack, run_stack-list_stack,
}
use retro_cpu_emu.Mn1613.Alu.{sub-flags}
use retro_cpu_emu.Mn1613.Divide.{Divided, Refused, div_by-result}
use retro_cpu_emu.Mn1613.Psw.{Entered, lpsw-accept_irq}
use retro_cpu_emu.Mn1613.Traps.{decode-undefined}
use retro_cpu_emu.Mn1613.Block.{blk-Ended, blk-copied, source_word, dest_word}
use retro_cpu_emu.Mn1613.Width.Fields.{IsValid}
use retro_cpu_emu.Mn1613.Width.Whole.{execute_one-IsValid}
use retro_cpu_emu.Mn1613.Width.Reached.{here, next, was_reset, ticked, stepped, Reached-IsValid}
use retro_cpu_emu.Examples.{board_ports, low_pin}

abbrev product : ℤ → ℤ → ℤ
product a b =
    let p = pos_part a * pos_part b + neg_part a * neg_part b in
    let n = pos_part a * neg_part b + neg_part a * pos_part b in pos p -ℤ pos n

-- Numbers that are all integral.
abbrev integers : JsNumber
integers = record {
  Num = ℤ;
  of_int = λ a. a;
  to_int = λ a. a;
  to_uint32 = λ a. (2 ^ 32 + pos_part a - neg_part a) % 2 ^ 32;
  add = λ a b. a +ℤ b;
  sub = λ a b. a -ℤ b;
  mul = product;
  div = λ a b. pos (pos_part a / pos_part b);
  neg = λ a. pos 0 -ℤ a;
  abs = λ a. pos (pos_part a + neg_part a);
  floor = λ a. a;
  round = λ a. a;
  trunc = λ a. a;
  log = λ a. a;
  pow = λ a b. pos (pos_part a ^ pos_part b);
  lt = ltb_ℤ;
  eq = λ a b. not (ltb_ℤ a b) && not (ltb_ℤ b a);
  is_finite = λ a. true;
}

-- The whole memory of 256 K words, with a stack in the segment 1.
abbrev pub mn_board : Board
mn_board = record {
  memory = λ a. a % 65521;
  byte_length = 0x80000;
  clock_count = 0;
  pending_irq = 2;
  bank = AddrComparator.reset;
  step_unit = StepBreak.reset;
  ports = record board_ports { mode = PortMode.mn1613 };
  reset_vector = 0x0100;
  io_last_write = λ p. none;
  pin_iop = record { now = false; last = false };
  pin_bsrq = record { now = false; last = false };
  pin_wrt = record { now = false; last = false };
}

abbrev pub mn_register : CpuRegister
mn_register = record {
  r = λ i. if i == 0 then 3 else if i == 1 then 0x2000 else if i == 2 then 0x3000 else 0;
  sp = 0x1000;
  str = 0x8200;
  ic = 0x0400;
  csbr = 2;
  ssbr = 1;
  tsr0 = 0;
  tsr1 = 0;
  osr = λ i. 0;
  npp = 1;
  iisr = 0;
  sbrb = 0;
  icb = 0;
}

abbrev pub mn_cpu : Cpu
mn_cpu = record {
  reg = mn_register;
  board = mn_board;
  exec_status = running;
  step_mode = false;
  breakpoints = λ a. false;
  pin_rst = low_pin;
  pin_hlt = low_pin;
  pin_irq0 = low_pin;
  pin_irq1 = low_pin;
  pin_irq2 = low_pin;
  pin_bsav = low_pin;
  pin_strt = low_pin;
  threw = false;
}

empty_stack : Refines [] mn_cpu
empty_stack = record {
  held = tt;
  depth = omega arith;
  pointer = omega arith;
  segment = λ la. omega (arith, phys-lt la 1);
}

run_stack-list_stack_example :
    ((run_stack (pushed 0x11234 ∷ pushed 5 ∷ popped ∷ []) mn_cpu).0 ≡ (5 ∷ []))
    × Refines (0x1234 ∷ []) (run_stack (pushed 0x11234 ∷ pushed 5 ∷ popped ∷ []) mn_cpu).1
unfolding list_stack
run_stack-list_stack_example =
    run_stack-list_stack (pushed 0x11234 ∷ pushed 5 ∷ popped ∷ []) [] mn_cpu (5 ∷ [], 0x1234 ∷ [])
      empty_stack refl

sub-flags_example :
    ((sub 3 5 mn_cpu).0 + 0 ≡ 0xfffe)
    × (has (sub 3 5 mn_cpu).1.reg.str str_e ≡ true)
    × ((has (sub 3 5 mn_cpu).1.reg.str str_ovf ≡ false)
        ↔ (signed_word (sub 3 5 mn_cpu).0 ≡ signed_word 3 -ℤ signed_word 5))
sub-flags_example = sub-flags 3 5 mn_cpu (omega arith) (omega arith)

div_by-result_example :
    ((0x1001 ≤ 3) × Refused mn_register (div_by 0x1001 0 mn_cpu).1.reg)
    ⊎ ((3 < 0x1001) × Divided 0x1001 mn_register (div_by 0x1001 0 mn_cpu).1.reg)
div_by-result_example = div_by-result 0x1001 0 mn_cpu (omega arith) (omega arith) (omega arith)

lpsw-accept_irq_example :
    ((lpsw 1 (accept_irq 1 mn_cpu).1).1.reg.str ≡ 0x8200)
    × ((lpsw 1 (accept_irq 1 mn_cpu).1).1.reg.ic ≡ 0x0400)
    × ((lpsw 1 (accept_irq 1 mn_cpu).1).1.reg.csbr ≡ 2)
unfolding phys
lpsw-accept_irq_example =
    lpsw-accept_irq 1 mn_cpu (accept_irq 1 mn_cpu).1 (omega arith) (omega arith) (omega arith)
      (omega arith) (omega arith, omega arith) refl refl refl

decode-undefined_example :
    Entered 0 mn_cpu (decode integers 0x0123 mn_cpu).1
    × (has (decode integers 0x0123 mn_cpu).1.reg.iisr iisr_undef ≡ true)
unfolding phys
decode-undefined_example =
    decode-undefined integers 0x0123 mn_cpu (omega arith) (omega arith) (omega arith)
      (omega arith, omega arith)

blk-Ended_example :
    ((blk mn_cpu).1.reg.r 0 ≡ 0)
    × ((blk mn_cpu).1.reg.r 1 ≡ 0x2003)
    × ((blk mn_cpu).1.reg.r 2 ≡ 0x3003)
blk-Ended_example = blk-Ended mn_cpu (omega arith) (omega arith) (omega arith)

blk-copied_example :
    word_at (dest_word mn_cpu 2) (blk mn_cpu).1.board ≡ word_at (source_word mn_cpu 2) mn_board
unfolding phys
blk-copied_example =
    blk-copied 2 mn_cpu (omega arith) (omega arith) (omega arith)
      (record { disjoint = λ i j hi hj e. omega (arith, e); inside = λ j hj. omega arith })
      (omega arith)

register_widths : IsValid mn_register
register_widths = ground arith

execute_one-IsValid_example : IsValid (execute_one integers mn_cpu).1.reg
execute_one-IsValid_example = execute_one-IsValid integers mn_cpu register_widths

Reached-IsValid_example :
    IsValid (step_one integers (tick_cpu integers (reset (power_on_idle mn_cpu)))).reg
Reached-IsValid_example =
    Reached-IsValid integers mn_cpu
      (step_one integers (tick_cpu integers (reset (power_on_idle mn_cpu))))
      (next (next (next here (was_reset _)) (ticked _)) (stepped _))
