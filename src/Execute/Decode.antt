-- ===== src/Execute/Decode.antt =====
-- `executeInstruction` of execute.ts, its tests in the order of the source.
use retro_cpu_emu.Shared.{
  ℕ, zero, suc, ◌+◌, ◌*◌, ◌-◌, ◌/◌, ◌%◌, ◌^◌, bit_and, bit_or, bit_xor, Bool, true, false, not,
  ◌&&◌, ◌||◌, Option, none, some, ltb, leb, ◌==◌, if◌then◌else◌,
}
use retro_cpu_emu.Shared.State.{State, ◌>>=◌, ◌>>◌, modify, gets}
use retro_cpu_emu.Status.{
  set_lae_word, set_add_flags, set_compare_word, put_flag, st_eq, st_x, test_condition,
}
use retro_cpu_emu.IoPorts.{tms9995_cpu_read_cru_bit, tms9995_cpu_write_cru_bit}
use retro_cpu_emu.Machine
use retro_cpu_emu.Machine.{even_addr, with_mask}
use retro_cpu_emu.Addressing.{Ea, in_reg, at_addr, resolve_ea, read_word_ea, write_word_ea}
use retro_cpu_emu.Context.{Context, on_core, on_ports, from_ports, set_st, set_pc, blwp, illegal}
use retro_cpu_emu.Execute.Shift.{ShiftKind, shift_op}
use retro_cpu_emu.Execute.Divide.{mpy, div, mpys, divs}
use retro_cpu_emu.Execute.CruTransfer.{cru_addr, cru_transfer}
use retro_cpu_emu.Execute.Format1.{Op, format1}
use retro_cpu_emu.Execute.Single.{single}

abbrev set_wp : ℕ → State Context (Unit {0})
set_wp wp c = (tt, record c { wp = wp })

abbrev flags_of : (ℕ → ℕ) → State Context (Unit {0})
flags_of f = modify (λ c. record c { st = f c.st })

-- Format 8, from the fetch of the immediate word on.
unfoldable pub immediate : ℕ → State Context (Unit {0})
immediate ir = do
  let r = ir % 16
  let op = ir / 2 ^ 4 % 16
  imm ← on_core Machine.fetch_word
  if op == 0x0
      then (do on_core (Machine.write_reg r imm); flags_of (λ st. set_lae_word st imm))
      else if op == 0x2
      then (do
        v ← on_core (Machine.read_reg r)
        let old = v % 2 ^ 16
        let nv = (old + imm) % 2 ^ 16
        on_core (Machine.write_reg r nv)
        flags_of (λ st. set_add_flags st old imm nv))
      else if op == 0x4
      then (do
        v ← on_core (Machine.read_reg r)
        on_core (Machine.write_reg r (bit_and v imm))
        w ← on_core (Machine.read_reg r)
        flags_of (λ st. set_lae_word st w))
      else if op == 0x6
      then (do
        v ← on_core (Machine.read_reg r)
        on_core (Machine.write_reg r (bit_or v imm))
        w ← on_core (Machine.read_reg r)
        flags_of (λ st. set_lae_word st w))
      else if op == 0x8
      then (do v ← on_core (Machine.read_reg r); flags_of (λ st. set_compare_word st v imm))
      else if op == 0xa
      then (do wp ← gets (λ c. c.wp); on_core (Machine.write_reg r wp))
      else if op == 0xc
      then (do st ← gets (λ c. c.st); on_core (Machine.write_reg r st))
      else if op == 0xe
      then set_wp (even_addr imm)
      else illegal

unfoldable pub rtwp : State Context (Unit {0})
rtwp = do
  st ← on_core (Machine.read_reg 15)
  set_st (st % 2 ^ 16)
  pc ← on_core (Machine.read_reg 14)
  set_pc (even_addr pc)
  wp ← on_core (Machine.read_reg 13)
  set_wp (even_addr wp)

unfoldable pub limi : State Context (Unit {0})
limi = do imm ← on_core Machine.fetch_word; flags_of (λ st. with_mask st imm)

-- `disp & 0x80 ? disp - 256 : disp`, doubled and added to the PC.
unfoldable pub jump_target : ℕ → ℕ → ℕ
jump_target pc disp = (pc + disp * 2 + 2 ^ 16 - (if ltb disp 128 then 0 else 512)) % 2 ^ 16

-- Format 2: SBO, SBZ, TB and the jumps.
unfoldable pub jump_or_bit : ℕ → State Context (Unit {0})
jump_or_bit ir =
    let sub = ir / 2 ^ 8 % 16 in
    if leb 0x0d sub
    then (do
      addr ← cru_addr (ir % 2 ^ 8)
      if sub == 0x0d
          then on_ports (tms9995_cpu_write_cru_bit addr 1)
          else if sub == 0x0e
          then on_ports (tms9995_cpu_write_cru_bit addr 0)
          else (do
            bit ← from_ports (λ p. tms9995_cpu_read_cru_bit addr p)
            flags_of (λ st. put_flag st st_eq (not (bit == 0)))))
    else modify λ c.
      if test_condition (ir / 2 ^ 8 % 16 * 2 ^ 8) c.st
      then record c { pc = jump_target c.pc (ir % 2 ^ 8) }
      else c

-- Format 3: COC, CZC, XOR.
unfoldable pub format3 : ℕ → State Context (Unit {0})
format3 ir = do
  dst ← on_core (resolve_ea (ir / 2 ^ 6 % 4) (ir / 2 ^ 10 % 16) false)
  src ← on_core (resolve_ea (ir / 2 ^ 4 % 4) (ir % 16) false)
  d ← on_core (read_word_ea dst)
  s ← on_core (read_word_ea src)
  if ir / 2 ^ 10 % 4 == 2
      then (do
        let r = bit_xor d s % 2 ^ 16
        on_core (write_word_ea dst r)
        flags_of (λ st. set_lae_word st r))
      else flags_of λ st.
        put_flag st st_eq (if ir / 2 ^ 11 % 2 == 0 then bit_and d s == s else bit_or d s == d)

abbrev kind_of : ℕ → ShiftKind
kind_of k =
    if k == 0
    then ShiftKind.sra
    else if k == 1
    then ShiftKind.srl
    else if k == 2
    then ShiftKind.sla
    else ShiftKind.src

abbrev operand : ℕ → State Context Ea
operand ir = on_core (resolve_ea (ir / 2 ^ 4 % 4) (ir % 16) false)

abbrev ea_address : ℕ → Ea → ℕ
ea_address wp (in_reg r) = wp + r * 2
ea_address wp (at_addr a) = a % 2 ^ 16

unfoldable pub xop : ℕ → State Context (Unit {0})
xop ir = do
  src ← operand ir
  flags_of (λ st. bit_or st st_x)
  wp ← gets (λ c. c.wp)
  blwp (0x0040 + ir / 2 ^ 6 % 16 * 4) (some (ea_address wp src))

-- The tests on the high byte that lead to `format1`.
unfoldable pub format1_op : ℕ → Option (Bool × Op)
format1_op hi =
    if hi == 0xa000
    then some (false, Op.add)
    else if hi == 0xb000
    then some (true, Op.add)
    else if hi == 0x6000
    then some (false, Op.sub)
    else if hi == 0x7000
    then some (true, Op.sub)
    else if hi == 0x8000
    then some (false, Op.compare)
    else if hi == 0x9000
    then some (true, Op.compare)
    else if hi == 0xc000
    then some (false, Op.mov)
    else if hi == 0xd000
    then some (true, Op.mov)
    else if hi == 0xe000
    then some (false, Op.soc)
    else if hi == 0xf000
    then some (true, Op.soc)
    else if hi == 0x4000
    then some (false, Op.szc)
    else if hi == 0x5000
    then some (true, Op.szc)
    else none

-- What stands after the tests for `format1`, but for X: MPYS, DIVS, and Format 6.
unfoldable pub after_format1 : ℕ → State Context (Unit {0})
after_format1 ir =
    let hi = ir / 2 ^ 8 * 2 ^ 8 in
    if hi == 0x0180
    then (do ea ← operand ir; divs ea)
    else if hi == 0x01c0
    then (do ea ← operand ir; mpys ea)
    else if leb 0x0400 ir && ltb ir 0x0800
    then (do ea ← operand ir; single (ir / 2 ^ 6 * 2 ^ 6) ea)
    else illegal

unfoldable pub run_format1 : Option (Bool × Op) → ℕ → State Context (Unit {0})
run_format1 none ir = after_format1 ir
run_format1 (some (byte_op, op)) ir = format1 ir byte_op op

-- All of `executeInstruction` but the branch of X, which calls it again.
unfoldable pub execute_other : ℕ → State Context (Unit {0})
execute_other ir =
    let hi = ir / 2 ^ 8 * 2 ^ 8 in
    let nibble = ir / 2 ^ 12 in
    let six = ir / 2 ^ 10 * 2 ^ 10 in
    if hi == 0x0200
    then immediate ir
    else if hi == 0x0080
    then (do v ← on_core (Machine.read_reg (ir % 16)); set_st (v % 2 ^ 16))
    else if hi == 0x0090
    then (do v ← on_core (Machine.read_reg (ir % 16)); set_wp (even_addr v))
    else if ir == 0x0300
    then limi
    else if ir == 0x0340
    then modify (λ c. record c { idle = true })
    else if ir == 0x0360
    then flags_of (λ st. st % 2 ^ 16 / 2 ^ 4 * 2 ^ 4)
    else if ir == 0x0380
    then rtwp
    else if nibble == 1
    then jump_or_bit ir
    else if nibble == 2
    then format3 ir
    else if six == 0x3000 || six == 0x3400
    then cru_transfer ir (six == 0x3400)
    else if leb 0x0800 six && leb six 0x0bff
    then shift_op ir (kind_of (ir / 2 ^ 10 % 4))
    else if six == 0x3800
    then (do ea ← operand ir; mpy ea)
    else if six == 0x3c00
    then (do ea ← operand ir; div ea)
    else if ir / 2 ^ 11 * 2 ^ 11 == 0x2c00
    then xop ir
    else run_format1 (format1_op hi) ir

-- X: the operand becomes the context's PC, the next word is fetched by the core and executed, and
-- the context's PC is put back. `none` means that the nesting passed the fuel.
unfoldable pub fetch_inner : ℕ → State Context ℕ
fetch_inner ir = do
  ea ← operand ir
  inner_pc ← on_core (read_word_ea ea)
  set_pc (even_addr inner_pc)
  on_core Machine.fetch_word

abbrev pub put_back : ℕ → Option Context → Option Context
put_back saved none = none
put_back saved (some c) = some (record c { pc = saved })

abbrev pub is_x : ℕ → Bool
is_x ir = ir / 2 ^ 6 * 2 ^ 6 == 0x0480

unfoldable pub execute_instruction : ℕ → ℕ → Context → Option Context
execute_instruction zero ir c = none
execute_instruction (suc fuel) ir c = elim (is_x ir) [
  | false ↦ some (execute_other ir c).1
  | true ↦ let (inner, c') = fetch_inner ir c in put_back c.pc (execute_instruction fuel inner c')
]
