-- ===== src/Execute/Single.antt =====
-- The single-operand instructions 0400 to 07FF of `executeInstruction` in execute.ts, but for X.
use retro_cpu_emu.Shared.{ℕ, ◌+◌, ◌*◌, ◌-◌, ◌/◌, ◌%◌, ◌^◌, bit_or, none, ◌==◌, if◌then◌else◌}
use retro_cpu_emu.Shared.State.{State, ◌>>=◌, ◌>>◌, gets}
use retro_cpu_emu.Status.{set_lae_word, put_flag, clear, st_ov, st_c}
use retro_cpu_emu.Machine
use retro_cpu_emu.Machine.{even_addr}
use retro_cpu_emu.Addressing.{Ea, read_word_ea, write_word_ea}
use retro_cpu_emu.Context.{Context, on_core, set_st, set_pc, blwp, illegal}

-- Writing a result and then setting the flags by it.
unfoldable pub put_result : Ea → ℕ → State Context (Unit {0})
put_result ea v = do on_core (write_word_ea ea v); st ← gets (λ c. c.st); set_st (set_lae_word st v)

-- The instructions that replace the operand by a function of it.
unfoldable pub replace : (ℕ → ℕ) → Ea → State Context (Unit {0})
replace f ea = do v ← on_core (read_word_ea ea); put_result ea (f v)

unfoldable pub abs : Ea → State Context (Unit {0})
abs ea = do
  v ← on_core (read_word_ea ea)
  let raw = v % 2 ^ 16
  st ← gets (λ c. c.st)
  set_st (clear (put_flag (set_lae_word st raw) st_ov (raw == 0x8000)) st_c)
  put_result ea (if raw / 2 ^ 15 % 2 == 1 then (0x10000 - raw) % 2 ^ 16 else raw)

unfoldable pub branch_link : Ea → State Context (Unit {0})
branch_link ea = do
  v ← on_core (read_word_ea ea)
  pc ← gets (λ c. c.pc)
  on_core (Machine.write_reg 11 pc)
  set_pc (even_addr v)

unfoldable pub single : ℕ → Ea → State Context (Unit {0})
single op6 ea =
    if op6 == 0x0400
    then (do v ← on_core (read_word_ea ea); blwp (v % 2 ^ 16) none)
    else if op6 == 0x0440
    then (do v ← on_core (read_word_ea ea); set_pc (even_addr v))
    else if op6 == 0x04c0
    then put_result ea 0
    else if op6 == 0x0500
    then replace (λ v. (0x10000 - v) % 2 ^ 16) ea
    else if op6 == 0x0540
    then replace (λ v. (2 ^ 32 - 1 - v) % 2 ^ 16) ea
    else if op6 == 0x0580
    then replace (λ v. (v + 1) % 2 ^ 16) ea
    else if op6 == 0x05c0
    then replace (λ v. (v + 2) % 2 ^ 16) ea
    else if op6 == 0x0600
    then replace (λ v. (v + 2 ^ 16 - 1) % 2 ^ 16) ea
    else if op6 == 0x0640
    then replace (λ v. (v + 2 ^ 16 - 2) % 2 ^ 16) ea
    else if op6 == 0x0680
    then branch_link ea
    else if op6 == 0x06c0
    then replace (λ v. bit_or (v % 2 ^ 8 * 2 ^ 8) (v / 2 ^ 8)) ea
    else if op6 == 0x0700
    then put_result ea 0xffff
    else if op6 == 0x0740
    then abs ea
    else illegal
