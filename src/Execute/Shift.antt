-- ===== src/Execute/Shift.antt =====
-- `shiftOp` of execute.ts.
use retro_cpu_emu.Shared.{
  ℕ, zero, suc, ◌*◌, ◌/◌, ◌%◌, ◌^◌, bit_or, Bool, true, false, not, ◌||◌, ◌==◌, if◌then◌else◌,
}
use retro_cpu_emu.Shared.State.{State, ◌>>=◌, ◌>>◌, gets}
use retro_cpu_emu.Status.{set_lae_word, put_flag, st_c, st_ov}
use retro_cpu_emu.Machine
use retro_cpu_emu.Context.{Context, on_core, set_st}

pub data ShiftKind : Type 0 where
  sra srl sla src : ShiftKind

-- The variables of the loop.
pub record Shifted : Type 0 where
  pub v : ℕ
  pub carry : Bool
  pub overflow : Bool

abbrev top_bit : ℕ → Bool
top_bit v = v / 2 ^ 15 % 2 == 1

abbrev differ : Bool → Bool → Bool
differ true b = not b
differ false b = b

unfoldable pub shift_once : ShiftKind → Bool → Shifted → Shifted
shift_once ShiftKind.sra sign r = record r {
  carry = r.v % 2 == 1;
  v = bit_or (r.v / 2) (if sign then 0x8000 else 0) % 2 ^ 16;
}
shift_once ShiftKind.srl sign r = record r { carry = r.v % 2 == 1; v = r.v / 2 % 2 ^ 16 }
shift_once ShiftKind.sla sign r = record r {
  carry = top_bit r.v;
  v = r.v * 2 % 2 ^ 16;
  overflow = differ (top_bit r.v) (top_bit (r.v * 2 % 2 ^ 16)) || r.overflow;
}
shift_once ShiftKind.src sign r = record r {
  carry = r.v % 2 == 1;
  v = bit_or (r.v / 2) (if r.v % 2 == 1 then 0x8000 else 0) % 2 ^ 16;
}

unfoldable pub shift_loop : ℕ → ShiftKind → Bool → Shifted → Shifted
shift_loop zero kind sign r = r
shift_loop (suc left) kind sign r = shift_loop left kind sign (shift_once kind sign r)

-- The result of shifting a word, from its initial value.
unfoldable pub shift_word : ShiftKind → ℕ → ℕ → Shifted
shift_word kind cnt v =
    shift_loop cnt kind (top_bit v) (record { v = v; carry = false; overflow = false })

abbrev is_sla : ShiftKind → Bool
is_sla ShiftKind.sla = true
is_sla _ = false

unfoldable pub shift_flags : ShiftKind → Shifted → ℕ → ℕ
shift_flags kind r st =
    let st' = put_flag (set_lae_word st r.v) st_c r.carry in
    if is_sla kind then put_flag st' st_ov r.overflow else st'

-- The count field, or the top four bits of R0, or 16.
unfoldable pub shift_count : ℕ → State Context ℕ
shift_count field c =
    if field == 0
    then (let (r0, c') = on_core (Machine.read_reg 0) c in
        let n = r0 / 2 ^ 12 % 16 in (if n == 0 then 16 else n, c'))
    else (field, c)

unfoldable pub shift_op : ℕ → ShiftKind → State Context (Unit {0})
shift_op ir kind = do
  let reg = ir % 16
  cnt ← shift_count (ir / 2 ^ 4 % 16)
  v ← on_core (Machine.read_reg reg)
  let r = shift_word kind cnt (v % 2 ^ 16)
  st ← gets (λ c. c.st)
  set_st (shift_flags kind r st)
  on_core (Machine.write_reg reg r.v)
