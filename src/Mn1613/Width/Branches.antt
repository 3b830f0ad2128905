-- ===== src/Mn1613/Width/Branches.antt =====
-- The instruction group 0x04, `_exec04`, keeps the widths of the registers.
use retro_cpu_emu.Shared.{ℕ, ◌+◌, ◌-◌, ◌/◌, ◌%◌, ◌^◌, arith, Bool, true, false, ◌==◌}
use retro_cpu_emu.Shared.State.{◌>>=◌}
use retro_cpu_emu.Shared.Bits.{has}
use retro_cpu_emu.Mn1613.Register.{gr, ri, seg}
use retro_cpu_emu.Mn1613.Board.{do_io_write}
use retro_cpu_emu.Mn1613.Core.{Cpu, rd_b, wr_b, fetch, push, on_board, set_gr}
use retro_cpu_emu.Mn1613.Extended.{
  halt_insn, ret, lpsw, bd, bald, push_link, load_target, exec_seg_branch, direct, auto_address, lr,
  str, sr, sl, pop_into, exec04_common, exec04_zero, exec04_six, exec04_seven, exec04,
}
use retro_cpu_emu.Mn1613.Move.{rd_port}
use retro_cpu_emu.Mn1613.Width.Fields.{
  IsValid, Keeps, keeps, if-Keeps, set_ic-IsValid, set_csbr-IsValid, set_str-IsValid, sw-IsValid,
  ri_set-IsValid, set_e-IsValid, apply_ee-IsValid,
}
use retro_cpu_emu.Mn1613.Width.Steps.{
  rd_phys-Word, rd_b-Word, rd_b-IsValid, fetch-IsValid, fetch-Word, skip_if-IsValid, push-IsValid,
  pop-IsValid, pop-Word, trap_undefined_insn-IsValid,
}
use retro_cpu_emu.Mn1613.Core.{trap_undefined_insn}
use retro_cpu_emu.Mn1613.Width.Groups.{rd_port-IsValid}

halt_insn-Keeps : (s : Cpu) → IsValid s.reg → Keeps (halt_insn s)
unfolding halt_insn
halt_insn-Keeps s h = keeps (halt_insn s) h

ret-Keeps : (s : Cpu) → IsValid s.reg → Keeps (ret s)
unfolding ret
ret-Keeps s h = keeps (ret s) (set_ic-IsValid _ _ (pop-Word s) (pop-IsValid s h))

lpsw-Keeps : (ll : ℕ) (s : Cpu) → IsValid s.reg → Keeps (lpsw ll s)
unfolding lpsw
lpsw-Keeps ll s h = keeps (lpsw ll s) (
    set_csbr-IsValid _ _ (omega arith)
      (set_ic-IsValid _ _ (rd_phys-Word _ _) (set_str-IsValid _ s.reg (rd_phys-Word _ _) h)))

bd-Keeps : (s : Cpu) → IsValid s.reg → Keeps (bd s)
unfolding bd
bd-Keeps s h = keeps (bd s) (set_ic-IsValid _ _ (fetch-Word s) (fetch-IsValid s h))

bald-Keeps : (s : Cpu) → IsValid s.reg → Keeps (bald s)
unfolding bald
bald-Keeps s h =
    keeps (bald s) (set_ic-IsValid _ _ (fetch-Word s) (push-IsValid _ _ (fetch-IsValid s h)))

push_link-IsValid : (s : Cpu) → IsValid s.reg → IsValid (push_link s).1.reg
unfolding push_link
push_link-IsValid s h = push-IsValid _ _ (push-IsValid _ s h)

load_target-Keeps : (a : ℕ) (s : Cpu) → IsValid s.reg → Keeps (load_target a s)
unfolding load_target
load_target-Keeps a s h = keeps (load_target a s) (
    set_ic-IsValid _ _ (rd_b-Word _ _ _)
      (set_csbr-IsValid _ _ (omega arith) (rd_b-IsValid _ _ _ (rd_b-IsValid _ _ s h))))

exec_seg_branch-Keeps :
    (ii : ℕ) (link : Bool) (s : Cpu) → IsValid s.reg → Keeps (exec_seg_branch ii link s)
unfolding exec_seg_branch
exec_seg_branch-Keeps ii true s h = load_target-Keeps _ _ (push_link-IsValid s h)
exec_seg_branch-Keeps ii false s h = load_target-Keeps _ s h

ld-Keeps : (dest a g : ℕ) (s : Cpu) → IsValid s.reg → Keeps ((rd_b a g >>= λ v. set_gr dest v) s)
unfolding rd_b
ld-Keeps dest a g s h = keeps _ (sw-IsValid dest _ s.reg h)

wr_b-Keeps : (a v g : ℕ) (s : Cpu) → IsValid s.reg → Keeps (wr_b a v g s)
unfolding wr_b
wr_b-Keeps a v g s h = keeps (wr_b a v g s) h

direct-Keeps : (lo a : ℕ) (s : Cpu) → IsValid s.reg → Keeps (direct lo a s)
unfolding direct
direct-Keeps lo a s h =
    let bb = lo / 2 ^ 4 % 4 in
    let segment = seg bb s.reg in
    if-Keeps (has lo 0x40) _ _ (wr_b-Keeps a (gr (lo % 8) s.reg) segment s h) (
      if-Keeps (lo % 8 == 7) _ _
        (if-Keeps (bb == 1) _ _ (load_target-Keeps a (push_link s).1 (push_link-IsValid s h))
          (load_target-Keeps a s h))
        (ld-Keeps (lo % 8) a segment s h))

auto_address-IsValid : (m i : ℕ) (s : Cpu) → IsValid s.reg → IsValid (auto_address m i s).1.reg
unfolding auto_address
auto_address-IsValid m i s h = ground (
  arith,
  h,
  ri_set-IsValid i ((ri i s.reg + 2 ^ 16 - 1) % 2 ^ 16) s.reg h,
  ri_set-IsValid i ((ri i s.reg + 1) % 2 ^ 16) s.reg h,
)

lr-Keeps : (rrr lo : ℕ) (s : Cpu) → IsValid s.reg → Keeps (lr rrr lo s)
unfolding lr rd_b
lr-Keeps rrr lo s h = keeps (lr rrr lo s) (sw-IsValid rrr _ _ (auto_address-IsValid _ _ s h))

str-Keeps : (rrr lo : ℕ) (s : Cpu) → IsValid s.reg → Keeps (str rrr lo s)
unfolding str wr_b
str-Keeps rrr lo s h = keeps (str rrr lo s) (auto_address-IsValid _ _ s h)

sr-Keeps : (rrr lo : ℕ) (s : Cpu) → IsValid s.reg → Keeps (sr rrr lo s)
unfolding sr
sr-Keeps rrr lo s h = keeps (sr rrr lo s) (
    skip_if-IsValid _ _ _
      (sw-IsValid rrr _ _ (set_e-IsValid _ _ (apply_ee-IsValid (lo % 4) s.reg h))))

sl-Keeps : (rrr lo : ℕ) (s : Cpu) → IsValid s.reg → Keeps (sl rrr lo s)
unfolding sl
sl-Keeps rrr lo s h = keeps (sl rrr lo s) (
    skip_if-IsValid _ _ _
      (sw-IsValid rrr _ _ (set_e-IsValid _ _ (apply_ee-IsValid (lo % 4) s.reg h))))

pop_into-Keeps : (rrr : ℕ) (s : Cpu) → IsValid s.reg → Keeps (pop_into rrr s)
unfolding pop_into
pop_into-Keeps rrr s h = keeps (pop_into rrr s) (sw-IsValid rrr _ _ (pop-IsValid s h))

trap-Keeps : (s : Cpu) → IsValid s.reg → Keeps (trap_undefined_insn s)
trap-Keeps s h = keeps (trap_undefined_insn s) (trap_undefined_insn-IsValid s h)

out-Keeps : (p v : ℕ) (s : Cpu) → IsValid s.reg → Keeps (on_board (do_io_write p v) s)
out-Keeps p v s h = keeps (on_board (do_io_write p v) s) h

common-Keeps : (rrr lo : ℕ) (s : Cpu) → IsValid s.reg → Keeps (exec04_common rrr lo s)
unfolding exec04_common
common-Keeps rrr lo s h = if-Keeps _ _ _ (keeps (push _ s) (push-IsValid _ s h)) (
    if-Keeps _ _ _ (pop_into-Keeps rrr s h) (
      if-Keeps _ _ _ (lr-Keeps rrr lo s h) (
        if-Keeps _ _ _ (str-Keeps rrr lo s h) (
          if-Keeps _ _ _ (sr-Keeps rrr lo s h) (
            if-Keeps _ _ _ (sl-Keeps rrr lo s h) (
              if-Keeps _ _ _ (keeps (rd_port rrr _ s) (rd_port-IsValid rrr _ s h))
                (if-Keeps _ _ _ (out-Keeps _ _ s h) (trap-Keeps s h))))))))

zero-Keeps : (lo : ℕ) (s : Cpu) → IsValid s.reg → Keeps (exec04_zero lo s)
unfolding exec04_zero
zero-Keeps lo s h =
    if-Keeps _ _ _ (halt_insn-Keeps s h)
      (if-Keeps _ _ _ (ret-Keeps s h) (if-Keeps _ _ _ (lpsw-Keeps _ s h) (common-Keeps 0 lo s h)))

six-Keeps : (lo : ℕ) (s : Cpu) → IsValid s.reg → Keeps (exec04_six lo s)
unfolding exec04_six
six-Keeps lo s h =
    if-Keeps _ _ _ (bd-Keeps s h) (if-Keeps _ _ _ (bald-Keeps s h) (common-Keeps 6 lo s h))

seven-Keeps : (lo : ℕ) (s : Cpu) → IsValid s.reg → Keeps (exec04_seven lo s)
unfolding exec04_seven
seven-Keeps lo s h =
    let fetched = direct-Keeps lo (fetch s).0 (fetch s).1 (fetch-IsValid s h) in
    if-Keeps (lo / 4 == 1) _ _ (exec_seg_branch-Keeps (lo % 4) false s h) (
      if-Keeps (lo / 4 == 5) _ _ (exec_seg_branch-Keeps (lo % 4) true s h)
        (if-Keeps (has lo 0x08) _ _ fetched (common-Keeps 7 lo s h)))

pub exec04-Keeps : (rrr lo : ℕ) (s : Cpu) → IsValid s.reg → Keeps (exec04 rrr lo s)
unfolding exec04
exec04-Keeps rrr lo s h = if-Keeps _ _ _ (zero-Keeps lo s h) (
    if-Keeps _ _ _ (six-Keeps lo s h)
      (if-Keeps _ _ _ (seven-Keeps lo s h) (common-Keeps rrr lo s h)))
