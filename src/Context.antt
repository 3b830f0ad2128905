-- ===== src/Context.antt =====
-- The execution context of execute.ts (TmsExecuteCtx) with the core it works on, and the core's
-- operations on it.
use retro_cpu_emu.Shared.{ℕ, Bool, Option}
use retro_cpu_emu.Shared.State.{State}
use retro_cpu_emu.IoPorts.{Ports}
use retro_cpu_emu.Machine
use retro_cpu_emu.Machine.{Machine, ExecStatus}

pub record Context : Type 0 where
  pub pc : ℕ
  pub wp : ℕ
  pub st : ℕ
  pub idle : Bool
  pub core : Machine

-- An operation of the core, run inside the context.
abbrev pub on_core : {A : Type 0} → State Machine A → State Context A
on_core m c = let (a, core) = m c.core in (a, record c { core = core })

abbrev pub on_ports : (Ports → Ports) → State Context (Unit {0})
on_ports f c = (tt, record c { core = record (c.core) { ports = f c.core.ports } })

abbrev pub from_ports : {A : Type 0} → (Ports → Ports × A) → State Context A
from_ports f c =
    let (p, a) = f c.core.ports in (a, record c { core = record (c.core) { ports = p } })

abbrev pub set_st : ℕ → State Context (Unit {0})
set_st st c = (tt, record c { st = st })

abbrev pub set_pc : ℕ → State Context (Unit {0})
set_pc pc c = (tt, record c { pc = pc })

-- `ctx.doBlwp`: the switch is made on the core's variables, which the context then copies.
unfoldable pub blwp : ℕ → Option ℕ → State Context (Unit {0})
blwp vec r11 c =
    let core = (Machine.do_blwp vec r11 c.core).1 in
    (tt, record c { core = core; pc = core.pc; wp = core.wp; st = core.st })

-- `ctx.illegal`
unfoldable pub illegal : State Context (Unit {0})
illegal c = (tt, record c { core = record (c.core) { exec_status = ExecStatus.break } })
