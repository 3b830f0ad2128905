-- ===== src/Machine.antt =====
-- The TMS9995 core's variables and its access to memory:
-- retrocpu_emu_ts/src/cpuboard/tms9995/tms9995.ts. The RAM of 64 KB is a function from byte addresses.
-- A read or a write of memory may hit a comparator, so every access returns a new state.
pub mod Memory
pub mod Switch
use retro_cpu_emu.Shared.{
  ℕ, ◌+◌, ◌*◌, ◌-◌, ◌/◌, ◌%◌, ◌^◌, bit_or, Bool, true, false, not, ◌&&◌, ◌||◌, Option, none, some,
  ltb, leb, ◌==◌, if◌then◌else◌,
}
use retro_cpu_emu.Shared.State.{State, ◌>>=◌, ◌>>◌, return, modify, gets}
use retro_cpu_emu.PinSignal.{InputPin, OutputPin}
use retro_cpu_emu.AddrComparator.{AddrBusAccess}
use retro_cpu_emu.IoPorts.{
  Ports, mmap_probe, mmap_instruction_fetch, tms9995_mem_read_io_byte, tms9995_mem_write_io_byte,
}

pub data ExecStatus : Type 0 where
  idle running step break halted : ExecStatus

pub record Machine : Type 0 where
  pub memory : ℕ → ℕ
  pub pc : ℕ
  pub wp : ℕ
  pub st : ℕ
  pub idle : Bool
  pub exec_status : ExecStatus
  pub clock_count : ℕ
  pub pending_irq1 : Bool
  pub pending_irq2 : Bool
  pub pending_irq3 : Bool
  pub dec_clock_accum : ℕ
  pub pin_rst : InputPin
  pub pin_hlt : InputPin
  pub pin_irq1 : InputPin
  pub pin_irq2 : InputPin
  pub pin_nmi : InputPin
  pub pin_run : OutputPin
  pub ports : Ports

abbrev access : ℕ → Bool → Bool → ℕ → AddrBusAccess
access a io write prev = record { addr = a; io = io; write = write; prev = prev }

-- `addr & 0xfffe`
abbrev pub even_addr : ℕ → ℕ
even_addr addr = addr % 2 ^ 16 / 2 * 2

-- `readByte`, after the memory-mapped IO has answered.
unfoldable pub finish_read : ℕ → Option ℕ → State Machine ℕ
finish_read a (some io) s = (io % 2 ^ 8, s)
finish_read a none s =
    (s.memory a % 2 ^ 8, record s { ports = mmap_probe (access a false false 0) s.ports })

unfoldable pub read_byte : ℕ → State Machine ℕ
read_byte addr s =
    let a = addr % 2 ^ 16 in
    let (p, io) = tms9995_mem_read_io_byte a s.ports in finish_read a io (record s { ports = p })

abbrev pub store : (ℕ → ℕ) → ℕ → ℕ → ℕ → ℕ
store f a v x = if x == a then v else f x

-- `writeByte`, after the memory-mapped IO has answered whether it took the byte.
unfoldable pub finish_write : ℕ → ℕ → ℕ → Bool → Machine → Machine
finish_write a v prev true s = record s { ports = mmap_probe (access a true true prev) s.ports }
finish_write a v prev false s = record s {
  ports = mmap_probe (access a false true prev) s.ports;
  memory = store s.memory a v;
}

unfoldable pub write_byte : ℕ → ℕ → State Machine (Unit {0})
write_byte addr v s =
    let a = addr % 2 ^ 16 in
    let (prev, s₁) = read_byte a s in
    let (p, done) = tms9995_mem_write_io_byte a (v % 2 ^ 8) s₁.ports in
    (tt, finish_write a (v % 2 ^ 8) prev done (record s₁ { ports = p }))

unfoldable pub read_word : ℕ → State Machine ℕ
read_word addr = do
  hi ← read_byte (even_addr addr)
  lo ← read_byte (even_addr addr + 1)
  return (bit_or (hi * 2 ^ 8) lo % 2 ^ 16)

unfoldable pub write_word : ℕ → ℕ → State Machine (Unit {0})
write_word addr v = do
  write_byte (even_addr addr) (v % 2 ^ 16 / 2 ^ 8)
  write_byte (even_addr addr + 1) (v % 2 ^ 16 % 2 ^ 8)

unfoldable pub read_reg : ℕ → State Machine ℕ
read_reg n s = read_word (s.wp + n % 16 * 2) s

unfoldable pub write_reg : ℕ → ℕ → State Machine (Unit {0})
write_reg n v s = write_word (s.wp + n % 16 * 2) (v % 2 ^ 16) s

unfoldable pub fetch_word : State Machine ℕ
fetch_word s =
    let (w, s₁) = read_word s.pc s in
    let p₁ = mmap_instruction_fetch s₁.ports in
    let p₂ = mmap_probe (access s₁.pc false false 0) p₁ in
    (w, record s₁ { ports = p₂; pc = (s₁.pc + 2) % 2 ^ 16 })

-- `(st & 0xfff0) | (mask & 0x000f)`
abbrev pub with_mask : ℕ → ℕ → ℕ
with_mask st mask = bit_or (st % 2 ^ 16 / 2 ^ 4 * 2 ^ 4) (mask % 2 ^ 4)

unfoldable pub save_r11 : Option ℕ → ℕ → State Machine (Unit {0})
save_r11 none new_wp = return tt
save_r11 (some v) new_wp = write_word (new_wp + 11 * 2) (v % 2 ^ 16)

-- The registers that a context switch saves in the new workspace.
unfoldable pub save_context : ℕ → State Machine (Unit {0})
save_context new_wp s =
    (do
      write_word (new_wp + 13 * 2) s.wp
      write_word (new_wp + 14 * 2) s.pc
      write_word (new_wp + 15 * 2) s.st)
      s

unfoldable pub do_blwp : ℕ → Option ℕ → State Machine (Unit {0})
do_blwp vector_byte_addr r11 = do
  let vec = vector_byte_addr % 2 ^ 16
  w ← read_word vec
  p ← read_word (vec + 2)
  save_context (even_addr w)
  save_r11 r11 (even_addr w)
  modify
      λ s. record s { wp = even_addr w; pc = even_addr p; st = with_mask s.st s.st; idle = false }
