-- ===== src/IoPorts.antt =====
-- The port map of the CPU board as the TMS9995 core uses it:
-- retrocpu_emu_ts/src/cpuboard/io_ports.ts and tms9995/cru_timer.ts. The module's variables are a
-- record. `irq_calls` lists the levels that the handlers passed to the `triggerInterrupt` that the
-- file imports, which is the MN1613 core's. The board's CRU is made with `strictRoles: false` and
-- written inside its region, where no operation throws; `keep` takes the state of a throw for the
-- state before.
pub mod BusSync
use retro_cpu_emu.Shared.{
  ℕ, ◌+◌, ◌*◌, ◌-◌, ◌/◌, ◌%◌, ◌^◌, bit_or, Bool, true, false, not, ◌&&◌, ◌||◌, Option, none, some,
  List, [], ◌∷◌, ltb, leb, ◌==◌, if◌then◌else◌,
}
use retro_cpu_emu.Cru
use retro_cpu_emu.Cru.{Cru, Actor, Snapshot}
use retro_cpu_emu.IoMmap
use retro_cpu_emu.IoMmap.{IoMmap}
use retro_cpu_emu.AddrComparator.{AddrBusAccess}

-- CpuIoSignals, without the clock, which no code of this file touches.
pub record Bus : Type 0 where
  pub interrupt_busy : ℕ
  pub int_cause : ℕ
  pub hshk_out_req : ℕ
  pub hshk_out_dena : ℕ
  pub hshk_in_dack : ℕ
  pub hshk_in_req : ℕ
  pub hshk_in_dena : ℕ
  pub hshk_out_dack : ℕ
  pub hshk_out_data : ℕ
  pub hshk_in_data : ℕ

pub data PortMode : Type 0 where
  mn1613 tms9995 : PortMode

pub record Ports : Type 0 where
  pub bus : Option Bus
  pub int_cause : ℕ
  pub interrupt_busy : ℕ
  pub mode : PortMode
  pub cru : Cru
  pub mmap : IoMmap
  pub attached : Bool
  pub dec_enabled : Bool
  pub irq_calls : List ℕ

abbrev pub is_tms : PortMode → Bool
is_tms PortMode.mn1613 = false
is_tms PortMode.tms9995 = true

abbrev pub keep : Cru → Option Cru → Cru
keep c none = c
keep c (some c') = c'

abbrev pub wire_bit : ℕ → ℕ
wire_bit v = if v % 2 == 0 then 0 else 1

abbrev drive : Actor → ℕ → ℕ → Cru → Cru
drive who a v c = keep c (Cru.write_bit who a (wire_bit v) c)

unfoldable pub apply_packed_cause : ℕ → Cru → Cru
apply_packed_cause cause c =
    let k = cause % 8 in
    let c₁ = keep c (Cru.io_set_int1_cause (if k / 2 * 2 == 2 then 1 else 0) c) in
    keep c₁ (Cru.io_set_int2_cause (if k == 1 then 1 else 0) c₁)

unfoldable pub bus_to_cru : Bus → Cru → Cru
bus_to_cru b c =
    let c₁ =
      apply_packed_cause b.int_cause (drive Actor.cpu Cru.interrupt_busy b.interrupt_busy c) in
    let c₂ = drive Actor.cpu Cru.hshk_out_req b.hshk_out_req c₁ in
    let c₃ = drive Actor.cpu Cru.hshk_out_dena b.hshk_out_dena c₂ in
    let c₄ = drive Actor.cpu Cru.hshk_in_dack b.hshk_in_dack c₃ in
    let c₅ = drive Actor.io Cru.hshk_in_req b.hshk_in_req c₄ in
    let c₆ = drive Actor.io Cru.hshk_in_dena b.hshk_in_dena c₅ in
    let c₇ = drive Actor.io Cru.hshk_out_dack b.hshk_out_dack c₆ in
    let c₈ = keep c₇ (Cru.cpu_write_out_data_byte (b.hshk_out_data % 2 ^ 8) c₇) in
    keep c₈ (Cru.io_write_in_data_byte (b.hshk_in_data % 2 ^ 8) c₈)

unfoldable pub cru_to_bus : Cru → Bus
cru_to_bus c =
    let snap = Cru.snapshot c in
    record {
      interrupt_busy = snap.wire Cru.interrupt_busy;
      int_cause = bit_or (snap.wire Cru.int1_cause) (snap.wire Cru.int2_cause * 2);
      hshk_out_req = snap.wire Cru.hshk_out_req;
      hshk_out_dena = snap.wire Cru.hshk_out_dena;
      hshk_in_dack = snap.wire Cru.hshk_in_dack;
      hshk_in_req = snap.wire Cru.hshk_in_req;
      hshk_in_dena = snap.wire Cru.hshk_in_dena;
      hshk_out_dack = snap.wire Cru.hshk_out_dack;
      hshk_out_data = snap.out_data_byte;
      hshk_in_data = snap.in_data_byte;
    }

abbrev on_bus : (Bus → Cru → Cru) → Option Bus → Cru → Cru
on_bus f none c = c
on_bus f (some b) c = f b c

abbrev replace_bus : Bus → Option Bus → Option Bus
replace_bus b none = none
replace_bus b (some _) = some b

unfoldable pub sync_bus_to_tms_cru : Ports → Ports
sync_bus_to_tms_cru p = record p { cru = on_bus bus_to_cru p.bus p.cru }

unfoldable pub sync_tms_cru_to_bus : Ports → Ports
sync_tms_cru_to_bus p = record p { bus = replace_bus (cru_to_bus p.cru) p.bus }

unfoldable pub attach_handshake_bus : Option Bus → Ports → Ports
attach_handshake_bus bus p = sync_bus_to_tms_cru (record p { bus = bus })

unfoldable pub set_cpu_port_mode : ℕ → Ports → Ports
set_cpu_port_mode cpu_type p =
    if cpu_type == 2
    then sync_bus_to_tms_cru (record p { mode = PortMode.tms9995 })
    else record p { mode = PortMode.mn1613 }

abbrev with_cause : ℕ → Option Bus → Option Bus
with_cause k none = none
with_cause k (some b) = some (record b { int_cause = k })

unfoldable pub set_int_cause : ℕ → Ports → Ports
set_int_cause cause p =
    let p₀ = record p { int_cause = cause % 8 } in
    let p₁ =
      if is_tms p.mode
      then sync_tms_cru_to_bus (record p₀ { cru = apply_packed_cause (cause % 8) p.cru })
      else p₀ in
    record p₁ { bus = with_cause (cause % 8) p₁.bus }

abbrev any_handshake : ℕ → ℕ → ℕ → ℕ → ℕ → ℕ → Bool
any_handshake a b c d e f = a == 1 || b == 1 || c == 1 || d == 1 || e == 1 || f == 1

abbrev bus_active : Option Bus → Bool
bus_active none = false
bus_active (some b) =
    any_handshake b.hshk_out_req b.hshk_out_dena b.hshk_in_dack b.hshk_in_req b.hshk_in_dena
      b.hshk_out_dack

unfoldable pub is_handshake_active : Ports → Bool
is_handshake_active p =
    if is_tms p.mode
    then (let w = (Cru.snapshot p.cru).wire in
        any_handshake (w Cru.hshk_out_req) (w Cru.hshk_out_dena) (w Cru.hshk_in_dack)
          (w Cru.hshk_in_req) (w Cru.hshk_in_dena) (w Cru.hshk_out_dack))
    else bus_active p.bus

-- tms9995/cru_timer.ts
unfoldable pub notify_cru_flag_write : ℕ → ℕ → Ports → Ports
notify_cru_flag_write bit_addr v p =
    if bit_addr == 0x1ee1 then record p { dec_enabled = v == 1 } else p

unfoldable pub read_cru_timer_flag_bit : ℕ → Ports → ℕ
read_cru_timer_flag_bit bit_addr p = if bit_addr == 0x1ee1 && p.dec_enabled then 1 else 0

unfoldable pub tms9995_cpu_write_cru_bit : ℕ → ℕ → Ports → Ports
tms9995_cpu_write_cru_bit bit_addr v p =
    let addr = bit_addr % 2 ^ 16 in
    if not (is_tms p.mode)
    then p
    else if leb 0x0010 addr && leb addr 0x0027
    then (let c = keep p.cru (Cru.write_bit Actor.cpu addr v p.cru) in
        let w = (Cru.snapshot c).wire in
        sync_tms_cru_to_bus (record p {
          cru = c;
          interrupt_busy = w Cru.interrupt_busy;
          int_cause = bit_or (w Cru.int1_cause) (w Cru.int2_cause * 2) % 8;
        }))
    else if addr == 0x1ee0 || addr == 0x1ee1
    then notify_cru_flag_write addr v p
    else p

abbrev keep_read : Cru → Option (Cru × ℕ) → Cru × ℕ
keep_read c none = (c, 0)
keep_read c (some r) = r

unfoldable pub tms9995_cpu_read_cru_bit : ℕ → Ports → Ports × ℕ
tms9995_cpu_read_cru_bit bit_addr p =
    let addr = bit_addr % 2 ^ 16 in
    if not (is_tms p.mode)
    then (p, 0)
    else if leb 0x0010 addr && leb addr 0x0027
    then (let (c, bit) = keep_read p.cru (Cru.read_bit Actor.cpu addr p.cru) in
        (sync_tms_cru_to_bus (record p { cru = c }), bit))
    else if addr == 0x1ee1
    then (p, read_cru_timer_flag_bit addr p)
    else (p, 0)

unfoldable pub tms9995_cpu_write_cru_data_byte : ℕ → Ports → Ports
tms9995_cpu_write_cru_data_byte v p =
    if not (is_tms p.mode)
    then p
    else sync_tms_cru_to_bus
        (record p { cru = keep p.cru (Cru.cpu_write_out_data_byte (v % 2 ^ 8) p.cru) })

unfoldable pub tms9995_cpu_read_cru_data_byte : Ports → Ports × ℕ
tms9995_cpu_read_cru_data_byte p =
    if not (is_tms p.mode)
    then (p, 0)
    else let (c, v) = Cru.cpu_read_in_data_byte p.cru in
      (sync_tms_cru_to_bus (record p { cru = c }), v)

unfoldable pub raise_addr_break_irq : Ports → Ports
raise_addr_break_irq p =
    if is_tms p.mode
    then (let p' =
          sync_tms_cru_to_bus (record p { cru = keep p.cru (Cru.io_set_int2_cause 0 p.cru) }) in
        record p' { irq_calls = 2 ∷ p'.irq_calls })
    else let p' = set_int_cause 0 p in record p' { irq_calls = 1 ∷ p'.irq_calls }

unfoldable pub raise_step_break_irq : Ports → Ports
raise_step_break_irq p =
    if is_tms p.mode
    then (let p' =
          sync_tms_cru_to_bus (record p { cru = keep p.cru (Cru.io_set_int2_cause 1 p.cru) }) in
        record p' { irq_calls = 2 ∷ p'.irq_calls })
    else let p' = set_int_cause 1 p in record p' { irq_calls = 1 ∷ p'.irq_calls }

abbrev pub on_hit : (Ports → Ports) → Bool → Option ℕ → Ports → Ports
on_hit handler attached none p = p
on_hit handler true (some _) p = handler p
on_hit handler false (some _) p = p

-- `tms9995IoMmap.probe` and `onInstructionFetch` with the callbacks that `attachIoBoardPorts`
-- registers.
unfoldable pub mmap_probe : AddrBusAccess → Ports → Ports
mmap_probe access p =
    let (m, hit) = IoMmap.probe access p.mmap in
    on_hit raise_addr_break_irq p.attached hit (record p { mmap = m })

unfoldable pub mmap_instruction_fetch : Ports → Ports
mmap_instruction_fetch p =
    let (m, hit) = IoMmap.on_instruction_fetch p.mmap in
    if hit && p.attached
    then raise_step_break_irq (record p { mmap = m })
    else record p { mmap = m }

unfoldable pub tms9995_mem_read_io_byte : ℕ → Ports → Ports × Option ℕ
tms9995_mem_read_io_byte addr p =
    if not (is_tms p.mode)
    then (p, none)
    else let (m, v) = IoMmap.read_byte addr p.mmap in (record p { mmap = m }, v)

unfoldable pub tms9995_mem_write_io_byte : ℕ → ℕ → Ports → Ports × Bool
tms9995_mem_write_io_byte addr v p =
    if not (is_tms p.mode)
    then (p, false)
    else let (m, done) = IoMmap.write_byte addr v p.mmap in (record p { mmap = m }, done)
