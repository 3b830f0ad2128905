-- ===== src/AddrComparator.antt =====
-- The address comparators: retrocpu_emu_ts/src/cpuboard/mn1613/addr_comparator.ts, class
-- AddrComparatorBank. The slots are a list of four; `onHit` is called by the module that owns the
-- bank, with the slot that `probe` returns. `-1` is `none`. An absent `data` or `prev` is 0.
pub mod Hits
pub mod Ports
use retro_cpu_emu.Shared.{
  ℕ, zero, suc, ◌+◌, ◌*◌, ◌/◌, ◌%◌, ◌^◌, bit_or, Bool, true, false, not, ◌&&◌, Option, none, some,
  List, [], ◌∷◌,
}
use retro_cpu_emu.Shared.{leb, ◌==◌, if◌then◌else◌, get_elem?, set}

abbrev pub cpld_comparator_count : ℕ
cpld_comparator_count = 4

abbrev pub io_port_break_ctrl : ℕ
io_port_break_ctrl = 0x0030

abbrev pub io_port_break_addr_lo : ℕ
io_port_break_addr_lo = 0x0031

abbrev pub io_port_break_addr_hi : ℕ
io_port_break_addr_hi = 0x0032

abbrev pub io_port_break_hit : ℕ
io_port_break_hit = 0x0033

abbrev pub io_port_break_prev : ℕ
io_port_break_prev = 0x0034

pub record AddrComparatorSlot : Type 0 where
  pub enabled : Bool
  pub io : Bool
  pub rdwr : ℕ
  pub addr : ℕ

pub record AddrBusAccess : Type 0 where
  pub addr : ℕ
  pub io : Bool
  pub write : Bool
  pub prev : ℕ

pub record BreakCtrl : Type 0 where
  pub slot : ℕ
  pub enabled : Bool
  pub io : Bool
  pub rdwr : ℕ

unfoldable pub decode_break_ctrl : ℕ → BreakCtrl
decode_break_ctrl ctrl = record {
  slot = ctrl % 8;
  enabled = ctrl / 2 ^ 3 % 2 == 1;
  io = ctrl / 2 ^ 4 % 2 == 1;
  rdwr = ctrl / 2 ^ 5 % 4;
}

abbrev pub to_bit : Bool → ℕ
to_bit true = 1
to_bit false = 0

unfoldable pub encode_break_ctrl : ℕ → Bool → Bool → ℕ → ℕ
encode_break_ctrl slot enabled io rdwr =
    bit_or (bit_or (bit_or (slot % 8) (to_bit enabled * 2 ^ 3)) (to_bit io * 2 ^ 4))
      (rdwr % 4 * 2 ^ 5)

abbrev same : Bool → Bool → Bool
same true b = b
same false b = not b

-- `rdwr & 0b10` is bit 1 of the field, and `rdwr & 0b01` bit 0.
unfoldable pub slot_matches : AddrComparatorSlot → AddrBusAccess → Bool
slot_matches slot access =
    if not slot.enabled
    then false
    else if not (same slot.io access.io)
    then false
    else let rdwr = slot.rdwr % 4 in
      if rdwr == 0
      then false
      else if access.write && rdwr / 2 % 2 == 0
      then false
      else if not access.write && rdwr % 2 == 0
      then false
      else if access.io
      then slot.addr % 2 ^ 16 == access.addr % 2 ^ 16
      else slot.addr % 2 ^ 18 == access.addr % 2 ^ 18

pub record AddrComparatorBank : Type 0 where
  pub slots : List AddrComparatorSlot
  pub ctrl_latch : ℕ
  pub addr_lo_latch : ℕ
  pub addr_hi_latch : ℕ
  pub last_hit : ℕ
  pub prev_write : List ℕ
  pub prev_latch : ℕ

abbrev pub empty_slot : AddrComparatorSlot
empty_slot = record { enabled = false; io = false; rdwr = 0; addr = 0 }

unfoldable pub reset : AddrComparatorBank
reset = record {
  slots = empty_slot ∷ empty_slot ∷ empty_slot ∷ empty_slot ∷ [];
  ctrl_latch = 0;
  addr_lo_latch = 0;
  addr_hi_latch = 0;
  last_hit = 0xffff;
  prev_write = 0 ∷ 0 ∷ 0 ∷ 0 ∷ [];
  prev_latch = 0;
}

unfoldable pub get_slot : ℕ → AddrComparatorBank → Option AddrComparatorSlot
get_slot slot b = if leb cpld_comparator_count slot then none else get_elem? b.slots slot

unfoldable pub set_slot : ℕ → AddrComparatorSlot → AddrComparatorBank → AddrComparatorBank
set_slot slot cfg b = if leb cpld_comparator_count slot then b else record b {
  slots = set b.slots slot (record cfg { rdwr = cfg.rdwr % 4; addr = cfg.addr % 2 ^ 18 });
}

-- The loop's search: the first slot from `i` on that matches.
unfoldable pub first_match : ℕ → List AddrComparatorSlot → AddrBusAccess → Option ℕ
first_match i [] access = none
first_match i (s ∷ slots) access =
    let rest = first_match (i + 1) slots access in if slot_matches s access then some i else rest

-- The body of the loop at the slot that matches.
unfoldable pub record_hit : ℕ → AddrBusAccess → AddrComparatorBank → AddrComparatorBank
record_hit i access b =
    let before = access.prev % 2 ^ 16 in
    if access.write
    then record b { prev_write = set b.prev_write i before; prev_latch = before; last_hit = i }
    else record b { prev_latch = 0; last_hit = i }

unfoldable pub take_hit :
    Option ℕ → AddrBusAccess → AddrComparatorBank → AddrComparatorBank × Option ℕ
take_hit none access b = (b, none)
take_hit (some i) access b = (record_hit i access b, some i)

unfoldable pub probe : AddrBusAccess → AddrComparatorBank → AddrComparatorBank × Option ℕ
probe access b = take_hit (first_match 0 b.slots access) access b

-- A read of a port: `absent` is `null`, and `fault` the TypeError of a slot that is not there.
pub data PortRead : Type 0 where
  value : ℕ → PortRead
  absent : PortRead
  fault : PortRead

abbrev of_slot : (AddrComparatorSlot → ℕ) → Option AddrComparatorSlot → PortRead
of_slot f none = fault
of_slot f (some s) = value (f s)

abbrev pub or_zero? : Option ℕ → ℕ
or_zero? none = 0
or_zero? (some n) = n

unfoldable pub selected_slot : AddrComparatorBank → ℕ
selected_slot b = b.ctrl_latch % 8

unfoldable pub ctrl_from_selected : AddrComparatorBank → PortRead
ctrl_from_selected b =
    of_slot (λ s. encode_break_ctrl (selected_slot b) s.enabled s.io s.rdwr)
      (get_elem? b.slots (selected_slot b))

unfoldable pub addr_lo_from_selected : AddrComparatorBank → PortRead
addr_lo_from_selected b = of_slot (λ s. s.addr % 2 ^ 16) (get_elem? b.slots (selected_slot b))

unfoldable pub addr_hi_from_selected : AddrComparatorBank → PortRead
addr_hi_from_selected b = of_slot (λ s. s.addr / 2 ^ 16 % 4) (get_elem? b.slots (selected_slot b))

unfoldable pub read_port : ℕ → AddrComparatorBank → AddrComparatorBank × PortRead
read_port port b =
    let p = port % 2 ^ 16 in
    if p == io_port_break_ctrl
    then (b, ctrl_from_selected b)
    else if p == io_port_break_addr_lo
    then (b, addr_lo_from_selected b)
    else if p == io_port_break_addr_hi
    then (b, addr_hi_from_selected b)
    else if p == io_port_break_hit
    then (if b.last_hit == 0xffff
        then (record b { prev_latch = 0 }, value 0xffff)
        else let slot = b.last_hit % 8 in
          (record b { prev_latch = or_zero? (get_elem? b.prev_write slot) % 2 ^ 16 }, value slot))
    else if p == io_port_break_prev
    then (b, value (b.prev_latch % 2 ^ 16))
    else (b, absent)

abbrev pub latched_addr : AddrComparatorBank → ℕ
latched_addr b = bit_or (b.addr_hi_latch % 4 * 2 ^ 16) (b.addr_lo_latch % 2 ^ 16)

-- `set` writes only where the list has the slot, which is the source's check of the range.
unfoldable pub apply_ctrl_to_slot : AddrComparatorBank → AddrComparatorBank
apply_ctrl_to_slot b =
    let d = decode_break_ctrl b.ctrl_latch in
    if leb cpld_comparator_count d.slot then b else record b {
      slots =
          set b.slots d.slot
            (record { enabled = d.enabled; io = d.io; rdwr = d.rdwr; addr = latched_addr b });
    }

-- The assignment to `s.addr` where the list has the slot.
abbrev pub set_addr :
    ℕ → ℕ → Option AddrComparatorSlot → List AddrComparatorSlot → List AddrComparatorSlot
set_addr slot a none slots = slots
set_addr slot a (some s) slots = set slots slot (record s { addr = a })

unfoldable pub apply_addr_to_selected : AddrComparatorBank → AddrComparatorBank
apply_addr_to_selected b =
    let slot = selected_slot b in
    if leb cpld_comparator_count slot
    then b
    else record b { slots = set_addr slot (latched_addr b) (get_elem? b.slots slot) b.slots }

unfoldable pub write_port : ℕ → ℕ → AddrComparatorBank → AddrComparatorBank × Bool
write_port port val b =
    let p = port % 2 ^ 16 in
    let v = val % 2 ^ 16 in
    if p == io_port_break_addr_lo
    then (apply_addr_to_selected (record b { addr_lo_latch = v }), true)
    else if p == io_port_break_addr_hi
    then (apply_addr_to_selected (record b { addr_hi_latch = v % 4 }), true)
    else if p == io_port_break_ctrl
    then (apply_ctrl_to_slot (record b { ctrl_latch = v }), true)
    else if p == io_port_break_hit
    then (b, true)
    else if p == io_port_break_prev
    then (b, true)
    else (b, false)
