-- ===== src/Cru.antt =====
-- The CRU of the TMS9995 board: retrocpu_emu_ts/src/cpuboard/tms9995/cru_handshake.ts, class
-- Tms9995CruHandshake. The map from bit addresses to bits is a function, 0 outside the region;
-- `none` is a thrown error. The logs hold the newest entry first.
pub mod Laws
use retro_cpu_emu.Shared.{
  ℕ, ◌+◌, ◌-◌, ◌/◌, ◌%◌, ◌^◌, bit_or, Bool, true, false, not, ◌&&◌, ◌||◌, Option, none, some, List,
  [], ◌∷◌, ltb, leb, ◌==◌, if◌then◌else◌,
}

pub data Actor : Type 0 where
  cpu io : Actor

abbrev pub bit_min : ℕ
bit_min = 0x0010

abbrev pub bit_max : ℕ
bit_max = 0x0027

-- IRQ_BITS, CPU_OUT_SIGNALS and CPU_IN_SIGNALS.
abbrev pub interrupt_busy : ℕ
interrupt_busy = 0x0010

abbrev pub int1_cause : ℕ
int1_cause = 0x0011

abbrev pub int2_cause : ℕ
int2_cause = 0x0012

abbrev pub hshk_out_req : ℕ
hshk_out_req = 0x0020

abbrev pub hshk_out_dena : ℕ
hshk_out_dena = 0x0021

abbrev pub hshk_in_dack : ℕ
hshk_in_dack = 0x0022

abbrev pub out_data_base : ℕ
out_data_base = 0x0023

abbrev pub hshk_in_req : ℕ
hshk_in_req = 0x0024

abbrev pub hshk_in_dena : ℕ
hshk_in_dena = 0x0025

abbrev pub hshk_out_dack : ℕ
hshk_out_dack = 0x0026

abbrev pub in_data_base : ℕ
in_data_base = 0x0027

abbrev cpu_writable : ℕ → Bool
cpu_writable a =
    a == interrupt_busy
    || a == hshk_out_req
    || a == hshk_out_dena
    || a == hshk_in_dack
    || a == out_data_base

abbrev io_writable : ℕ → Bool
io_writable a =
    a == int1_cause
    || a == int2_cause
    || a == hshk_in_req
    || a == hshk_in_dena
    || a == hshk_out_dack
    || a == in_data_base

unfoldable pub can_write : Actor → ℕ → Bool
can_write Actor.cpu a = cpu_writable a
can_write Actor.io a = io_writable a

unfoldable pub can_read : Actor → ℕ → Bool
can_read Actor.cpu a = io_writable a
can_read Actor.io a = cpu_writable a

pub record LogEntry : Type 0 where
  pub actor : Actor
  pub bit_addr : ℕ
  pub bit : ℕ

pub record Cru : Type 0 where
  pub strict_roles : Bool
  pub bits : ℕ → ℕ
  pub out_data_byte : ℕ
  pub in_data_byte : ℕ
  pub writes : List LogEntry
  pub reads : List LogEntry

-- The constructor; `reset` does the same to the wires, the latches and the logs.
unfoldable pub new : Bool → Cru
new strict = record {
  strict_roles = strict;
  bits = λ a. 0;
  out_data_byte = 0;
  in_data_byte = 0;
  writes = [];
  reads = [];
}

unfoldable pub reset : Cru → Cru
reset c = new c.strict_roles

abbrev pub to_bit : ℕ → ℕ
to_bit v = if v == 0 then 0 else 1

abbrev pub update : (ℕ → ℕ) → ℕ → ℕ → ℕ → ℕ
update f a v x = if x == a then v else f x

unfoldable pub normalize_bit_addr : ℕ → Option ℕ
normalize_bit_addr a = if ltb a bit_min || ltb bit_max a then none else some a

-- `(byte & ~1) | (bit & 1)`
abbrev with_low_bit : ℕ → ℕ → ℕ
with_low_bit byte v = bit_or (byte - byte % 2) (v % 2)

abbrev entry : Actor → ℕ → ℕ → LogEntry
entry who a v = record { actor = who; bit_addr = a; bit = v }

-- `writeBit` after the checks of the address and of the role.
unfoldable pub store_bit : Actor → ℕ → ℕ → Cru → Cru
store_bit who a v c = record c {
  out_data_byte = if a == out_data_base then with_low_bit c.out_data_byte v else c.out_data_byte;
  in_data_byte = if a == in_data_base then with_low_bit c.in_data_byte v else c.in_data_byte;
  bits = update c.bits a v;
  writes = entry who a v ∷ c.writes;
}

unfoldable pub write_bit : Actor → ℕ → ℕ → Cru → Option Cru
write_bit who bit_addr v c = elim (normalize_bit_addr bit_addr) [
  | none ↦ none
  | some a ↦ if c.strict_roles && not (can_write who a) then none else some (store_bit who a v c)
]

unfoldable pub load_bit : ℕ → Cru → ℕ
load_bit a c =
    if a == out_data_base
    then to_bit (c.out_data_byte % 2)
    else if a == in_data_base
    then to_bit (c.in_data_byte % 2)
    else c.bits a

unfoldable pub read_bit : Actor → ℕ → Cru → Option (Cru × ℕ)
read_bit who bit_addr c = elim (normalize_bit_addr bit_addr) [
  | none ↦ none
  | some a ↦
      if c.strict_roles && not (can_read who a)
      then none
      else some (record c { reads = entry who a (load_bit a c) ∷ c.reads }, load_bit a c)
]

unfoldable pub as_byte : ℕ → Option ℕ
as_byte v = if ltb 0xff v then none else some v

unfoldable pub io_set_int1_cause : ℕ → Cru → Option Cru
io_set_int1_cause cause c = write_bit Actor.io int1_cause (to_bit (cause % 2)) c

unfoldable pub io_set_int2_cause : ℕ → Cru → Option Cru
io_set_int2_cause cause c = write_bit Actor.io int2_cause (to_bit (cause % 2)) c

unfoldable pub cpu_write_out_data_byte : ℕ → Cru → Option Cru
cpu_write_out_data_byte v c = elim (as_byte v) [
  | none ↦ none
  | some b ↦ some (record c {
    out_data_byte = b;
    bits = update c.bits out_data_base (to_bit (b % 2));
    writes = entry Actor.cpu out_data_base (to_bit (b % 2)) ∷ c.writes;
  })
]

unfoldable pub io_read_out_data_byte : Cru → Cru × ℕ
io_read_out_data_byte c = (
  record c { reads = entry Actor.io out_data_base (to_bit (c.out_data_byte % 2)) ∷ c.reads },
  c.out_data_byte % 2 ^ 8,
)

unfoldable pub io_write_in_data_byte : ℕ → Cru → Option Cru
io_write_in_data_byte v c = elim (as_byte v) [
  | none ↦ none
  | some b ↦ some (record c {
    in_data_byte = b;
    bits = update c.bits in_data_base (to_bit (b % 2));
    writes = entry Actor.io in_data_base (to_bit (b % 2)) ∷ c.writes;
  })
]

unfoldable pub cpu_read_in_data_byte : Cru → Cru × ℕ
cpu_read_in_data_byte c = (
  record c { reads = entry Actor.cpu in_data_base (to_bit (c.in_data_byte % 2)) ∷ c.reads },
  c.in_data_byte % 2 ^ 8,
)

-- The wires of `snapshot`, by their addresses, and its two latches.
pub record Snapshot : Type 0 where
  pub wire : ℕ → ℕ
  pub out_data_byte : ℕ
  pub in_data_byte : ℕ

unfoldable pub snapshot : Cru → Snapshot
snapshot c = record {
  wire = c.bits;
  out_data_byte = c.out_data_byte % 2 ^ 8;
  in_data_byte = c.in_data_byte % 2 ^ 8;
}
