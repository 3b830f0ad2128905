-- ===== src/Cru/Laws.antt =====
-- Roles on the CRU, and what a wire or a latch passes from one side to the other.
use retro_cpu_emu.Shared.{
  ℕ, ◌-◌, ◌%◌, ◌<◌, ◌≡◌, refl, ◌∙◌, ap, arith, bit_or, Bool, true, false, not, ◌&&◌, Option, none,
  some, leb, if◌then◌else◌, Bool-cases, inl, inr,
}
use retro_cpu_emu.Shared.Bits.{bit-or}
use retro_cpu_emu.Cru.{
  Actor, Cru, write_bit, read_bit, store_bit, load_bit, normalize_bit_addr, can_write, can_read,
  cpu_write_out_data_byte, io_read_out_data_byte, io_write_in_data_byte, cpu_read_in_data_byte,
  as_byte, bit_min, bit_max,
}

abbrev pub peer : Actor → Actor
peer Actor.cpu = Actor.io
peer Actor.io = Actor.cpu

-- Each wire is driven by one side and read by the other.
pub roles_opposite : (who : Actor) (a : ℕ) → can_read (peer who) a ≡ can_write who a
unfolding can_write can_read
roles_opposite Actor.cpu a = refl
roles_opposite Actor.io a = refl

pub roles_disjoint : (who : Actor) (a : ℕ) → can_write who a ≡ true → can_read who a ≡ false
unfolding can_write can_read
roles_disjoint Actor.cpu a h = ground arith
roles_disjoint Actor.io a h = ground arith

low_bit_replaced : (x v : ℕ) → v < 2 → bit_or (x - x % 2) (v % 2) % 2 ≡ v
low_bit_replaced x v h = omega (arith, bit-or 0 (x - x % 2) (v % 2))

load-store : (who : Actor) (a v : ℕ) (c : Cru) → v < 2 → load_bit a (store_bit who a v c) ≡ v
unfolding load_bit store_bit
load-store who a v c h =
    ground (arith, low_bit_replaced c.out_data_byte v h, low_bit_replaced c.in_data_byte v h)

abbrev in_region : ℕ → Bool
in_region a = leb bit_min a && leb a bit_max

-- A bit that one side writes and the other side reads; `none` where one of the two throws.
abbrev read_by : Actor → ℕ → Option Cru → Option ℕ
read_by who a none = none
read_by who a (some c) = elim (read_bit who a c) [ none ↦ none | some r ↦ some r.1 ]

abbrev pub pass : Actor → ℕ → ℕ → Cru → Option ℕ
pass who a v c = read_by (peer who) a (write_bit who a v c)

normalize-inside : (a : ℕ) → in_region a ≡ true → normalize_bit_addr a ≡ some a
unfolding normalize_bit_addr
normalize-inside a h = ground arith

normalize-outside : (a : ℕ) → in_region a ≡ false → normalize_bit_addr a ≡ none
unfolding normalize_bit_addr
normalize-outside a h = ground arith

write-inside :
    (who : Actor) (a v : ℕ) (c : Cru)
    → in_region a ≡ true
    → write_bit who a v c
      ≡ (if c.strict_roles && not (can_write who a) then none else some (store_bit who a v c))
unfolding write_bit
write-inside who a v c h = rw (write_bit, normalize-inside a h) refl

write-outside : (who : Actor) (a v : ℕ) (c : Cru) → in_region a ≡ false → write_bit who a v c ≡ none
unfolding write_bit
write-outside who a v c h = rw (write_bit, normalize-outside a h) refl

-- The value that a permitted read returns.
read-inside :
    (who : Actor) (a : ℕ) (c : Cru)
    → in_region a ≡ true
    → (c.strict_roles && not (can_read who a)) ≡ false
    → read_by who a (some c) ≡ some (load_bit a c)
unfolding read_bit
read-inside who a c h s = rw (read_by, read_bit, normalize-inside a h, s) refl

store-strict :
    (who : Actor) (a v : ℕ) (c : Cru) → (store_bit who a v c).strict_roles ≡ c.strict_roles
unfolding store_bit
store-strict who a v c = refl

-- The peer reads what was stored, when it may.
read_by-store :
    (who : Actor) (a v : ℕ) (c : Cru)
    → v < 2
    → in_region a ≡ true
    → (c.strict_roles && not (can_write who a)) ≡ false
    → read_by (peer who) a (some (store_bit who a v c)) ≡ some v
read_by-store who a v c h i s =
    let p : ((store_bit who a v c).strict_roles && not (can_read (peer who) a)) ≡ false =
      rw (store-strict who a v c, roles_opposite who a) s in
    read-inside (peer who) a (store_bit who a v c) i p ∙ ap some (load-store who a v c h)

-- A bit that one side writes arrives at the other side when its address is in the region and, on a
-- strict CRU, the writer drives that wire; else an error is thrown.
pub pass-delivers :
    (who : Actor) (a v : ℕ) (c : Cru)
    → v < 2
    → pass who a v c
      ≡ (if in_region a && not (c.strict_roles && not (can_write who a)) then some v else none)
pass-delivers who a v c h = elim (Bool-cases (in_region a)) [
  | inr i ↦ rw (write-outside who a v c i, i) refl
  | inl i ↦ elim (Bool-cases (c.strict_roles && not (can_write who a))) [
    | inl s ↦ rw (write-inside who a v c i, i, s) refl
    | inr s ↦ rw (write-inside who a v c i, i, s) (read_by-store who a v c h i s)
  ]
]

abbrev pub out_byte : Option Cru → Option ℕ
out_byte none = none
out_byte (some c) = some (io_read_out_data_byte c).1

abbrev pub in_byte : Option Cru → Option ℕ
in_byte none = none
in_byte (some c) = some (cpu_read_in_data_byte c).1

-- A byte that one side latches is the byte that the other side reads, in both directions; a value
-- above 255 is refused.
data_byte-delivers :
    (v : ℕ) (c : Cru)
    → (out_byte (cpu_write_out_data_byte v c) ≡ (if leb v 255 then some v else none))
      × (in_byte (io_write_in_data_byte v c) ≡ (if leb v 255 then some v else none))
unfolding cpu_write_out_data_byte io_write_in_data_byte io_read_out_data_byte cpu_read_in_data_byte
    as_byte
data_byte-delivers v c = elim (Bool-cases (leb v 255)) [
  | inl h ↦ (ground arith, ground arith)
  | inr h ↦ (ground arith, ground arith)
]
