-- ===== src/AddrComparator/Ports.antt =====
-- Programming the comparators through their ports.
use retro_cpu_emu.Shared.{
  ℕ, ◌+◌, ◌*◌, ◌%◌, ◌^◌, ◌<◌, bit_or, ◌≡◌, ◌≢◌, refl, ap, ◌∙◌, sym, subst, arith, Bool, Option,
  none, some, List,
}
use retro_cpu_emu.Shared.{get_elem?, set, length, get_elem?-set_self, get_elem?-set_ne, length-set}
use retro_cpu_emu.Shared.Bits.{or_fields, or_comm}
use retro_cpu_emu.AddrComparator.{
  AddrComparatorSlot, AddrComparatorBank, to_bit, decode_break_ctrl, encode_break_ctrl, write_port,
  io_port_break_ctrl, io_port_break_addr_lo, io_port_break_addr_hi, apply_ctrl_to_slot,
  apply_addr_to_selected, selected_slot, set_addr, latched_addr,
}
use retro_cpu_emu.AddrComparator.Hits.{IsValid}

pub encode_as_sum :
    (slot : ℕ) (enabled io : Bool) (rdwr : ℕ)
    → encode_break_ctrl slot enabled io rdwr
      ≡ slot % 8 + to_bit enabled * 8 + to_bit io * 16 + rdwr % 4 * 32
unfolding encode_break_ctrl
encode_as_sum slot enabled io rdwr =
    rw
      (
        or_comm (slot % 8) (to_bit enabled * 2 ^ 3),
        or_fields 3 (to_bit enabled) (slot % 8) (omega arith),
        or_comm (to_bit enabled * 2 ^ 3 + slot % 8) (to_bit io * 2 ^ 4),
        or_fields 4 (to_bit io) (to_bit enabled * 2 ^ 3 + slot % 8) (ground arith),
        or_comm (to_bit io * 2 ^ 4 + (to_bit enabled * 2 ^ 3 + slot % 8)) (rdwr % 4 * 2 ^ 5),
        or_fields 5 (rdwr % 4) (to_bit io * 2 ^ 4 + (to_bit enabled * 2 ^ 3 + slot % 8))
            (ground arith),
      )
      (omega arith)

-- Decoding an encoded control word gives back the slot, the two flags and the access field, cut to
-- three and two bits.
decode-encode :
    (slot : ℕ) (enabled io : Bool) (rdwr : ℕ)
    → decode_break_ctrl (encode_break_ctrl slot enabled io rdwr)
      ≡ record { slot = slot % 8; enabled = enabled; io = io; rdwr = rdwr % 4 }
unfolding decode_break_ctrl
decode-encode slot enabled io rdwr = rw (encode_as_sum slot enabled io rdwr) (ground arith)

-- The slot at `n` of a list of slots, with another address.
set_addr_self :
    (n a : ℕ) (slots : List AddrComparatorSlot) (s : AddrComparatorSlot)
    → get_elem? slots n ≡ some s
    → n < length slots
    → get_elem? (set_addr n a (get_elem? slots n) slots) n ≡ some (record s { addr = a })
set_addr_self n a slots s e h = rw e (get_elem?-set_self slots n (record s { addr = a }) h)

set_addr_ne :
    (n a j : ℕ) (o : Option AddrComparatorSlot) (slots : List AddrComparatorSlot)
    → n ≢ j
    → get_elem? (set_addr n a o slots) j ≡ get_elem? slots j
set_addr_ne n a j none slots h = refl
set_addr_ne n a j (some s) slots h = get_elem?-set_ne slots n j (record s { addr = a }) h

length-set_addr :
    (n a : ℕ) (o : Option AddrComparatorSlot) (slots : List AddrComparatorSlot)
    → length (set_addr n a o slots) ≡ length slots
length-set_addr n a none slots = refl
length-set_addr n a (some s) slots = length-set slots n (record s { addr = a })

-- One write of each port, with a comparator selected that the bank has.
module _ (b : AddrComparatorBank) where
  write_ctrl :
      (ctrl : ℕ)
      → ctrl % 8 < 4
      → (write_port io_port_break_ctrl ctrl b).0 ≡ (
          let d = decode_break_ctrl (ctrl % 2 ^ 16) in
          record b {
            ctrl_latch = ctrl % 2 ^ 16;
            slots =
                set b.slots
                  (ctrl % 8)
                  (record { enabled = d.enabled; io = d.io; rdwr = d.rdwr; addr = latched_addr b });
          })
  unfolding write_port apply_ctrl_to_slot decode_break_ctrl
  write_ctrl ctrl h = let e : ctrl % 2 ^ 16 % 8 ≡ ctrl % 8 = omega arith in ground arith

  write_lo :
      (lo n : ℕ)
      → b.ctrl_latch % 8 ≡ n
      → n < 4
      → (write_port io_port_break_addr_lo lo b).0 ≡ (
          let b' = record b { addr_lo_latch = lo % 2 ^ 16 } in
          record b' { slots = set_addr n (latched_addr b') (get_elem? b.slots n) b.slots })
  unfolding write_port apply_addr_to_selected selected_slot
  write_lo lo n e h = ground arith

  write_hi :
      (hi n : ℕ)
      → b.ctrl_latch % 8 ≡ n
      → n < 4
      → (write_port io_port_break_addr_hi hi b).0 ≡ (
          let b' = record b { addr_hi_latch = hi % 2 ^ 16 % 4 } in
          record b' { slots = set_addr n (latched_addr b') (get_elem? b.slots n) b.slots })
  unfolding write_port apply_addr_to_selected selected_slot
  write_hi hi n e h = ground arith

-- The three writes with which a program sets up a comparator.
abbrev pub program : ℕ → ℕ → ℕ → AddrComparatorBank → AddrComparatorBank
program ctrl lo hi b =
    (write_port io_port_break_addr_hi hi
      (write_port io_port_break_addr_lo lo (write_port io_port_break_ctrl ctrl b).0).0).0

-- The comparator that a control word and an address describe.
abbrev pub described : ℕ → ℕ → AddrComparatorSlot
described ctrl a =
    let d = decode_break_ctrl (ctrl % 2 ^ 16) in
    record { enabled = d.enabled; io = d.io; rdwr = d.rdwr; addr = a }

-- `b'` has comparator `n` as `s`, and the others as `b` has them.
abbrev pub OnlySlot : ℕ → AddrComparatorSlot → AddrComparatorBank → AddrComparatorBank → Type 0
OnlySlot n s b b' =
    (get_elem? b'.slots n ≡ some s) × ((j : ℕ) → j ≢ n → get_elem? b'.slots j ≡ get_elem? b.slots j)

module _ (ctrl lo hi : ℕ) (b : AddrComparatorBank) (h : ctrl % 8 < 4) where
  after_ctrl : AddrComparatorBank
  after_ctrl = record b {
    ctrl_latch = ctrl % 2 ^ 16;
    slots = set b.slots (ctrl % 8) (described ctrl (latched_addr b));
  }

  after_addr : AddrComparatorBank → AddrComparatorBank
  after_addr b' = record b' {
    slots = set_addr (ctrl % 8) (latched_addr b') (get_elem? b'.slots (ctrl % 8)) b'.slots;
  }

  -- The bank after the three writes, written out.
  after_program : AddrComparatorBank
  after_program =
      after_addr (record (after_addr (record after_ctrl { addr_lo_latch = lo % 2 ^ 16 })) {
        addr_hi_latch = hi % 2 ^ 16 % 4;
      })

  program_eq : program ctrl lo hi b ≡ after_program
  unfolding after_ctrl after_addr after_program
  program_eq =
      ap (λ t. (write_port io_port_break_addr_hi hi (write_port io_port_break_addr_lo lo t).0).0)
        (write_ctrl b ctrl h)
      ∙ ap (λ t. (write_port io_port_break_addr_hi hi t).0)
          (write_lo after_ctrl lo (ctrl % 8) (omega arith) h)
      ∙ write_hi (after_addr (record after_ctrl { addr_lo_latch = lo % 2 ^ 16 })) hi (ctrl % 8)
          (omega arith) h

  after_program-OnlySlot :
      IsValid b
      → OnlySlot (ctrl % 8) (described ctrl (hi % 4 * 2 ^ 16 + lo % 2 ^ 16)) b after_program
  unfolding after_ctrl after_addr after_program
  after_program-OnlySlot v =
      let n = ctrl % 8 in
      let xs₀ = set b.slots n (described ctrl (latched_addr b)) in
      let at₀ : get_elem? xs₀ n ≡ some (described ctrl (latched_addr b)) =
        get_elem?-set_self b.slots n _ (omega (arith, v.four_slots)) in
      let len₀ : length xs₀ ≡ length b.slots = length-set b.slots n _ in
      let a₁ = latched_addr (record after_ctrl { addr_lo_latch = lo % 2 ^ 16 }) in
      let xs₁ = set_addr n a₁ (get_elem? xs₀ n) xs₀ in
      let at₁ : get_elem? xs₁ n ≡ some (described ctrl a₁) =
        set_addr_self n a₁ xs₀ (described ctrl (latched_addr b)) at₀
          (omega (arith, len₀, v.four_slots)) in
      let len₁ : length xs₁ ≡ length xs₀ = length-set_addr n a₁ (get_elem? xs₀ n) xs₀ in
      let a₂ = bit_or (hi % 2 ^ 16 % 4 % 4 * 2 ^ 16) (lo % 2 ^ 16 % 2 ^ 16) in
      let e : a₂ ≡ hi % 4 * 2 ^ 16 + lo % 2 ^ 16 =
        omega (arith, or_fields 16 (hi % 2 ^ 16 % 4 % 4) (lo % 2 ^ 16 % 2 ^ 16) (omega arith)) in
      (
        set_addr_self n a₂ xs₁ (described ctrl a₁) at₁ (omega (arith, len₁, len₀, v.four_slots))
            ∙ ap (λ t. some (described ctrl t)) e,
        λ j ne.
            set_addr_ne n a₂ j (get_elem? xs₁ n) xs₁ (λ p. ne (sym p))
            ∙ set_addr_ne n a₁ j (get_elem? xs₀ n) xs₀ (λ p. ne (sym p))
            ∙ get_elem?-set_ne b.slots n j _ (λ p. ne (sym p)),
      )

-- Writing the control word and then the two halves of an address leaves the selected comparator
-- with the fields of the control word and the address, and changes no other comparator.
pub program-OnlySlot :
    (ctrl lo hi : ℕ) (b : AddrComparatorBank)
    → IsValid b
    → ctrl % 8 < 4
    → OnlySlot (ctrl % 8) (described ctrl (hi % 4 * 2 ^ 16 + lo % 2 ^ 16)) b (program ctrl lo hi b)
program-OnlySlot ctrl lo hi b v h =
    subst (OnlySlot (ctrl % 8) (described ctrl (hi % 4 * 2 ^ 16 + lo % 2 ^ 16)) b)
      (sym (program_eq ctrl lo hi b h)) (after_program-OnlySlot ctrl lo hi b h v)
