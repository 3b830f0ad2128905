-- ===== src/IoMmap/Protocol.antt =====
-- The sequence of writes FE80, FE81, FE82, FE83 that sets a comparator.
use retro_cpu_emu.Shared.{
  ℕ, ◌+◌, ◌*◌, ◌/◌, ◌%◌, ◌^◌, ◌<◌, ◌≡◌, refl, sym, ap, subst, ◌∙◌, ◌⊎◌, arith, false, not, ltb,
  ◌==◌,
}
use retro_cpu_emu.Shared.Bits.{or_fields}
use retro_cpu_emu.AddrComparator.{AddrComparatorSlot, encode_break_ctrl, decode_break_ctrl}
use retro_cpu_emu.AddrComparator.Hits.{IsValid}
use retro_cpu_emu.AddrComparator.Ports.{
  encode_as_sum, OnlySlot, described, program, program-OnlySlot,
}
use retro_cpu_emu.IoMmap.{
  IoMmap, ProgPhase, write_byte, write_slot, write_ctrl, write_addr_hi, write_addr_lo, commit_break,
  is_io_addr,
}

-- The comparator that the two bytes `ctrl` and the address describe.
abbrev pub programmed : ℕ → ℕ → ℕ → AddrComparatorSlot
programmed ctrl hi lo = record {
  enabled = ctrl / 2 ^ 3 % 2 == 1;
  io = ctrl / 2 ^ 4 % 2 == 1;
  rdwr = ctrl / 2 ^ 5 % 4;
  addr = hi * 2 ^ 8 + lo;
}

-- The four writes.
abbrev pub sequence : ℕ → ℕ → ℕ → ℕ → IoMmap → IoMmap
sequence slot ctrl hi lo m =
    (write_byte 0xfe83 lo
      (write_byte 0xfe82 hi (write_byte 0xfe81 ctrl (write_byte 0xfe80 slot m).0).0).0).0

described-programmed :
    (slot ctrl hi lo : ℕ)
    → described
        (encode_break_ctrl slot
          (not (ctrl / 2 ^ 3 % 2 == 0))
          (not (ctrl / 2 ^ 4 % 2 == 0))
          (ctrl / 2 ^ 5 % 4))
        (hi * 2 ^ 8 + lo)
      ≡ programmed ctrl hi lo
unfolding decode_break_ctrl
described-programmed slot ctrl hi lo = rw encode_as_sum (ground arith)

sequence_state :
    (slot ctrl hi lo : ℕ) (m : IoMmap)
    → slot < 4
    → ctrl < 2 ^ 8
    → hi < 2 ^ 8
    → lo < 2 ^ 8
    → (sequence slot ctrl hi lo m)
      ≡ record (commit_break lo (record m {
        prog_slot = slot;
        prog_ctrl = ctrl;
        prog_addr_hi = hi;
        phase = ProgPhase.addr_hi;
      })) { phase = ProgPhase.idle }
unfolding write_byte write_slot write_ctrl write_addr_hi write_addr_lo is_io_addr
sequence_state slot ctrl hi lo m h₁ h₂ h₃ h₄ =
    let e₁ : slot % 2 ^ 8 % 8 ≡ slot = omega arith in
    let e₂ : ctrl % 2 ^ 8 ≡ ctrl = omega arith in
    let e₃ : hi % 2 ^ 8 ≡ hi = omega arith in
    let e₄ : lo % 2 ^ 8 ≡ lo = omega arith in rw (e₁, e₂, e₃, e₄) refl

-- The control word that a commit writes to the comparators.
abbrev word_of : ℕ → ℕ → ℕ
word_of slot ctrl =
    encode_break_ctrl slot (not (ctrl / 2 ^ 3 % 2 == 0)) (not (ctrl / 2 ^ 4 % 2 == 0))
      (ctrl / 2 ^ 5 % 4)

commit_eq :
    (slot ctrl hi lo : ℕ) (m : IoMmap)
    → slot < 4
    → hi < 2 ^ 8
    → lo < 2 ^ 8
    → (commit_break lo (record m {
      prog_slot = slot;
      prog_ctrl = ctrl;
      prog_addr_hi = hi;
      phase = ProgPhase.addr_hi;
    })).comparators
      ≡ program (word_of slot ctrl) (hi * 2 ^ 8 + lo) 0 m.comparators
unfolding commit_break
commit_eq slot ctrl hi lo m h₁ h₃ h₄ =
    let e₁ : slot % 8 ≡ slot = omega arith in
    let e₂ : ltb 3 slot ≡ false = ground arith in
    let e₃ : hi % 2 ^ 8 ≡ hi = omega arith in
    let e₄ : lo % 2 ^ 8 ≡ lo = omega arith in rw (e₁, e₂, e₃, e₄, or_fields 8 hi lo h₄) refl

-- Writing a slot below 4, a control byte and the two bytes of an address to FE80, FE81, FE82 and
-- FE83 sets that comparator, whatever was half programmed before, and changes no other.
pub sequence-OnlySlot :
    (slot ctrl hi lo : ℕ) (m : IoMmap)
    → slot < 4
    → ctrl < 2 ^ 8
    → hi < 2 ^ 8
    → lo < 2 ^ 8
    → IsValid m.comparators
    → OnlySlot slot (programmed ctrl hi lo) m.comparators (sequence slot ctrl hi lo m).comparators
sequence-OnlySlot slot ctrl hi lo m h₁ h₂ h₃ h₄ v =
    let w = word_of slot ctrl in
    let e : w % 8 ≡ slot = rw encode_as_sum (omega arith) in
    let a : 0 % 4 * 2 ^ 16 + (hi * 2 ^ 8 + lo) % 2 ^ 16 ≡ hi * 2 ^ 8 + lo = omega arith in
    let set : OnlySlot (w % 8) (described w (0 % 4 * 2 ^ 16 + (hi * 2 ^ 8 + lo) % 2 ^ 16))
        m.comparators (program w (hi * 2 ^ 8 + lo) 0 m.comparators) =
      program-OnlySlot w (hi * 2 ^ 8 + lo) 0 m.comparators v (omega arith) in
    subst (OnlySlot slot (programmed ctrl hi lo) m.comparators)
      (sym (
        ap (λ t. t.comparators) (sequence_state slot ctrl hi lo m h₁ h₂ h₃ h₄)
        ∙ commit_eq slot ctrl hi lo m h₁ h₃ h₄))
      (rw (e, a, described-programmed slot ctrl hi lo) at set)

-- A write changes a comparator only if it goes to FE83 and finds the sequence at its last step:
-- after any other order of writes the comparators stay as they were.
pub write_byte-comparators :
    (addr val : ℕ) (m : IoMmap)
    → ((write_byte addr val m).0.comparators ≡ m.comparators)
      ⊎ ((addr % 2 ^ 16 ≡ 0xfe83) × (m.phase ≡ ProgPhase.addr_hi))
unfolding write_byte write_slot write_ctrl write_addr_hi write_addr_lo
write_byte-comparators addr val m = ground arith
