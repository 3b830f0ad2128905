-- ===== src/AddrComparator/Hits.antt =====
-- Which slot a bus access hits, and what the CPU then reads from the hit ports.
use retro_cpu_emu.Shared.{
  ℕ, zero, suc, ◌+◌, ◌%◌, ◌^◌, ◌<◌, ◌≡◌, refl, subst, ◌∙◌, sym, arith, true, false, Option, none,
  some, List, [], ◌∷◌,
}
use retro_cpu_emu.Shared.{
  get_elem?, length, get_elem?-set_self, length-set, Bool-cases, inl, inr, ◌⊎◌,
}
use retro_cpu_emu.AddrComparator.{
  AddrComparatorSlot, AddrBusAccess, AddrComparatorBank, slot_matches, first_match, record_hit,
  take_hit, probe, read_port, value, io_port_break_hit, io_port_break_prev,
}

-- The slot at `i` matches the access.
abbrev pub MatchesAt : List AddrComparatorSlot → AddrBusAccess → ℕ → Type 0
MatchesAt slots access i =
    (s : AddrComparatorSlot) × (get_elem? slots i ≡ some s) × (slot_matches s access ≡ true)

-- No slot below `i` matches.
abbrev pub NoneBelow : List AddrComparatorSlot → AddrBusAccess → ℕ → Type 0
NoneBelow slots access i =
    (j : ℕ) (s : AddrComparatorSlot)
    → j < i
    → get_elem? slots j ≡ some s
    → slot_matches s access ≡ false

-- What `first_match` from `k` on says of the slots.
abbrev pub FirstMatch : ℕ → List AddrComparatorSlot → AddrBusAccess → Option ℕ → Type 0
FirstMatch k slots access none = NoneBelow slots access (length slots)
FirstMatch k slots access (some i) =
    (j : ℕ) × (i ≡ k + j) × MatchesAt slots access j × NoneBelow slots access j

NoneBelow-cons :
    (s : AddrComparatorSlot) (slots : List AddrComparatorSlot) (access : AddrBusAccess) (n : ℕ)
    → slot_matches s access ≡ false
    → NoneBelow slots access n
    → NoneBelow (s ∷ slots) access (suc n)
NoneBelow-cons s slots access n e h zero t lt q = ground arith
NoneBelow-cons s slots access n e h (suc j) t lt q = h j t (omega arith) q

FirstMatch-cons :
    (k : ℕ) (s : AddrComparatorSlot) (slots : List AddrComparatorSlot) (access : AddrBusAccess)
    (r : Option ℕ)
    → slot_matches s access ≡ false
    → FirstMatch (k + 1) slots access r
    → FirstMatch k (s ∷ slots) access r
FirstMatch-cons k s slots access none e h = NoneBelow-cons s slots access (length slots) e h
FirstMatch-cons k s slots access (some i) e (j, p, m, below) =
    (suc j, omega arith, m, NoneBelow-cons s slots access j e below)

pub first_match-FirstMatch :
    (k : ℕ) (slots : List AddrComparatorSlot) (access : AddrBusAccess)
    → FirstMatch k slots access (first_match k slots access)
unfolding first_match
first_match-FirstMatch k [] access = λ j s lt q. absurd (omega arith)
first_match-FirstMatch k (s ∷ slots) access = elim (Bool-cases (slot_matches s access)) [
  | inl e ↦ rw e (zero, omega arith, (s, refl, e), λ j t lt q. absurd (omega arith))
  | inr e ↦
      rw e (FirstMatch-cons k s slots access _ e (first_match-FirstMatch (k + 1) slots access))
]

hit-take_hit :
    (r : Option ℕ) (access : AddrBusAccess) (b : AddrComparatorBank) → (take_hit r access b).1 ≡ r
unfolding take_hit
hit-take_hit none access b = refl
hit-take_hit (some i) access b = refl

-- A probe hits the lowest slot that matches the access, and misses only if none of them does.
pub probe-FirstMatch :
    (access : AddrBusAccess) (b : AddrComparatorBank)
    → FirstMatch 0 b.slots access (probe access b).1
unfolding probe
probe-FirstMatch access b =
    subst (FirstMatch 0 b.slots access) (sym (hit-take_hit (first_match 0 b.slots access) access b))
      (first_match-FirstMatch 0 b.slots access)

-- A bank has four slots, each with a field of two bits and an address of eighteen, and the last
-- hit names one of them or is 0xffff.
abbrev pub SlotsFit : List AddrComparatorSlot → Type 0
SlotsFit [] = Unit
SlotsFit (s ∷ slots) = (s.rdwr < 4) × (s.addr < 2 ^ 18) × SlotsFit slots

pub record IsValid (b : AddrComparatorBank) : Type 0 where
  pub four_slots : length b.slots ≡ 4
  pub four_prevs : length b.prev_write ≡ 4
  pub hit_known : (b.last_hit < 4) ⊎ (b.last_hit ≡ 0xffff)
  pub slots_fit : SlotsFit b.slots

get_elem?-lt :
    (slots : List AddrComparatorSlot) (i : ℕ) (s : AddrComparatorSlot)
    → get_elem? slots i ≡ some s
    → i < length slots
get_elem?-lt [] i s h = cc
get_elem?-lt (x ∷ slots) zero s h = omega arith
get_elem?-lt (x ∷ slots) (suc i) s h = omega (arith, get_elem?-lt slots i s h)

-- The slot that a probe hits is one of the four.
pub probe-hit_lt :
    (access : AddrBusAccess) (b : AddrComparatorBank) (i : ℕ)
    → IsValid b
    → (probe access b).1 ≡ some i
    → i < 4
probe-hit_lt access b i v h =
    let (j, e, (s, q, m), below) =
      let f : FirstMatch 0 b.slots access (some i) = rw h at (probe-FirstMatch access b) in f in
    omega (arith, get_elem?-lt b.slots j s q, v.four_slots)

record_hit-IsValid :
    (i : ℕ) (access : AddrBusAccess) (b : AddrComparatorBank)
    → i < 4
    → IsValid b
    → IsValid (record_hit i access b)
unfolding record_hit
record_hit-IsValid i access b h v = elim (Bool-cases access.write) [
  | inl w ↦
      rw (w, record_hit)
        (record {
          four_slots = v.four_slots;
          four_prevs = length-set b.prev_write i (access.prev % 2 ^ 16) ∙ v.four_prevs;
          hit_known = inl h;
          slots_fit = v.slots_fit;
        })
  | inr w ↦
      rw (w, record_hit)
        (record {
          four_slots = v.four_slots;
          four_prevs = v.four_prevs;
          hit_known = inl h;
          slots_fit = v.slots_fit;
        })
]

take_hit-IsValid :
    (r : Option ℕ) (access : AddrBusAccess) (b : AddrComparatorBank)
    → ((i : ℕ) → r ≡ some i → i < 4)
    → IsValid b
    → IsValid (take_hit r access b).0
unfolding take_hit
take_hit-IsValid none access b h v = v
take_hit-IsValid (some i) access b h v = record_hit-IsValid i access b (h i refl) v

-- Probing keeps a bank valid, whatever the access.
probe-IsValid :
    (access : AddrBusAccess) (b : AddrComparatorBank) → IsValid b → IsValid (probe access b).0
unfolding probe
probe-IsValid access b v =
    take_hit-IsValid (first_match 0 b.slots access) access b
      (λ i h. probe-hit_lt access b i v (hit-take_hit (first_match 0 b.slots access) access b ∙ h))
      v

-- A recorded write is read back: the slot from 0033, then the value before the write from 0034.
record_hit-read_hit :
    (i : ℕ) (access : AddrBusAccess) (b : AddrComparatorBank)
    → IsValid b
    → access.write ≡ true
    → i < 4
    → let (b₁, slot) = read_port io_port_break_hit (record_hit i access b) in
      let (b₂, before) = read_port io_port_break_prev b₁ in
      (slot ≡ value i) × (before ≡ value (access.prev % 2 ^ 16))
unfolding record_hit read_port
record_hit-read_hit i access b v w h =
    ground (arith, get_elem?-set_self b.prev_write i (access.prev % 2 ^ 16))

take_hit-read_hit :
    (r : Option ℕ) (access : AddrBusAccess) (b : AddrComparatorBank) (i : ℕ)
    → IsValid b
    → access.write ≡ true
    → i < 4
    → r ≡ some i
    → let (b₁, slot) = read_port io_port_break_hit (take_hit r access b).0 in
      let (b₂, before) = read_port io_port_break_prev b₁ in
      (slot ≡ value i) × (before ≡ value (access.prev % 2 ^ 16))
unfolding take_hit
take_hit-read_hit none access b i v w lt h = cc
take_hit-read_hit (some j) access b i v w lt h =
    let e : j ≡ i = ground arith in rw e (record_hit-read_hit i access b v w lt)

-- After a write that hits, the CPU reads the slot from 0033 and then the value before the write
-- from 0034.
probe-read_hit :
    (access : AddrBusAccess) (b : AddrComparatorBank) (i : ℕ)
    → IsValid b
    → access.write ≡ true
    → (probe access b).1 ≡ some i
    → let (b₁, slot) = read_port io_port_break_hit (probe access b).0 in
      let (b₂, before) = read_port io_port_break_prev b₁ in
      (slot ≡ value i) × (before ≡ value (access.prev % 2 ^ 16))
unfolding probe
probe-read_hit access b i v w h =
    take_hit-read_hit (first_match 0 b.slots access) access b i v w (probe-hit_lt access b i v h)
      (sym (hit-take_hit (first_match 0 b.slots access) access b) ∙ h)
