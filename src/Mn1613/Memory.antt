-- ===== src/Mn1613/Memory.antt =====
-- The accesses to memory of mn1613.ts: what a comparator's hit leaves alone, and that a word that
-- was written is read back.
use retro_cpu_emu.Shared.{ℕ, ◌+◌, ◌*◌, ◌%◌, ◌^◌, ◌<◌, ◌≡◌, ◌≢◌, refl, ◌∙◌, ap, arith, List, [], ◌∷◌}
use retro_cpu_emu.AddrComparator.{AddrBusAccess}
use retro_cpu_emu.Mn1613.Board.{
  Board, trigger_interrupt, deliver, probe, add_clocks, phys, word_at, rd_phys, set_word, wr_phys,
}

-- The two boards have the same memory.
pub record SameMemory (b c : Board) : Type 0 where
  pub words : c.memory ≡ b.memory
  pub size : c.byte_length ≡ b.byte_length

deliver-SameMemory : (levels : List ℕ) (b : Board) → SameMemory b (deliver levels b)
unfolding deliver trigger_interrupt
deliver-SameMemory [] b = record { words = refl; size = refl }
deliver-SameMemory (level ∷ levels) b =
    let h = deliver-SameMemory levels (trigger_interrupt level b) in
    record { words = h.words; size = h.size }

pub probe-SameMemory : (access : AddrBusAccess) (b : Board) → SameMemory b (probe access b)
unfolding probe
probe-SameMemory access b =
    let h = deliver-SameMemory _ _ in record { words = h.words; size = h.size }

add_clocks-SameMemory : (n : ℕ) (b : Board) → SameMemory b (add_clocks n b)
unfolding add_clocks
add_clocks-SameMemory n b = ground arith

pub SameMemory-trans : (b c d : Board) → SameMemory b c → SameMemory c d → SameMemory b d
SameMemory-trans b c d p q = record { words = q.words ∙ p.words; size = q.size ∙ p.size }

pub rd_phys-SameMemory : (p : ℕ) (b : Board) → SameMemory b (rd_phys p b).1
unfolding rd_phys
rd_phys-SameMemory p b = SameMemory-trans b _ _ (add_clocks-SameMemory _ b) (probe-SameMemory _ _)

pub word_at-SameMemory : (q : ℕ) (b c : Board) → SameMemory b c → word_at q c ≡ word_at q b
unfolding word_at
word_at-SameMemory q b c h = rw (h.size, ap (λ (m : ℕ → ℕ). m q) h.words) refl

-- The buffer has the word at a physical address.
abbrev pub InBuffer : ℕ → Board → Type 0
InBuffer p b = p * 2 + 1 < b.byte_length

set_word_self : (p v : ℕ) (b : Board) → InBuffer p b → word_at p (set_word p v b) ≡ v % 2 ^ 16
unfolding word_at set_word
set_word_self p v b h = ground arith

set_word-ne : (p q v : ℕ) (b : Board) → q ≢ p → word_at q (set_word p v b) ≡ word_at q b
unfolding word_at set_word
set_word-ne p q v b ne = ground arith

set_word-size : (p v : ℕ) (b : Board) → (set_word p v b).byte_length ≡ b.byte_length
unfolding set_word
set_word-size p v b = ground arith

pub wr_phys-size : (p v : ℕ) (b : Board) → (wr_phys p v b).1.byte_length ≡ b.byte_length
unfolding wr_phys
wr_phys-size p v b =
    (probe-SameMemory _ _).size ∙ set_word-size _ _ _ ∙ (add_clocks-SameMemory _ b).size

-- A word written in the buffer is read back, to 16 bits.
pub word_at-wr_phys :
    (p v : ℕ) (b : Board)
    → InBuffer (p % 2 ^ 18) b
    → word_at (p % 2 ^ 18) (wr_phys p v b).1 ≡ v % 2 ^ 16
unfolding wr_phys
word_at-wr_phys p v b h =
    let c = add_clocks-SameMemory 4 b in
    let inside : InBuffer (p % 2 ^ 18) (add_clocks 4 b) = rw c.size h in
    word_at-SameMemory (p % 2 ^ 18) _ _ (probe-SameMemory _ _)
    ∙ set_word_self (p % 2 ^ 18) (v % 2 ^ 16) (add_clocks 4 b) inside
    ∙ omega arith

-- Every other word stays.
pub word_at-wr_phys_ne :
    (p q v : ℕ) (b : Board) → q ≢ p % 2 ^ 18 → word_at q (wr_phys p v b).1 ≡ word_at q b
unfolding wr_phys
word_at-wr_phys_ne p q v b ne =
    word_at-SameMemory q _ _ (probe-SameMemory _ _)
    ∙ set_word-ne (p % 2 ^ 18) q (v % 2 ^ 16) (add_clocks 4 b) ne
    ∙ word_at-SameMemory q _ _ (add_clocks-SameMemory 4 b)

pub word_at-rd_phys : (q p : ℕ) (b : Board) → word_at q (rd_phys p b).1 ≡ word_at q b
word_at-rd_phys q p b = word_at-SameMemory q _ _ (rd_phys-SameMemory p b)

pub rd_phys-value : (p : ℕ) (b : Board) → (rd_phys p b).0 ≡ word_at (p % 2 ^ 18) b
unfolding rd_phys
rd_phys-value p b = refl

pub phys-lt : (la s : ℕ) → phys la s < 2 ^ 18
unfolding phys
phys-lt la s = omega arith

-- Two logical addresses of one segment are apart in the memory.
pub phys-inj : (s x y : ℕ) → x < 2 ^ 16 → y < 2 ^ 16 → phys x s ≡ phys y s → x ≡ y
unfolding phys
phys-inj s x y hx hy e = omega arith

pub phys-mod : (la s : ℕ) → phys la s % 2 ^ 18 ≡ phys la s
unfolding phys
phys-mod la s = omega arith

pub word_at-lt : (q : ℕ) (b : Board) → word_at q b < 2 ^ 16
unfolding word_at
word_at-lt q b = ground arith
