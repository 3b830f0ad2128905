-- ===== src/Run/Interrupts.antt =====
-- `handlePendingInterrupts` and `serviceInterrupt` of tms9995.ts: which interrupt is taken, and that
-- taking one shuts out the others.
use retro_cpu_emu.Shared.{
  ℕ, zero, suc, ◌+◌, ◌*◌, ◌/◌, ◌%◌, ◌^◌, ◌≡◌, Bool, false, not, ◌&&◌, leb, ◌==◌, if◌then◌else◌,
}
use retro_cpu_emu.Machine.{Machine, read_word, even_addr}
use retro_cpu_emu.Execute.Return.{saved, after_reads}

-- The level of the interrupt that is due under a mask: the least pending one that the mask lets
-- through, 0 for none.
abbrev pub due : Bool → Bool → Bool → ℕ → ℕ
due irq1 irq2 irq3 mask =
    if irq1 && leb 1 mask
    then 1
    else if irq2 && leb 2 mask
    then 2
    else if irq3 && leb 3 mask
    then 3
    else 0

abbrev pub due_level : Machine → ℕ
due_level s = due s.pending_irq1 s.pending_irq2 s.pending_irq3 (s.st % 2 ^ 4)

-- The word at an address, and the one after it, as two reads find them, made even.
abbrev pub vector_word : ℕ → Machine → ℕ
vector_word a s = even_addr (read_word a s).0

abbrev pub next_word : ℕ → Machine → ℕ
next_word a s = even_addr (read_word (a + 2) (read_word a s).1).0

-- The interrupt of a level was taken from `s`: WP and PC come from the vector of the level, the old
-- WP, PC and ST were written to R13, R14 and R15 of the new workspace, the mask is the level less one
-- under the same upper bits of ST, and the requests and the run state are kept.
pub record Taken (level : ℕ) (s s' : Machine) : Type 0 where
  pub wp : s'.wp ≡ vector_word (level * 4) s
  pub pc : s'.pc ≡ next_word (level * 4) s
  pub memory :
      s'.memory
      ≡ (saved (vector_word (level * 4) s) s.wp s.pc s.st (after_reads (level * 4) s)).memory
  pub mask : s'.st % 2 ^ 4 + 1 ≡ level
  pub upper : s'.st / 2 ^ 4 ≡ s.st % 2 ^ 16 / 2 ^ 4
  pub irq1 : s'.pending_irq1 ≡ s.pending_irq1
  pub irq2 : s'.pending_irq2 ≡ s.pending_irq2
  pub irq3 : s'.pending_irq3 ≡ s.pending_irq3
  pub exec_status : s'.exec_status ≡ s.exec_status
  pub idle : s'.idle ≡ false

-- The request of a level is taken back.
abbrev pub acknowledged : ℕ → Machine → Machine
acknowledged level s =
    if level == 1
    then record s { pending_irq1 = false }
    else if level == 2
    then record s { pending_irq2 = false }
    else record s { pending_irq3 = false }

-- What a call does when a level is due, and when none is.
abbrev pub Effect : ℕ → Machine → Machine → Type 0
Effect zero s s' = s' ≡ s
Effect (suc n) s s' = Taken (suc n) (acknowledged (suc n) s) s'

-- What is shown of a call that returns `r`.
abbrev pub Outcome : Machine → Machine × Bool → Type 0
Outcome s (s', taken) =
    (taken ≡ not (due_level s == 0)) × (due_level s' ≡ 0) × Effect (due_level s) s s'
