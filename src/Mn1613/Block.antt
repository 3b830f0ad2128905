-- ===== src/Mn1613/Block.antt =====
-- The loop of BLK in mn1613.ts: it ends, and it copies a block that does not overlap its source.
use retro_cpu_emu.Shared.{
  ℕ, zero, suc, ◌+◌, ◌-◌, ◌%◌, ◌^◌, ◌<◌, ◌≡◌, ◌≢◌, refl, ◌∙◌, ap, subst, arith, true, false, ◌==◌,
}
use retro_cpu_emu.Mn1613.Board.{phys, word_at, rd_phys, wr_phys}
use retro_cpu_emu.Mn1613.Core.{Cpu, rd_b, wr_b}
use retro_cpu_emu.Mn1613.BitOps.{blk_word, blk_loop, blk}
use retro_cpu_emu.Mn1613.Memory.{
  InBuffer, word_at-wr_phys, word_at-wr_phys_ne, word_at-rd_phys, rd_phys-value, phys-mod, phys-inj,
  word_at-lt, wr_phys-size, rd_phys-SameMemory,
}

-- The registers after a round.
record Round (s t : Cpu) : Type 0 where
  count : t.reg.r 0 ≡ (s.reg.r 0 + 2 ^ 16 - 1) % 2 ^ 16
  source : t.reg.r 1 ≡ (s.reg.r 1 + 1) % 2 ^ 16
  dest : t.reg.r 2 ≡ (s.reg.r 2 + 1) % 2 ^ 16
  from : t.reg.tsr0 ≡ s.reg.tsr0
  to : t.reg.tsr1 ≡ s.reg.tsr1

blk_word-Round : (s : Cpu) → Round s (blk_word s).1
unfolding blk_word rd_b wr_b
blk_word-Round s = record { count = refl; source = refl; dest = refl; from = refl; to = refl }

blk_loop-zero : (n : ℕ) (s : Cpu) → s.reg.r 0 ≡ 0 → (blk_loop n s).1 ≡ s
unfolding blk_loop
blk_loop-zero zero s e = refl
blk_loop-zero (suc n) s e = let z : (s.reg.r 0 == 0) ≡ true = ground arith in rw (blk_loop, z) refl

blk_loop-suc :
    (n : ℕ) (s : Cpu) → 0 < s.reg.r 0 → (blk_loop (suc n) s).1 ≡ (blk_loop n (blk_word s).1).1
unfolding blk_loop
blk_loop-suc n s h = let e : (s.reg.r 0 == 0) ≡ false = ground arith in rw (blk_loop, e) refl

-- The registers after the loop.
record Ended (n : ℕ) (s t : Cpu) : Type 0 where
  count : t.reg.r 0 ≡ 0
  source : t.reg.r 1 ≡ (s.reg.r 1 + n) % 2 ^ 16
  dest : t.reg.r 2 ≡ (s.reg.r 2 + n) % 2 ^ 16

blk_loop-Ended :
    (n : ℕ) (s : Cpu)
    → s.reg.r 0 ≡ n
    → n < 2 ^ 16
    → s.reg.r 1 < 2 ^ 16
    → s.reg.r 2 < 2 ^ 16
    → Ended n s (blk_loop n s).1
blk_loop-Ended zero s e h h1 h2 =
    rw (blk_loop-zero zero s e) (record { count = e; source = omega arith; dest = omega arith })
blk_loop-Ended (suc n) s e h h1 h2 =
    let r = blk_word-Round s in
    let i =
      blk_loop-Ended n (blk_word s).1 (omega (arith, r.count)) (omega arith)
        (omega (arith, r.source)) (omega (arith, r.dest)) in
    rw (blk_loop-suc n s (omega arith)) (record {
      count = i.count;
      source = omega (arith, i.source, r.source);
      dest = omega (arith, i.dest, r.dest);
    })

-- BLK ends, whatever the memory holds: with R0, R1 and R2 of 16 bits it leaves 0 in R0, and R1 and
-- R2 further by the words that R0 counted, to 16 bits.
pub blk-Ended :
    (s : Cpu)
    → s.reg.r 0 < 2 ^ 16
    → s.reg.r 1 < 2 ^ 16
    → s.reg.r 2 < 2 ^ 16
    → ((blk s).1.reg.r 0 ≡ 0)
      × ((blk s).1.reg.r 1 ≡ (s.reg.r 1 + s.reg.r 0) % 2 ^ 16)
      × ((blk s).1.reg.r 2 ≡ (s.reg.r 2 + s.reg.r 0) % 2 ^ 16)
unfolding blk
blk-Ended s h0 h1 h2 =
    let i = blk_loop-Ended (s.reg.r 0) s refl h0 h1 h2 in (i.count, i.source, i.dest)

-- The physical addresses of the words `i` of the source and of the destination.
abbrev pub source_word : Cpu → ℕ → ℕ
source_word s i = phys ((s.reg.r 1 + i) % 2 ^ 16) s.reg.tsr0

abbrev pub dest_word : Cpu → ℕ → ℕ
dest_word s i = phys ((s.reg.r 2 + i) % 2 ^ 16) s.reg.tsr1

next_word : (x y i : ℕ) → y ≡ (x + 1) % 2 ^ 16 → (y + i) % 2 ^ 16 ≡ (x + suc i) % 2 ^ 16
next_word x y i e = omega (arith, e)

next_source : (s : Cpu) (i : ℕ) → source_word (blk_word s).1 i ≡ source_word s (suc i)
next_source s i =
    let r = blk_word-Round s in
    rw (r.from, next_word (s.reg.r 1) ((blk_word s).1.reg.r 1) i r.source) refl

next_dest : (s : Cpu) (i : ℕ) → dest_word (blk_word s).1 i ≡ dest_word s (suc i)
next_dest s i =
    let r = blk_word-Round s in
    rw (r.to, next_word (s.reg.r 2) ((blk_word s).1.reg.r 2) i r.dest) refl

at_zero : (x : ℕ) → x < 2 ^ 16 → (x + 0) % 2 ^ 16 ≡ x
at_zero x h = omega arith

blk_word-other :
    (q : ℕ) (s : Cpu)
    → s.reg.r 2 < 2 ^ 16
    → q ≢ dest_word s 0
    → word_at q (blk_word s).1.board ≡ word_at q s.board
unfolding blk_word rd_b wr_b
blk_word-other q s h ne =
    let d = phys (s.reg.r 2) s.reg.tsr1 in
    let z = at_zero (s.reg.r 2) h in
    word_at-wr_phys_ne d q _ _ (λ e. ne (e ∙ phys-mod (s.reg.r 2) s.reg.tsr1 ∙ rw z refl))
    ∙ word_at-rd_phys q _ s.board

blk_word-copied :
    (s : Cpu)
    → s.reg.r 1 < 2 ^ 16
    → s.reg.r 2 < 2 ^ 16
    → InBuffer (dest_word s 0) s.board
    → word_at (dest_word s 0) (blk_word s).1.board ≡ word_at (source_word s 0) s.board
unfolding blk_word rd_b wr_b
blk_word-copied s h1 h2 ib =
    let d = phys (s.reg.r 2) s.reg.tsr1 in
    let a = phys (s.reg.r 1) s.reg.tsr0 in
    let b = (rd_phys a s.board).1 in
    let md = phys-mod (s.reg.r 2) s.reg.tsr1 in
    let z2 = at_zero (s.reg.r 2) h2 in
    let z1 = at_zero (s.reg.r 1) h1 in
    let ib' : InBuffer (d % 2 ^ 18) b =
      rw (md, (rd_phys-SameMemory a s.board).size) (rw z2 at ib) in
    let written = word_at-wr_phys d (rd_phys a s.board).0 b ib' in
    let value = rd_phys-value a s.board ∙ ap (λ (q : ℕ). word_at q s.board) (phys-mod _ _) in
    let small = word_at-lt a s.board in
    rw (z2, z1)
      (subst (λ (q : ℕ). word_at q (wr_phys d (rd_phys a s.board).0 b).1 ≡ word_at a s.board) md
        (written ∙ omega (arith, value, small)))

blk_word-size : (s : Cpu) → (blk_word s).1.board.byte_length ≡ s.board.byte_length
unfolding blk_word rd_b wr_b
blk_word-size s = wr_phys-size _ _ _ ∙ (rd_phys-SameMemory _ s.board).size

-- The `n` words of the source and of the destination do not overlap, and the destination's are in
-- the buffer.
pub record Apart (n : ℕ) (s : Cpu) : Type 0 where
  pub disjoint : (i j : ℕ) → i < n → j < n → source_word s i ≢ dest_word s j
  pub inside : (j : ℕ) → j < n → InBuffer (dest_word s j) s.board

Apart-next : (n : ℕ) (s : Cpu) → Apart (suc n) s → Apart n (blk_word s).1
Apart-next n s h = record {
  disjoint = λ i j hi hj.
      rw (next_source s i, next_dest s j) (h.disjoint (suc i) (suc j) (omega arith) (omega arith));
  inside = λ j hj. rw (next_dest s j, blk_word-size s) (h.inside (suc j) (omega arith));
}

-- What a state has for the loop's rounds: the count, and pointers of 16 bits.
record Counts (n : ℕ) (s : Cpu) : Type 0 where
  count : s.reg.r 0 ≡ n
  small : n < 2 ^ 16
  source : s.reg.r 1 < 2 ^ 16
  dest : s.reg.r 2 < 2 ^ 16

Counts-next : (n : ℕ) (s : Cpu) → Counts (suc n) s → Counts n (blk_word s).1
Counts-next n s h =
    let r = blk_word-Round s in
    record {
      count = omega (arith, r.count, h.count, h.small);
      small = omega (arith, h.small);
      source = omega (arith, r.source);
      dest = omega (arith, r.dest);
    }

blk_loop-other :
    (n q : ℕ) (s : Cpu)
    → Counts n s
    → ((j : ℕ) → j < n → q ≢ dest_word s j)
    → word_at q (blk_loop n s).1.board ≡ word_at q s.board
blk_loop-other zero q s h ne = rw (blk_loop-zero zero s h.count) refl
blk_loop-other (suc n) q s h ne = rw (blk_loop-suc n s (omega (arith, h.count))) (
    blk_loop-other n q (blk_word s).1 (Counts-next n s h)
      (λ j hj. rw (next_dest s j) (ne (suc j) (omega arith)))
    ∙ blk_word-other q s h.dest (ne 0 (omega arith)))

dest_word-ne : (j : ℕ) (s : Cpu) → 0 < j → j < 2 ^ 16 → dest_word s 0 ≢ dest_word s j
dest_word-ne j s p h e =
    let x = (s.reg.r 2 + 0) % 2 ^ 16 in
    let y = (s.reg.r 2 + j) % 2 ^ 16 in
    let same = phys-inj s.reg.tsr1 x y (omega arith) (omega arith) e in omega (arith, same)

blk_loop-copied :
    (n i : ℕ) (s : Cpu)
    → Counts n s
    → Apart n s
    → i < n
    → word_at (dest_word s i) (blk_loop n s).1.board ≡ word_at (source_word s i) s.board
blk_loop-copied zero i s h a lt = absurd (omega arith)
blk_loop-copied (suc n) zero s h a lt = rw (blk_loop-suc n s (omega (arith, h.count))) (
    blk_loop-other n (dest_word s 0) (blk_word s).1 (Counts-next n s h)
      (λ j hj. rw (next_dest s j) (dest_word-ne (suc j) s (omega arith) (omega (arith, h.small))))
    ∙ blk_word-copied s h.source h.dest (a.inside 0 (omega arith)))
blk_loop-copied (suc n) (suc i) s h a lt =
    let ih =
      blk_loop-copied n i (blk_word s).1 (Counts-next n s h) (Apart-next n s a) (omega arith) in
    rw (blk_loop-suc n s (omega (arith, h.count)), ← next_dest s i)
      (ih
        ∙ rw (next_source s i) (
            blk_word-other (source_word s (suc i)) s h.dest
              (a.disjoint (suc i) 0 (omega arith) (omega arith))))

-- BLK copies: where the words that R0 counts are apart and the destination is in the buffer, with
-- R0, R1 and R2 of 16 bits, each word of the destination holds after BLK what the word of the
-- source with its number held before.
pub blk-copied :
    (i : ℕ) (s : Cpu)
    → s.reg.r 0 < 2 ^ 16
    → s.reg.r 1 < 2 ^ 16
    → s.reg.r 2 < 2 ^ 16
    → Apart (s.reg.r 0) s
    → i < s.reg.r 0
    → word_at (dest_word s i) (blk s).1.board ≡ word_at (source_word s i) s.board
unfolding blk
blk-copied i s h0 h1 h2 a lt =
    blk_loop-copied (s.reg.r 0) i s (record { count = refl; small = h0; source = h1; dest = h2 }) a
      lt
