-- ===== src/Mn1613/Stack.antt =====
-- `_push` and `_pop` of mn1613.ts against a list: the words of the stack segment above SP.
use retro_cpu_emu.Shared.{
  ℕ, suc, ◌+◌, ◌-◌, ◌%◌, ◌^◌, ◌<◌, ◌≡◌, ◌≢◌, refl, ◌∙◌, ap, sym, subst, arith, Bool, true, false,
  Option, none, some, List, [], ◌∷◌, ltb, if◌then◌else◌, length,
}
use retro_cpu_emu.Shared.State.{State}
use retro_cpu_emu.Mn1613.Board.{Board, phys, word_at, rd_phys, wr_phys}
use retro_cpu_emu.Mn1613.Core.{Cpu, push, pop, wr_s, rd_s}
use retro_cpu_emu.Mn1613.Memory.{
  InBuffer, word_at-wr_phys, word_at-wr_phys_ne, word_at-rd_phys, rd_phys-value, phys-inj, phys-mod,
  wr_phys-size, rd_phys-SameMemory,
}
use mathlib.Core.Option.{some-injective}
use retro_cpu_emu.Shared.{ltb→lt}

-- The words of `l` stand above the address `sp` of a segment, the first of them next to it.
abbrev pub Holds : List ℕ → ℕ → ℕ → Board → Type 0
Holds [] sp seg b = Unit {0}
Holds (v ∷ l) sp seg b =
    (word_at (phys ((sp + 1) % 2 ^ 16) seg) b ≡ v) × Holds l ((sp + 1) % 2 ^ 16) seg b

word_at-wr_other :
    (a x v seg : ℕ) (b : Board)
    → a < 2 ^ 16
    → x < 2 ^ 16
    → x ≢ a
    → word_at (phys x seg) (wr_phys (phys a seg) v b).1 ≡ word_at (phys x seg) b
word_at-wr_other a x v seg b ha hx ne =
    word_at-wr_phys_ne (phys a seg) (phys x seg) v b
      (λ e. ne (phys-inj seg x a hx ha (e ∙ phys-mod a seg)))

-- A write at `a` leaves the words that begin `k` above it.
Holds-wr :
    (l : List ℕ) (a k sp v seg : ℕ) (b : Board)
    → a < 2 ^ 16
    → sp ≡ (a + k) % 2 ^ 16
    → k + length l < 2 ^ 16
    → Holds l sp seg b
    → Holds l sp seg (wr_phys (phys a seg) v b).1
Holds-wr [] a k sp v seg b ha e lt h = tt
Holds-wr (w ∷ l) a k sp v seg b ha e lt h = (
  word_at-wr_other a ((sp + 1) % 2 ^ 16) v seg b ha (omega arith) (λ q. omega arith) ∙ h.0,
  Holds-wr l a (k + 1) ((sp + 1) % 2 ^ 16) v seg b ha (omega arith) (omega arith) h.1,
)

Holds-rd :
    (l : List ℕ) (p sp seg : ℕ) (b : Board) → Holds l sp seg b → Holds l sp seg (rd_phys p b).1
Holds-rd [] p sp seg b h = tt
Holds-rd (w ∷ l) p sp seg b h = (word_at-rd_phys _ p b ∙ h.0, Holds-rd l p _ seg b h.1)

-- The core's stack is the list `l`; every word of its segment is in the buffer.
pub record Refines (l : List ℕ) (s : Cpu) : Type 0 where
  pub held : Holds l s.reg.sp s.reg.ssbr s.board
  pub depth : length l < 2 ^ 16
  pub pointer : s.reg.sp < 2 ^ 16
  pub segment : (la : ℕ) → InBuffer (phys la s.reg.ssbr) s.board

pub push-Refines :
    (l : List ℕ) (v : ℕ) (s : Cpu)
    → suc (length l) < 2 ^ 16
    → Refines l s
    → Refines (v % 2 ^ 16 ∷ l) (push v s).1
unfolding push wr_s
push-Refines l v s lt h =
    let sp = s.reg.sp in
    let seg = s.reg.ssbr in
    let b = (wr_phys (phys sp seg) v s.board).1 in
    let back : ((sp + 2 ^ 16 - 1) % 2 ^ 16 + 1) % 2 ^ 16 ≡ sp = omega (arith, h.pointer) in
    let inside : InBuffer (phys sp seg % 2 ^ 18) s.board = rw (phys-mod sp seg) (h.segment sp) in
    let top : word_at (phys sp seg) b ≡ v % 2 ^ 16 =
      subst (λ (q : ℕ). word_at q b ≡ v % 2 ^ 16) (phys-mod sp seg)
        (word_at-wr_phys (phys sp seg) v s.board inside) in
    let rest =
      Holds-wr l sp 0 sp v seg s.board h.pointer (omega (arith, h.pointer)) (omega arith) h.held in
    record {
      held =
          subst (λ (x : ℕ). (word_at (phys x seg) b ≡ v % 2 ^ 16) × Holds l x seg b) (sym back)
            (top, rest);
      depth = lt;
      pointer = omega arith;
      segment = λ la. rw (wr_phys-size (phys sp seg) v s.board) (h.segment la);
    }

pub pop-value : (l : List ℕ) (v : ℕ) (s : Cpu) → Refines (v ∷ l) s → (pop s).0 ≡ v
unfolding pop rd_s
pop-value l v s h =
    let a = phys ((s.reg.sp + 1) % 2 ^ 16) s.reg.ssbr in
    rd_phys-value a s.board ∙ ap (λ (q : ℕ). word_at q s.board) (phys-mod _ _) ∙ h.held.0

pub pop-Refines : (l : List ℕ) (v : ℕ) (s : Cpu) → Refines (v ∷ l) s → Refines l (pop s).1
unfolding pop rd_s
pop-Refines l v s h =
    let sp = (s.reg.sp + 1) % 2 ^ 16 in
    let a = phys sp s.reg.ssbr in
    record {
      held = Holds-rd l a sp s.reg.ssbr s.board h.held.1;
      depth = omega (arith, h.depth);
      pointer = omega arith;
      segment = λ la. rw ((rd_phys-SameMemory a s.board).size) (h.segment la);
    }

-- Calls of the two operations in any order.
pub data StackOp : Type 0 where
  pushed : ℕ → StackOp
  popped : StackOp

-- The words that the calls of `_pop` return, in order, and the core after them.
unfoldable pub run_stack : List StackOp → State Cpu (List ℕ)
run_stack [] s = ([], s)
run_stack (pushed v ∷ ops) s = run_stack ops (push v s).1
run_stack (popped ∷ ops) s = let (out, s') = run_stack ops (pop s).1 in ((pop s).0 ∷ out, s')

abbrev consed : ℕ → Option (List ℕ × List ℕ) → Option (List ℕ × List ℕ)
consed v none = none
consed v (some r) = some (v ∷ r.0, r.1)

-- The same calls on a list; `none` where it is empty or full.
unfoldable pub list_stack : List StackOp → List ℕ → Option (List ℕ × List ℕ)
list_stack [] l = some ([], l)
list_stack (pushed v ∷ ops) l =
    let rest = list_stack ops (v % 2 ^ 16 ∷ l) in
    if ltb (suc (length l)) (2 ^ 16) then rest else none
list_stack (popped ∷ ops) [] = none
list_stack (popped ∷ ops) (v ∷ l) = consed v (list_stack ops l)

consed-some :
    (v : ℕ) (o : Option (List ℕ × List ℕ)) (r : List ℕ × List ℕ)
    → consed v o ≡ some r
    → (q : List ℕ × List ℕ) × (o ≡ some q) × (r ≡ (v ∷ q.0, q.1))
consed-some v none r h = cc
consed-some v (some q) r h = (q, refl, sym (some-injective _ _ h))

if_some :
    (t : Bool) (o : Option (List ℕ × List ℕ)) (r : List ℕ × List ℕ)
    → (if t then o else none) ≡ some r
    → (t ≡ true) × (o ≡ some r)
if_some true o r h = (refl, h)
if_some false o r h = cc

-- The code's stack does what the list does, while the list neither runs empty nor fills the 64 K
-- words of the segment: for any calls of `_push` and `_pop`, from a core whose stack is the list,
-- the words returned are the list's, and the core's stack after them is the list after them.
pub run_stack-list_stack :
    (ops : List StackOp) (l : List ℕ) (s : Cpu) (r : List ℕ × List ℕ)
    → Refines l s
    → list_stack ops l ≡ some r
    → ((run_stack ops s).0 ≡ r.0) × Refines r.1 (run_stack ops s).1
unfolding run_stack list_stack
run_stack-list_stack [] l s r h e =
    let q : ([], l) ≡ r = some-injective _ _ e in
    subst (λ (r : List ℕ × List ℕ). ([] ≡ r.0) × Refines r.1 s) q (refl, h)
run_stack-list_stack (pushed v ∷ ops) l s r h e =
    let (lt, rest) = if_some _ _ r e in
    run_stack-list_stack ops (v % 2 ^ 16 ∷ l) (push v s).1 r (push-Refines l v s (ltb→lt _ _ lt) h)
      rest
run_stack-list_stack (popped ∷ ops) [] s r h e = cc
run_stack-list_stack (popped ∷ ops) (v ∷ l) s r h e =
    let (q, e₁, e₂) = consed-some v (list_stack ops l) r e in
    let (out, after) = run_stack-list_stack ops l (pop s).1 q (pop-Refines l v s h) e₁ in
    rw (e₂, pop-value l v s h, out) (refl, after)
