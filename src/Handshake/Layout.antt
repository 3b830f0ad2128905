-- ===== src/Handshake/Layout.antt =====
-- The layout of the notices of a step and of an undefined instruction, as the CPU board writes it,
-- against the decoder of command_cpu_to_io.ts.
use retro_cpu_emu.Shared.{
  ℕ, suc, ◌+◌, ◌-◌, ◌*◌, ◌/◌, ◌%◌, ◌^◌, bit_or, ◌≡◌, ◌<◌, refl, subst, ◌∙◌, ap, List, [], ◌∷◌, ◌++◌,
  length, get_elem?, some, ltb, if◌then◌else◌, arith,
}
use mathlib.Core.List.{append_assoc}
use retro_cpu_emu.Shared.Bits.{or_fields}
use retro_cpu_emu.Shared.Int.{ℤ, pos, negsuc}
use retro_cpu_emu.Handshake.Command.{Frame, read16}
use retro_cpu_emu.Handshake.Notify.{
  CpuStateNotifyInfo, read_addr, read_words, decode_mn1613_cpu_state_notify_info,
  decode_cpu_state_notify_info,
}

-- Words with their upper byte first.
abbrev pub big_endian : List ℕ → List ℕ
big_endian [] = []
big_endian (w ∷ ws) = w / 2 ^ 8 ∷ w % 2 ^ 8 ∷ big_endian ws

abbrev pub Words : List ℕ → Type 0
Words [] = Unit {0}
Words (w ∷ ws) = (w < 2 ^ 16) × Words ws

join_word : (w : ℕ) → w < 2 ^ 16 → bit_or (w / 2 ^ 8 % 2 ^ 8 * 2 ^ 8) (w % 2 ^ 8 % 2 ^ 8) ≡ w
join_word w h = or_fields 8 (w / 2 ^ 8 % 2 ^ 8) (w % 2 ^ 8 % 2 ^ 8) (omega arith) ∙ omega arith

get_elem?-append : (xs ys : List ℕ) (i : ℕ) → get_elem? (xs ++ ys) (length xs + i) ≡ get_elem? ys i
get_elem?-append [] ys i = ap (get_elem? ys) (omega arith)
get_elem?-append (x ∷ xs) ys i =
    let e : suc (length xs) + i ≡ suc (length xs + i) = omega arith in
    ap (get_elem? (x ∷ (xs ++ ys))) e ∙ get_elem?-append xs ys i

read16-word :
    (before after : List ℕ) (w ofs : ℕ)
    → ofs ≡ length before
    → w < 2 ^ 16
    → read16 (before ++ (w / 2 ^ 8 ∷ w % 2 ^ 8 ∷ after)) ofs ≡ w
unfolding read16
read16-word before after w ofs e h =
    let rest = w / 2 ^ 8 ∷ w % 2 ^ 8 ∷ after in
    let hi : get_elem? (before ++ rest) ofs ≡ some (w / 2 ^ 8) =
      ap (get_elem? (before ++ rest)) (omega arith) ∙ get_elem?-append before rest 0 in
    let lo : get_elem? (before ++ rest) (ofs + 1) ≡ some (w % 2 ^ 8) =
      ap (get_elem? (before ++ rest)) (omega arith) ∙ get_elem?-append before rest 1 in
    rw (hi, lo) (join_word w h)

snoc_two :
    (before rest : List ℕ) (a b : ℕ) → (before ++ (a ∷ b ∷ [])) ++ rest ≡ before ++ (a ∷ b ∷ rest)
snoc_two before rest a b = append_assoc before (a ∷ b ∷ []) rest

length-snoc_two : (before : List ℕ) (a b : ℕ) → length (before ++ (a ∷ b ∷ [])) ≡ length before + 2
length-snoc_two [] a b = refl
length-snoc_two (x ∷ before) a b = omega (arith, length-snoc_two before a b)

read_words-big_endian :
    (before ws : List ℕ) (ofs : ℕ)
    → ofs ≡ length before
    → Words ws
    → read_words (before ++ big_endian ws) ofs (length ws) ≡ ws
unfolding read_words
read_words-big_endian before [] ofs e h = refl
read_words-big_endian before (w ∷ ws) ofs e h =
    let head = read16-word before (big_endian ws) w ofs e h.0 in
    let rest =
      read_words-big_endian (before ++ (w / 2 ^ 8 ∷ w % 2 ^ 8 ∷ [])) ws (ofs + 2)
        (omega (arith, length-snoc_two before (w / 2 ^ 8) (w % 2 ^ 8))) h.1 in
    let moved = snoc_two before (big_endian ws) (w / 2 ^ 8) (w % 2 ^ 8) in
    let tail : read_words (before ++ big_endian (w ∷ ws)) (ofs + 2) (length ws) ≡ ws =
      subst (λ f. read_words f (ofs + 2) (length ws) ≡ ws) moved rest in
    rw head (ap (λ (t : List ℕ). w ∷ t) tail)

-- The frame of a notice, from the address and the words of the registers.
abbrev pub mn1613_frame : ℕ → ℕ → CpuStateNotifyInfo → Frame
mn1613_frame cmd a i =
    cmd
    ∷ 0
    ∷ big_endian (
        a / 2 ^ 16
        ∷ a % 2 ^ 16
        ∷ i.r0
        ∷ i.r1
        ∷ i.r2
        ∷ i.r3
        ∷ i.r4
        ∷ i.sp
        ∷ i.str
        ∷ i.ic
        ∷ i.csbr_ssbr
        ∷ i.tsr
        ∷ i.npp * 2 ^ 8
        ∷ i.stack)

-- What an MN1613 can report: registers of 16 bits, an NPP of 8, sixteen words of the stack.
pub record IsMn1613Info (i : CpuStateNotifyInfo) : Type 0 where
  pub words :
      Words (i.r0 ∷ i.r1 ∷ i.r2 ∷ i.r3 ∷ i.r4 ∷ i.sp ∷ i.str ∷ i.ic ∷ i.csbr_ssbr ∷ i.tsr ∷ [])
  pub npp : i.npp < 2 ^ 8
  pub no_r5 : i.r5to15 ≡ []
  pub stack : Words i.stack
  pub sixteen : length i.stack ≡ 16

abbrev pub as_signed : ℕ → ℤ
as_signed a = if ltb a (2 ^ 31) then pos a else negsuc (2 ^ 32 - a - 1)

-- The bytes before the stack.
abbrev header : ℕ → ℕ → CpuStateNotifyInfo → Frame
header cmd a i =
    cmd
    ∷ 0
    ∷ big_endian (
        a / 2 ^ 16
        ∷ a % 2 ^ 16
        ∷ i.r0
        ∷ i.r1
        ∷ i.r2
        ∷ i.r3
        ∷ i.r4
        ∷ i.sp
        ∷ i.str
        ∷ i.ic
        ∷ i.csbr_ssbr
        ∷ i.tsr
        ∷ i.npp * 2 ^ 8
        ∷ [])

addr_lem :
    (cmd a : ℕ) (i : CpuStateNotifyInfo)
    → a < 2 ^ 32
    → read_addr (mn1613_frame cmd a i) 2 ≡ as_signed a
unfolding read_addr
addr_lem cmd a i h =
    let e : a / 2 ^ 16 / 2 ^ 8 % 2 ^ 8 * 2 ^ 24
          + a / 2 ^ 16 % 2 ^ 8 % 2 ^ 8 * 2 ^ 16
          + a % 2 ^ 16 / 2 ^ 8 % 2 ^ 8 * 2 ^ 8
          + a % 2 ^ 16 % 2 ^ 8 % 2 ^ 8
        ≡ a =
      omega arith in
    rw e

stack_lem :
    (cmd a : ℕ) (i : CpuStateNotifyInfo)
    → Words i.stack
    → length i.stack ≡ 16
    → read_words (mn1613_frame cmd a i) 0x1c 16 ≡ i.stack
stack_lem cmd a i h n =
    subst (λ k. read_words (mn1613_frame cmd a i) 0x1c k ≡ i.stack) n
      (read_words-big_endian (header cmd a i) i.stack 0x1c refl h)

npp_lem : (n : ℕ) → n < 2 ^ 8 → n * 2 ^ 8 / 2 ^ 8 % 2 ^ 8 ≡ n
npp_lem n h = omega arith

-- A notice of an MN1613 with an address of 32 bits, registers of 16 bits, an NPP of 8 and sixteen
-- words of the stack is decoded to what was reported; the address comes out as a signed number.
pub decode-mn1613_frame :
    (cmd a : ℕ) (i : CpuStateNotifyInfo)
    → a < 2 ^ 32
    → i.addr ≡ as_signed a
    → IsMn1613Info i
    → decode_cpu_state_notify_info 1 (mn1613_frame cmd a i) ≡ i
unfolding decode_cpu_state_notify_info decode_mn1613_cpu_state_notify_info read16
decode-mn1613_frame cmd a i ha e h =
    let frame = mn1613_frame cmd a i in
    ground (
      arith,
      addr_lem cmd a i ha,
      stack_lem cmd a i h.stack h.sixteen,
      npp_lem i.npp h.npp,
      join_word i.r0,
      join_word i.r1,
      join_word i.r2,
      join_word i.r3,
      join_word i.r4,
      join_word i.sp,
      join_word i.str,
      join_word i.ic,
      join_word i.csbr_ssbr,
      join_word i.tsr,
    )
