-- ===== src/Handshake/Breaks.antt =====
-- The notice of a break, command_cpu_to_io.ts: from its frame to its handler.
use retro_cpu_emu.Shared.{
  ℕ, ◌+◌, ◌-◌, ◌*◌, ◌/◌, ◌%◌, ◌^◌, ◌≡◌, ◌<◌, ◌≤◌, refl, subst, ap, List, [], ◌∷◌, ◌++◌, length,
  take, drop, min, false, ltb, leb, arith,
}
use native.Mathlib.Nat.{mul-div_cancel, suc-mul}
use retro_cpu_emu.Handshake.Cmd
use retro_cpu_emu.Handshake.Command.{Frame, cpu_frame_size_for_cpu}
use retro_cpu_emu.Handshake.Dispatcher.{
  CpuToIoHandlers, slice_entries, break_info, reply, handle_break_notify, handle, dispatch,
}

-- The entries of a history, one behind another.
abbrev pub joined : List Frame → List ℕ
joined [] = []
joined (entry ∷ entries) = entry ++ joined entries

abbrev pub AllOf : ℕ → List Frame → Type 0
AllOf size [] = Unit {0}
AllOf size (entry ∷ entries) = (length entry ≡ size) × AllOf size entries

take-append : (xs ys : List ℕ) → take (length xs) (xs ++ ys) ≡ xs
take-append [] ys = refl
take-append (x ∷ xs) ys = ap (λ (t : List ℕ). x ∷ t) (take-append xs ys)

drop-append : (xs ys : List ℕ) → drop (length xs) (xs ++ ys) ≡ ys
drop-append [] ys = refl
drop-append (x ∷ xs) ys = drop-append xs ys

length-append : (xs ys : List ℕ) → length (xs ++ ys) ≡ length xs + length ys
length-append [] ys = omega arith
length-append (x ∷ xs) ys = omega (arith, length-append xs ys)

length-joined :
    (size : ℕ) (entries : List Frame)
    → AllOf size entries
    → length (joined entries) ≡ length entries * size
length-joined size [] h = omega arith
length-joined size (entry ∷ entries) h = omega (
  arith,
  length-append entry (joined entries),
  length-joined size entries h.1,
  ap (λ (t : ℕ). t) h.0,
  suc-mul (length entries) size,
)

slice_entries-joined :
    (size : ℕ) (entries : List Frame)
    → AllOf size entries
    → slice_entries size (length entries) (joined entries) ≡ entries
unfolding slice_entries
slice_entries-joined size [] h = refl
slice_entries-joined size (entry ∷ entries) h =
    let e₁ : take size (entry ++ joined entries) ≡ entry =
      subst (λ n. take n (entry ++ joined entries) ≡ entry) h.0
        (take-append entry (joined entries)) in
    let e₂ : drop size (entry ++ joined entries) ≡ joined entries =
      subst (λ n. drop n (entry ++ joined entries) ≡ joined entries) h.0
        (drop-append entry (joined entries)) in
    rw (e₁, e₂) (ap (λ (t : List Frame). entry ∷ t) (slice_entries-joined size entries h.1))

abbrev pub break_frame : ℕ → ℕ → ℕ → ℕ → ℕ → ℕ → ℕ → ℕ → ℕ → List Frame → Frame
break_frame slot flags count a₃ a₂ a₁ a₀ p q entries =
    Cmd.break_notify
    ∷ slot
    ∷ length entries
    ∷ flags
    ∷ count
    ∷ a₃
    ∷ a₂
    ∷ a₁
    ∷ a₀
    ∷ p
    ∷ q
    ∷ joined entries

module _ (size cpu_type : ℕ) (slot flags count a₃ a₂ a₁ a₀ p q : ℕ) (entries : List Frame)
    (positive : 0 < size) (few : length entries ≤ 4) (all : AllOf size entries) where
  abbrev frame : List Frame → Frame
  frame = break_frame slot flags count a₃ a₂ a₁ a₀ p q

  available : (length (frame entries) - 11) / size ≡ length entries
  available =
      let e : length (frame entries) - 11 ≡ length entries * size =
        omega (arith, length-joined size entries all) in
      rw e (mul-div_cancel (length entries) positive)

  few_mod : length entries % 2 ^ 8 ≡ length entries
  few_mod = omega arith

  break_info_lem : break_info size (frame entries) ≡ record (break_info size (frame [])) {
    history_count = length entries;
    history_entries = entries;
  }
  unfolding break_info
  break_info_lem =
      let m : min (length entries) (length entries) ≡ length entries = omega arith in
      rw (available, few_mod, m, slice_entries-joined size entries all)

  -- A notice of a break for one of the four slots, with at most 4 entries, each of the size of the CPU
  -- and not empty: the handler is called once, with exactly these entries and with the fields that the
  -- header has without them, and the reply is its status.
  pub dispatch-break_frame :
      {H : Type 0} (handlers : CpuToIoHandlers H) (h : H)
      → slot < 4
      → dispatch handlers size cpu_type (break_frame slot flags count a₃ a₂ a₁ a₀ p q entries) h
        ≡ reply handlers
            (handlers.on_break_notify
              (record (break_info size (break_frame slot flags count a₃ a₂ a₁ a₀ p q [])) {
                history_count = length entries;
                history_entries = entries;
              }))
            h
  unfolding dispatch handle handle_break_notify cpu_frame_size_for_cpu
  dispatch-break_frame handlers h lt =
      let long : ltb (length (frame entries)) 11 ≡ false = ground arith in
      let known : leb 4 (slot % 2 ^ 8) ≡ false = ground arith in
      let fit : ltb 4 (length entries % 2 ^ 8) ≡ false = ground arith in
      rw (long, known, fit, break_info_lem)
