-- ===== src/Handshake/Frames.antt =====
-- `cpuToIoRemainingSize` of command_cpu_to_io.ts asks for the bytes of a frame one after another,
-- and for no more.
use retro_cpu_emu.Shared.{
  ℕ, ◌+◌, ◌*◌, ◌^◌, ◌≡◌, ◌≢◌, ◌<◌, ◌≤◌, ◌⊎◌, refl, sym, subst, List, [], ◌∷◌, ◌++◌, length, Bool,
  some, none, if◌then◌else◌, arith, inl, inr,
}
use retro_cpu_emu.Handshake.Cmd
use retro_cpu_emu.Handshake.Command.{
  Frame, cpu_frame_size_for_cpu, break_total, cpu_to_io_remaining_size,
}
use retro_cpu_emu.Handshake.Wire.{Units, receive_framed_adaptive}
use retro_cpu_emu.Handshake.Transfers.{Bytes, Asks, units_of, over, receive_framed_adaptive-units}

length-snoc : (xs : List ℕ) (y : ℕ) → length (xs ++ y ∷ []) ≡ length xs + 1
length-snoc [] y = refl
length-snoc (x ∷ xs) y = omega (arith, length-snoc xs y)

module _ (entry_size cpu_type : ℕ) where
  abbrev pub remaining : Frame → ℕ
  remaining frame = cpu_to_io_remaining_size frame entry_size cpu_type

  fixed-Asks :
      (cmd : ℕ) (soFar rest : List ℕ)
      → cmd < 2 ^ 8
      → cmd ≢ Cmd.break_notify
      → 1 + length soFar + length rest ≡ cpu_frame_size_for_cpu cmd cpu_type
      → Asks remaining (cmd ∷ soFar) rest
  unfolding cpu_to_io_remaining_size
  fixed-Asks cmd soFar [] h n e = ground arith
  fixed-Asks cmd soFar (b ∷ rest) h n e =
      (ground arith, fixed-Asks cmd (soFar ++ b ∷ []) rest h n (omega (arith, length-snoc soFar b)))

  break_tail-Asks :
      (slot n : ℕ) (soFar rest : List ℕ)
      → n ≤ 4
      → length soFar + length rest ≡ 8 + n * entry_size
      → Asks remaining (Cmd.break_notify ∷ slot ∷ n ∷ soFar) rest
  unfolding cpu_to_io_remaining_size break_total
  break_tail-Asks slot n soFar [] h e = ground arith
  break_tail-Asks slot n soFar (b ∷ rest) h e = (
    ground arith,
    break_tail-Asks slot n (soFar ++ b ∷ []) rest h (omega (arith, length-snoc soFar b)),
  )

  break-Asks :
      (slot n : ℕ) (rest : List ℕ)
      → n ≤ 4
      → length rest ≡ 8 + n * entry_size
      → Asks remaining (Cmd.break_notify ∷ []) (slot ∷ n ∷ rest)
  unfolding cpu_to_io_remaining_size
  break-Asks slot n rest h e =
      (ground arith, (ground arith, break_tail-Asks slot n [] rest h (omega arith)))

  -- The frames: a command of fixed length, or a notice of a break with its entries.
  abbrev pub IsBreak : List ℕ → Type 0
  IsBreak (slot ∷ n ∷ rest) = (n ≤ 4) × (length rest ≡ 8 + n * entry_size)
  IsBreak (slot ∷ []) = ⊥
  IsBreak [] = ⊥

  abbrev pub IsFrame : ℕ → List ℕ → Type 0
  IsFrame cmd rest =
      (cmd ≢ Cmd.break_notify) × (1 + length rest ≡ cpu_frame_size_for_cpu cmd cpu_type)
      ⊎ (cmd ≡ Cmd.break_notify) × IsBreak rest

  frame-Asks :
      (cmd : ℕ) (rest : List ℕ) → cmd < 2 ^ 8 → IsFrame cmd rest → Asks remaining (cmd ∷ []) rest
  frame-Asks cmd rest h (inl (n, e)) = fixed-Asks cmd [] rest h n e
  frame-Asks cmd [] h (inr (e, b)) = absurd b
  frame-Asks cmd (slot ∷ []) h (inr (e, b)) = absurd b
  frame-Asks cmd (slot ∷ n ∷ rest) h (inr (e, (le, len))) =
      subst (λ c. Asks remaining (c ∷ []) (slot ∷ n ∷ rest)) (sym e) (break-Asks slot n rest le len)

  -- A frame of bytes that has the length of its command, or that is a notice of a break with its at
  -- most 4 entries, and that the CPU sends by units of two bytes, the last odd one with any pad, is
  -- received to the same bytes where the CPU lowers REQ after it. Where another unit waits behind it,
  -- or REQ stays up, the wait for the end of the session throws and there is no frame.
  pub frame-received :
      (cmd : ℕ) (rest : List ℕ) (pad : ℕ) (more : Units) (released : Bool)
      → Bytes (cmd ∷ rest)
      → IsFrame cmd rest
      → receive_framed_adaptive remaining
          (record { units = units_of pad (cmd ∷ rest) ++ more; released = released })
        ≡ (if over more released then some (cmd ∷ rest) else none)
  frame-received cmd rest pad more released h f =
      receive_framed_adaptive-units remaining pad more released cmd rest h
        (frame-Asks cmd rest h.0 f)
