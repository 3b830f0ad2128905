-- ===== src/Mn1613/Width/Logics.antt =====
-- The instruction groups 0x0C to 0x0F of `_executeOne` keep the widths of the registers.
use retro_cpu_emu.Shared.{ℕ, ◌%◌, ◌^◌, arith, true, false, bit_or, bit_and, bit_xor}
use retro_cpu_emu.Shared.State.{return}
use retro_cpu_emu.Mn1613.Register.{ri}
use retro_cpu_emu.Mn1613.Core.{Cpu, rd_c}
use retro_cpu_emu.Mn1613.Float.{JsNumber, fp_decode, fp_decode_at, skip_if_dr0}
use retro_cpu_emu.Mn1613.Arith.{rd_ri}
use retro_cpu_emu.Mn1613.Logic.{
  pure16, lad_result, dswp, bswp, fp_binary, fd, fd_by_zero, fd_quotient, exec0c, exec0d,
  div_quotient, div_by, div, swap_memory, swap_register, exec0e, mul, low_byte_of, move_memory,
  mvwi_ic, mvwi, move_register, exec0f,
}
use retro_cpu_emu.Mn1613.Width.Fields.{
  IsValid, Keeps, keeps, if-Keeps, Word, set_ic-IsValid, set_r-IsValid, sw-IsValid, set_e-IsValid,
  set_ovf-IsValid, or-Word, and-Word,
}
use retro_cpu_emu.Mn1613.Width.Steps.{
  skip_if-IsValid, fetch-IsValid, fetch-Word, rd_c-Word, rd_c-IsValid,
}
use retro_cpu_emu.Mn1613.Width.Floats.{fp_encode-IsValid, fp_finish-IsValid}
use retro_cpu_emu.Mn1613.Width.Operations.{Safe, Narrow, with_memory-Keeps, with_operand-Keeps}

pure16-IsValid : (f : ℕ → ℕ → ℕ) → Safe (pure16 f)
pure16-IsValid f a b s h = h

pure16-Word : (f : ℕ → ℕ → ℕ) → Narrow (pure16 f)
pure16-Word f a b s = omega arith

lad_result-Word : (a b : ℕ) → Word (lad_result a b)
unfolding lad_result
lad_result-Word a b = omega arith

div_quotient-Keeps : (q r k : ℕ) (s : Cpu) → IsValid s.reg → Keeps (div_quotient q r k s)
unfolding div_quotient
div_quotient-Keeps q r k s h = keeps (div_quotient q r k s) (
    skip_if-IsValid k _ _ (
      set_r-IsValid 1 _ _ (omega arith)
        (set_r-IsValid 0 _ _ (omega arith) (set_ovf-IsValid false s.reg h))))

div_by-Keeps : (d k : ℕ) (s : Cpu) → IsValid s.reg → Keeps (div_by d k s)
unfolding div_by
div_by-Keeps d k s h =
    let refused = keeps (tt, record s { reg = _ }) (set_ovf-IsValid true s.reg h) in
    if-Keeps _ _ _ refused (if-Keeps _ _ _ refused (div_quotient-Keeps _ _ k s h))

div-Keeps : (lo : ℕ) (s : Cpu) → IsValid s.reg → Keeps (div lo s)
unfolding div rd_ri rd_c
div-Keeps lo s h = div_by-Keeps _ _ _ (set_e-IsValid false s.reg h)

swap_memory-Keeps : (f : ℕ → ℕ) (lo : ℕ) (s : Cpu) → IsValid s.reg → Keeps (swap_memory f lo s)
unfolding swap_memory rd_ri rd_c
swap_memory-Keeps f lo s h =
    keeps (swap_memory f lo s) (skip_if-IsValid _ _ _ (set_r-IsValid 0 _ s.reg (omega arith) h))

swap_register-Keeps :
    (f : ℕ → ℕ) (rrr lo : ℕ) (s : Cpu) → IsValid s.reg → Keeps (swap_register f rrr lo s)
unfolding swap_register
swap_register-Keeps f rrr lo s h =
    keeps (swap_register f rrr lo s) (skip_if-IsValid _ _ _ (sw-IsValid rrr _ s.reg h))

pub exec0e-Keeps : (rrr lo : ℕ) (s : Cpu) → IsValid s.reg → Keeps (exec0e rrr lo s)
unfolding exec0e
exec0e-Keeps rrr lo s h =
    if-Keeps _ _ _
      (if-Keeps _ _ _ (div-Keeps lo s h)
        (if-Keeps _ _ _ (swap_memory-Keeps bswp lo s h) (swap_memory-Keeps dswp lo s h)))
      (if-Keeps _ _ _ (swap_register-Keeps (λ v. bswp v % 2 ^ 16) rrr lo s h)
        (swap_register-Keeps dswp rrr lo s h))

mul-Keeps : (lo : ℕ) (s : Cpu) → IsValid s.reg → Keeps (mul lo s)
unfolding mul rd_ri rd_c skip_if_dr0
mul-Keeps lo s h = keeps (mul lo s) (
    skip_if-IsValid _ _ _ (
      set_r-IsValid 1 _ _ (omega arith) (
        set_r-IsValid 0 _ _ (omega arith) (set_e-IsValid false _ (set_ovf-IsValid false s.reg h)))))

low_byte_of-Word : (a b : ℕ) → Word a → Word (low_byte_of a b)
unfolding low_byte_of
low_byte_of-Word a b h = or-Word _ _ (and-Word a 0xff00 h (omega arith)) (omega arith)

move_memory-Keeps :
    (f : ℕ → ℕ → ℕ) (lo : ℕ) (s : Cpu)
    → ((a b : ℕ) → Word a → Word b → Word (f a b))
    → IsValid s.reg
    → Keeps (move_memory f lo s)
unfolding move_memory rd_ri
move_memory-Keeps f lo s hf h =
    let m = rd_c-Word (ri (lo % 4) s.reg) s in
    let after : IsValid (rd_c (ri (lo % 4) s.reg) s).1.reg = rd_c-IsValid _ s h in
    keeps (move_memory f lo s)
      (skip_if-IsValid _ _ _ (set_r-IsValid 0 _ _ (hf _ _ (h.r 0) m) after))

mvwi_ic-Keeps : (s : Cpu) → IsValid s.reg → Keeps (mvwi_ic s)
unfolding mvwi_ic
mvwi_ic-Keeps s h = keeps (mvwi_ic s) (set_ic-IsValid _ _ (fetch-Word s) (fetch-IsValid s h))

mvwi-Keeps : (rrr lo : ℕ) (s : Cpu) → IsValid s.reg → Keeps (mvwi rrr lo s)
unfolding mvwi
mvwi-Keeps rrr lo s h =
    keeps (mvwi rrr lo s) (skip_if-IsValid _ _ _ (sw-IsValid rrr _ _ (fetch-IsValid s h)))

move_register-Keeps :
    (f : ℕ → ℕ → ℕ) (rrr lo : ℕ) (s : Cpu) → IsValid s.reg → Keeps (move_register f rrr lo s)
unfolding move_register
move_register-Keeps f rrr lo s h =
    keeps (move_register f rrr lo s) (skip_if-IsValid _ _ _ (sw-IsValid rrr _ s.reg h))

pub exec0f-Keeps : (rrr lo : ℕ) (s : Cpu) → IsValid s.reg → Keeps (exec0f rrr lo s)
unfolding exec0f
exec0f-Keeps rrr lo s h =
    if-Keeps _ _ _
      (if-Keeps _ _ _ (mul-Keeps lo s h) (
        if-Keeps _ _ _ (move_memory-Keeps (λ a b. b) lo s (λ a b ha hb. hb) h) (
          if-Keeps _ _ _ (mvwi_ic-Keeps s h)
            (move_memory-Keeps low_byte_of lo s (λ a b ha hb. low_byte_of-Word a b ha) h))))
      (if-Keeps _ _ _ (mvwi-Keeps rrr lo s h) (
        if-Keeps _ _ _ (move_register-Keeps (λ a b. b) rrr lo s h)
          (move_register-Keeps low_byte_of rrr lo s h)))

module _ (js : JsNumber) where
  fp_binary-Keeps :
      (op : js.Num → js.Num → js.Num) (lo : ℕ) (s : Cpu)
      → IsValid s.reg
      → Keeps (fp_binary js op lo s)
  unfolding fp_binary fp_decode fp_decode_at rd_c
  fp_binary-Keeps op lo s h =
      keeps (fp_binary js op lo s) (fp_finish-IsValid _ _ (fp_encode-IsValid js _ _ h))

  fd_by_zero-Keeps : (lo : ℕ) (s : Cpu) → IsValid s.reg → Keeps (fd_by_zero lo s)
  unfolding fd_by_zero skip_if_dr0
  fd_by_zero-Keeps lo s h =
      keeps (fd_by_zero lo s)
        (skip_if-IsValid _ _ _ (set_e-IsValid false _ (set_ovf-IsValid true s.reg h)))

  fd_quotient-Keeps :
      (me : js.Num) (lo : ℕ) (s : Cpu) → IsValid s.reg → Keeps (fd_quotient js me lo s)
  unfolding fd_quotient fp_decode
  fd_quotient-Keeps me lo s h =
      keeps (fd_quotient js me lo s) (fp_finish-IsValid _ _ (fp_encode-IsValid js _ _ h))

  fd-Keeps : (lo : ℕ) (s : Cpu) → IsValid s.reg → Keeps (fd js lo s)
  unfolding fd fp_decode_at rd_c
  fd-Keeps lo s h = if-Keeps _ _ _ (fd_by_zero-Keeps lo _ h) (fd_quotient-Keeps _ lo _ h)

  pub exec0c-Keeps : (rrr lo : ℕ) (s : Cpu) → IsValid s.reg → Keeps (exec0c js rrr lo s)
  unfolding exec0c
  exec0c-Keeps rrr lo s h =
      if-Keeps _ _ _
        (if-Keeps _ _ _ (fp_binary-Keeps js.mul lo s h) (
          if-Keeps _ _ _ (fd-Keeps lo s h) (
            if-Keeps _ _ _ (with_memory-Keeps _ lo s (pure16-IsValid bit_or) (pure16-Word bit_or) h)
              (with_memory-Keeps _ lo s (pure16-IsValid bit_xor) (pure16-Word bit_xor) h))))
        (if-Keeps _ _ _ (with_operand-Keeps _ rrr lo s (pure16-IsValid bit_or) h)
          (with_operand-Keeps _ rrr lo s (pure16-IsValid bit_xor) h))

  pub exec0d-Keeps : (rrr lo : ℕ) (s : Cpu) → IsValid s.reg → Keeps (exec0d js rrr lo s)
  unfolding exec0d
  exec0d-Keeps rrr lo s h =
      if-Keeps _ _ _
        (if-Keeps _ _ _ (fp_binary-Keeps js.add lo s h) (
          if-Keeps _ _ _ (fp_binary-Keeps js.sub lo s h) (
            if-Keeps _ _ _
              (with_memory-Keeps _ lo s (pure16-IsValid bit_and) (pure16-Word bit_and) h)
              (with_memory-Keeps (λ a b. return (lad_result a b)) lo s (λ a b s h. h)
                (λ a b s. lad_result-Word a b) h))))
        (if-Keeps _ _ _ (with_operand-Keeps _ rrr lo s (pure16-IsValid bit_and) h)
          (with_operand-Keeps (λ a b. return (lad_result a b)) rrr lo s (λ a b s h. h) h))
