-- ===== src/Machine/Switch.antt =====
-- The context switch of tms9995.ts, `doBlwp`.
use retro_cpu_emu.Shared.{ℕ, ◌+◌, ◌*◌, ◌%◌, ◌^◌, ◌≡◌, refl, ap, false, Option, none, some}
use retro_cpu_emu.Machine.{
  Machine, read_word, write_word, even_addr, save_context, save_r11, do_blwp, with_mask,
}
use retro_cpu_emu.Machine.Memory.{Frame, Frame-trans, read_word-Frame, write_word-Frame}

save_r11-Frame : (r11 : Option ℕ) (w : ℕ) (s : Machine) → Frame s (save_r11 r11 w s).1
unfolding save_r11
save_r11-Frame none w s = refl
save_r11-Frame (some v) w s = write_word-Frame (w + 11 * 2) (v % 2 ^ 16) s

pub save_context-Frame : (w : ℕ) (s : Machine) → Frame s (save_context w s).1
unfolding save_context
save_context-Frame w s =
    let s₁ = (write_word (w + 13 * 2) s.wp s).1 in
    let s₂ = (write_word (w + 14 * 2) s.pc s₁).1 in
    let s₃ = (write_word (w + 15 * 2) s.st s₂).1 in
    Frame-trans s s₁ s₃ (write_word-Frame _ _ s)
      (Frame-trans s₁ s₂ s₃ (write_word-Frame _ _ s₁) (write_word-Frame _ _ s₂))

-- The new state is the old one but for the memory, the ports, the registers and the idle flag.
abbrev pub Switched : Machine → Machine → Type 0
Switched s s' = s' ≡ record s {
  memory = s'.memory;
  ports = s'.ports;
  pc = s'.pc;
  wp = s'.wp;
  st = s'.st;
  idle = false;
}

pub do_blwp-Switched : (vec : ℕ) (r11 : Option ℕ) (s : Machine) → Switched s (do_blwp vec r11 s).1
unfolding do_blwp
do_blwp-Switched vec r11 s =
    let v = vec % 2 ^ 16 in
    let w = even_addr (read_word v s).0 in
    let s₁ = (read_word v s).1 in
    let s₂ = (read_word (v + 2) s₁).1 in
    let p = even_addr (read_word (v + 2) s₁).0 in
    let s₃ = (save_context w s₂).1 in
    let s₄ = (save_r11 r11 w s₃).1 in
    let f₂ = Frame-trans s s₁ s₂ (read_word-Frame v s) (read_word-Frame (v + 2) s₁) in
    let f₃ = Frame-trans s s₂ s₃ f₂ (save_context-Frame w s₂) in
    let f₄ = Frame-trans s s₃ s₄ f₃ (save_r11-Frame r11 w s₃) in
    ap (λ (m : Machine). record m { wp = w; pc = p; st = with_mask s₄.st s₄.st; idle = false }) f₄
