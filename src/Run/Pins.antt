-- ===== src/Run/Pins.antt =====
-- The pins of the core: the RUN output, the HLT input and the edges of the others.
use retro_cpu_emu.Shared.{ℕ, ◌≡◌, refl, ◌∙◌, ap, Bool, true, false, ◌&&◌, if◌then◌else◌, none}
use retro_cpu_emu.PinSignal.{commit_sample, commit_output_sample, set_output_level, clear_deferred}
use retro_cpu_emu.Machine.{Machine, ExecStatus, read_word, even_addr}
use retro_cpu_emu.Machine.Memory.{read_word-Frame}
use retro_cpu_emu.Machine.Switch.{do_blwp-Switched}
use retro_cpu_emu.Run.{
  is_running, restart, reset, request_halt, service_interrupt, sample_rst, sample_hlt, sample_irqs,
  sample_nmi, commit_pins, process_input_pins,
}

-- The RUN output is high exactly while the core runs.
abbrev pub RunMatches : Machine → Type 0
RunMatches s = s.pin_run.now ≡ is_running s.exec_status

-- A property of both branches of a test.
either_branch :
    (P : Machine → Type 0) (t : Bool) (a b : Machine) → P a → P b → P (if t then a else b)
either_branch P true a b p q = p
either_branch P false a b p q = q

reset-RunMatches : (s : Machine) → RunMatches (reset s)
unfolding reset set_output_level
reset-RunMatches s = refl

halt_status :
    (b : Bool) (s : Machine)
    → is_running s.exec_status ≡ b
    → RunMatches s
    → is_running (request_halt s).exec_status ≡ false × RunMatches (request_halt s)
unfolding request_halt set_output_level
halt_status true s e h = simp e (refl, refl)
halt_status false s e h = simp e (refl, h ∙ e)

request_halt-stops : (s : Machine) → RunMatches s → is_running (request_halt s).exec_status ≡ false
request_halt-stops s h = (halt_status (is_running s.exec_status) s refl h).0

request_halt-RunMatches : (s : Machine) → RunMatches s → RunMatches (request_halt s)
request_halt-RunMatches s h = (halt_status (is_running s.exec_status) s refl h).1

service_interrupt-run :
    (vec mask : ℕ) (s : Machine) → (service_interrupt vec mask s).pin_run ≡ s.pin_run
unfolding service_interrupt
service_interrupt-run vec mask s = ap (λ (m : Machine). m.pin_run) (do_blwp-Switched vec none s)

service_interrupt-status :
    (vec mask : ℕ) (s : Machine) → (service_interrupt vec mask s).exec_status ≡ s.exec_status
unfolding service_interrupt
service_interrupt-status vec mask s =
    ap (λ (m : Machine). m.exec_status) (do_blwp-Switched vec none s)

service_interrupt-RunMatches :
    (vec mask : ℕ) (s : Machine) → RunMatches s → RunMatches (service_interrupt vec mask s)
service_interrupt-RunMatches vec mask s h =
    rw (service_interrupt-run vec mask s, service_interrupt-status vec mask s) h

sample_rst-RunMatches : (s : Machine) → RunMatches s → RunMatches (sample_rst s)
unfolding sample_rst
sample_rst-RunMatches s h = either_branch (λ m. RunMatches m) _ _ _ (reset-RunMatches _) h

sample_hlt-RunMatches : (s : Machine) → RunMatches s → RunMatches (sample_hlt s)
unfolding sample_hlt
sample_hlt-RunMatches s h = either_branch (λ m. RunMatches m) _ _ _ (request_halt-RunMatches _ h) h

sample_nmi-RunMatches : (s : Machine) → RunMatches s → RunMatches (sample_nmi s)
unfolding sample_nmi
sample_nmi-RunMatches s h =
    either_branch (λ m. RunMatches m) _ _ _ (service_interrupt-RunMatches 0xfffc 0 _ h) h

sample_nmi-status : (s : Machine) → (sample_nmi s).exec_status ≡ s.exec_status
unfolding sample_nmi
sample_nmi-status s =
    either_branch (λ m. m.exec_status ≡ s.exec_status) _ _ _ (service_interrupt-status 0xfffc 0 _)
      refl

reset-hlt : (s : Machine) → (reset s).pin_hlt.now ≡ s.pin_hlt.now
unfolding reset commit_sample clear_deferred
reset-hlt s =
    let s₁ = (read_word 0 (restart s)).1 in
    let s₂ = record s₁ { wp = even_addr (read_word 0 (restart s)).0 } in
    ap (λ (m : Machine). m.pin_hlt.now) (read_word-Frame 2 s₂)
    ∙ ap (λ (m : Machine). m.pin_hlt.now) (read_word-Frame 0 (restart s))

sample_rst-hlt : (s : Machine) → (sample_rst s).pin_hlt.now ≡ s.pin_hlt.now
unfolding sample_rst
sample_rst-hlt s = either_branch (λ m. m.pin_hlt.now ≡ s.pin_hlt.now) _ _ _ (reset-hlt _) refl

sample_hlt-stops :
    (s : Machine)
    → s.pin_hlt.now ≡ true
    → RunMatches s
    → is_running (sample_hlt s).exec_status ≡ false
unfolding sample_hlt
sample_hlt-stops s e h = simp e (request_halt-stops s h)

only_if : (a b : Bool) → (a ≡ true → b ≡ false) → (a && b) ≡ false
only_if false b h = refl
only_if true b h = h refl

-- Processing the pins keeps the RUN output in step with the execution status, and with HLT high
-- the core does not run after it, whatever the other pins ask.
pub process_input_pins-RunMatches :
    (s : Machine)
    → RunMatches s
    → RunMatches (process_input_pins s)
      × ((s.pin_hlt.now && is_running (process_input_pins s).exec_status) ≡ false)
unfolding process_input_pins commit_pins commit_output_sample sample_irqs
process_input_pins-RunMatches s h =
    let r = sample_rst-RunMatches s h in
    let i = sample_irqs (sample_hlt (sample_rst s)) in
    let m : RunMatches (sample_nmi i) =
      sample_nmi-RunMatches i (sample_hlt-RunMatches (sample_rst s) r) in
    (
      m,
      only_if s.pin_hlt.now (is_running (sample_nmi i).exec_status) λ e.
          ap (λ (x : ExecStatus). is_running x) (sample_nmi-status i)
          ∙ sample_hlt-stops (sample_rst s) (sample_rst-hlt s ∙ e) r,
    )
