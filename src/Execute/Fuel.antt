-- ===== src/Execute/Fuel.antt =====
-- The fuel of `execute_instruction`, which X spends.
use retro_cpu_emu.Shared.{
  ℕ, zero, suc, ◌≤◌, ◌≡◌, refl, sym, ◌∙◌, ap, arith, Bool, true, false, Option, none, some,
}
use retro_cpu_emu.Context.{Context}
use retro_cpu_emu.Execute.Decode.{is_x, put_back, fetch_inner, execute_other, execute_instruction}

-- The nested instruction of X.
abbrev nested : ℕ → ℕ → Context → Option Context
nested fuel ir c = let (inner, c') = fetch_inner ir c in execute_instruction fuel inner c'

-- What a word does, by whether it is X.
abbrev one_step : Bool → ℕ → ℕ → Context → Option Context
one_step false fuel ir c = some (execute_other ir c).1
one_step true fuel ir c = put_back c.pc (nested fuel ir c)

execute_instruction-suc :
    (b : Bool) (fuel ir : ℕ) (c : Context)
    → is_x ir ≡ b
    → execute_instruction (suc fuel) ir c ≡ one_step b fuel ir c
unfolding execute_instruction
execute_instruction-suc false fuel ir c h = rw (execute_instruction, h) refl
execute_instruction-suc true fuel ir c h = rw (execute_instruction, h) refl

put_back-some :
    (pc : ℕ) (o o' : Option Context) (r : Context)
    → ((c : Context) → o ≡ some c → o' ≡ some c)
    → put_back pc o ≡ some r
    → put_back pc o' ≡ some r
put_back-some pc none o' r more h = cc
put_back-some pc (some c) o' r more h = ap (λ (x : Option Context). put_back pc x) (more c refl) ∙ h

more_step :
    (b : Bool) (n m ir : ℕ) (c r : Context)
    → ((inner : ℕ) (c' r' : Context)
        → execute_instruction n inner c' ≡ some r'
        → execute_instruction m inner c' ≡ some r')
    → one_step b n ir c ≡ some r
    → one_step b m ir c ≡ some r
more_step false n m ir c r more h = h
more_step true n m ir c r more h =
    let (inner, c') = fetch_inner ir c in
    put_back-some c.pc (nested n ir c) (nested m ir c) r (λ r'. more inner c' r') h

-- A result that some fuel gives is the result that any more fuel gives.
execute_instruction-more :
    (n m ir : ℕ) (c r : Context)
    → n ≤ m
    → execute_instruction n ir c ≡ some r
    → execute_instruction m ir c ≡ some r
unfolding execute_instruction
execute_instruction-more zero m ir c r le h = cc
execute_instruction-more (suc n) zero ir c r le h = absurd (omega arith)
execute_instruction-more (suc n) (suc m) ir c r le h =
    let e = execute_instruction-suc (is_x ir) n ir c refl in
    let f = execute_instruction-suc (is_x ir) m ir c refl in
    f
    ∙ more_step (is_x ir) n m ir c r
        (λ inner c' r'. execute_instruction-more n m inner c' r' (omega arith)) (sym e ∙ h)
