-- ===== src/Handshake/Transfers.antt =====
-- A frame goes through the units of handshake_ioboard.ts and comes out whole.
use retro_cpu_emu.Shared.{
  ℕ, ◌%◌, ◌^◌, ◌≡◌, ◌≢◌, ◌<◌, refl, sym, ◌∙◌, ap, List, [], ◌∷◌, ◌++◌, length, some, none, Bool,
  true, false, ◌==◌, if◌then◌else◌, arith, ne→==_false,
}
use mathlib.Core.List.{append-nil}
use retro_cpu_emu.Handshake.Command.{Frame}
use retro_cpu_emu.Handshake.Wire.{
  Units, transfer_bytes_to_cpu, receive_bytes_from_cpu, receive, finalize_receive, adaptive_loop,
  adaptive, receive_framed_adaptive,
}

-- The bytes are of 8 bits.
abbrev pub Bytes : List ℕ → Type 0
Bytes [] = Unit {0}
Bytes (b ∷ bytes) = (b < 2 ^ 8) × Bytes bytes

-- The units in which the CPU sends a frame: two bytes at a time, a last odd one with a pad.
abbrev pub units_of : ℕ → List ℕ → Units
units_of pad [] = []
units_of pad (b ∷ []) = (b, pad) ∷ []
units_of pad (b ∷ c ∷ rest) = (b, c) ∷ units_of pad rest

append-snoc : (xs ys : List ℕ) (y : ℕ) → (xs ++ y ∷ []) ++ ys ≡ xs ++ (y ∷ ys)
append-snoc [] ys y = refl
append-snoc (x ∷ xs) ys y = ap (λ (t : List ℕ). x ∷ t) (append-snoc xs ys y)

-- The bytes so far ask for more until the frame is there.
abbrev pub Asks : (Frame → ℕ) → List ℕ → List ℕ → Type 0
Asks remaining soFar [] = remaining soFar ≡ 0
Asks remaining soFar (b ∷ rest) = (remaining soFar ≢ 0) × Asks remaining (soFar ++ b ∷ []) rest

is_zero : (a : ℕ) → a ≡ 0 → (a == 0) ≡ true
is_zero a e = ground arith

-- Whether the session is over: no unit is left, and REQ is down.
abbrev pub over : Units → Bool → Bool
over [] released = released
over (unit ∷ more) released = false

-- From a unit's second byte on, and from its first.
module _ (remaining : Frame → ℕ) (pad : ℕ) (more : Units) where
  adaptive_done :
      (units : Units) (pending bytes : List ℕ)
      → remaining bytes ≡ 0
      → adaptive_loop remaining units pending bytes ≡ (bytes, units)
  unfolding adaptive_loop
  adaptive_done units (p ∷ pending) bytes e = ground arith
  adaptive_done [] [] bytes e = refl
  adaptive_done (unit ∷ units) [] bytes e = ground arith

  adaptive_loop-units :
      (rest soFar : List ℕ)
      → Bytes rest
      → Asks remaining soFar rest
      → adaptive_loop remaining (units_of pad rest ++ more) [] soFar ≡ (soFar ++ rest, more)
  unfolding adaptive_loop
  adaptive_loop-units [] soFar h e =
      adaptive_done more [] soFar e ∙ ap (λ (t : List ℕ). (t, more)) (sym (append-nil soFar))
  adaptive_loop-units (b ∷ []) soFar h e =
      let eb : b % 2 ^ 8 ≡ b = omega arith in
      rw (eb, ne→==_false (remaining soFar) 0 e.0, is_zero (remaining (soFar ++ b ∷ [])) e.1) refl
  adaptive_loop-units (b ∷ c ∷ rest) soFar h e =
      let eb : b % 2 ^ 8 ≡ b = omega arith in
      let ec : c % 2 ^ 8 ≡ c = omega arith in
      rw
        (
          eb,
          ec,
          ne→==_false (remaining soFar) 0 e.0,
          ne→==_false (remaining (soFar ++ b ∷ [])) 0 e.1.0,
        )
        (adaptive_loop-units rest ((soFar ++ b ∷ []) ++ c ∷ []) h.1.1 e.1.1
          ∙ ap (λ (t : List ℕ). (t, more))
              (append-snoc (soFar ++ b ∷ []) rest c ∙ append-snoc soFar (c ∷ rest) b))

  adaptive-units :
      (b : ℕ) (rest : List ℕ)
      → Bytes (b ∷ rest)
      → Asks remaining (b ∷ []) rest
      → adaptive remaining (units_of pad (b ∷ rest) ++ more) ≡ some (b ∷ rest, more)
  unfolding adaptive adaptive_loop
  adaptive-units b [] h e =
      let eb : b % 2 ^ 8 ≡ b = omega arith in rw (eb, is_zero (remaining (b ∷ [])) e) refl
  adaptive-units b (c ∷ rest) h e =
      let eb : b % 2 ^ 8 ≡ b = omega arith in
      let ec : c % 2 ^ 8 ≡ c = omega arith in
      rw (eb, ec, ne→==_false (remaining (b ∷ [])) 0 e.0)
        (ap some (adaptive_loop-units rest (b ∷ c ∷ []) h.1.1 e.1))

  finalize_receive-over :
      (units : Units) (released : Bool) (bytes : List ℕ)
      → finalize_receive released units bytes ≡ (if over units released then some bytes else none)
  unfolding finalize_receive
  finalize_receive-over [] released bytes = refl
  finalize_receive-over (unit ∷ units) released bytes = refl

  -- The units of a frame, received to the frame, or to nothing where the session goes on.
  pub receive_framed_adaptive-units :
      (released : Bool) (b : ℕ) (rest : List ℕ)
      → Bytes (b ∷ rest)
      → Asks remaining (b ∷ []) rest
      → receive_framed_adaptive remaining
          (record { units = units_of pad (b ∷ rest) ++ more; released = released })
        ≡ (if over more released then some (b ∷ rest) else none)
  unfolding receive_framed_adaptive
  receive_framed_adaptive-units released b rest h e =
      rw (adaptive-units b rest h e) (finalize_receive-over more released (b ∷ rest))

  receive_bytes_from_cpu-units :
      (bytes : List ℕ)
      → Bytes bytes
      → receive_bytes_from_cpu (length bytes) (units_of pad bytes ++ more) ≡ some (bytes, more)
  unfolding receive_bytes_from_cpu
  receive_bytes_from_cpu-units [] h = refl
  receive_bytes_from_cpu-units (b ∷ []) h = ground arith
  receive_bytes_from_cpu-units (b ∷ c ∷ rest) h =
      ground (arith, receive_bytes_from_cpu-units rest h.1.1)

  -- The same for a frame whose length is known.
  receive-units :
      (released : Bool) (bytes : List ℕ)
      → Bytes bytes
      → receive (length bytes) (record { units = units_of pad bytes ++ more; released = released })
        ≡ (if over more released then some bytes else none)
  unfolding receive
  receive-units released bytes h =
      rw (receive_bytes_from_cpu-units bytes h) (finalize_receive-over more released bytes)

-- The other direction has the same units, with the pad 0.
transfer_bytes_to_cpu-units :
    (bytes : List ℕ) → Bytes bytes → transfer_bytes_to_cpu bytes ≡ units_of 0 bytes
unfolding transfer_bytes_to_cpu
transfer_bytes_to_cpu-units [] h = refl
transfer_bytes_to_cpu-units (b ∷ []) h = ground arith
transfer_bytes_to_cpu-units (b ∷ c ∷ rest) h =
    ground (arith, transfer_bytes_to_cpu-units rest h.1.1)
