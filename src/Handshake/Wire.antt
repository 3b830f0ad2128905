-- ===== src/Handshake/Wire.antt =====
-- The transfers of IoControlHandshake, handshake_ioboard.ts, by units: the wire carries two bytes at
-- each turn of DENA and DACK. What the CPU does in a session, from its raising REQ on, is the list of
-- its units and whether it lowers REQ after the last one. REQ stays up while a unit waits to be
-- taken. A wait for what does not come times out and throws, which is `none`.
use retro_cpu_emu.Shared.{
  ℕ, zero, suc, ◌-◌, ◌%◌, ◌^◌, Bool, List, [], ◌∷◌, ◌++◌, Option, none, some, ◌==◌, if◌then◌else◌,
}
use retro_cpu_emu.Handshake.Command.{Frame}

abbrev pub Units : Type 0
Units = List (ℕ × ℕ)

pub record Session : Type 0 where
  pub units : Units
  pub released : Bool

-- `receiveUnitFromCpu` takes the low 8 bits of what DATA carries.
abbrev first_byte : ℕ × ℕ → ℕ
first_byte (b₀, b₁) = b₀ % 2 ^ 8

abbrev second_byte : ℕ × ℕ → ℕ
second_byte (b₀, b₁) = b₁ % 2 ^ 8

-- `finalizeReceive`, with the units that were not taken, and then the result.
unfoldable pub finalize_receive : Bool → Units → List ℕ → Option (List ℕ)
finalize_receive released [] bytes = if released then some bytes else none
finalize_receive released (unit ∷ units) bytes = none

-- `transferBytesToCpu`: a last odd byte goes with 0.
unfoldable pub transfer_bytes_to_cpu : List ℕ → Units
transfer_bytes_to_cpu [] = []
transfer_bytes_to_cpu (b ∷ []) = (b % 2 ^ 8, 0) ∷ []
transfer_bytes_to_cpu (b ∷ c ∷ rest) = (b % 2 ^ 8, c % 2 ^ 8) ∷ transfer_bytes_to_cpu rest

abbrev prepend : List ℕ → Option (List ℕ × Units) → Option (List ℕ × Units)
prepend bytes none = none
prepend bytes (some (rest, units)) = some (bytes ++ rest, units)

-- `receiveBytesFromCpu`, to the bytes and the units left.
unfoldable pub receive_bytes_from_cpu : ℕ → Units → Option (List ℕ × Units)
receive_bytes_from_cpu zero units = some ([], units)
receive_bytes_from_cpu (suc n) [] = none
receive_bytes_from_cpu (suc zero) (unit ∷ units) = some (first_byte unit ∷ [], units)
receive_bytes_from_cpu (suc (suc n)) (unit ∷ units) =
    prepend (first_byte unit ∷ second_byte unit ∷ []) (receive_bytes_from_cpu n units)

-- What was received, after the wait for the end of the session.
abbrev finalized : Bool → Option (List ℕ × Units) → Option (List ℕ)
finalized released none = none
finalized released (some (bytes, units)) = finalize_receive released units bytes

-- `receive`.
unfoldable pub receive : ℕ → Session → Option (List ℕ)
unfolding receive_bytes_from_cpu finalize_receive
receive n session = finalized session.released (receive_bytes_from_cpu n session.units)

-- The unit of the command and what remains of its frame.
unfoldable pub framed : (ℕ → ℕ) → Units → Option (Frame × Units)
unfolding receive_bytes_from_cpu
framed remaining_after_first [] = none
framed remaining_after_first (unit ∷ units) =
    let rem = remaining_after_first (first_byte unit) in
    if rem == 0
    then some (first_byte unit ∷ [], units)
    else prepend (first_byte unit ∷ second_byte unit ∷ []) (receive_bytes_from_cpu (rem - 1) units)

-- `receiveFramed`.
unfoldable pub receive_framed : (ℕ → ℕ) → Session → Option Frame
unfolding framed finalize_receive
receive_framed remaining_after_first session =
    finalized session.released (framed remaining_after_first session.units)

-- The loop of `receiveFramedAdaptive`: a unit that does not come ends it.
unfoldable pub adaptive_loop : (Frame → ℕ) → Units → List ℕ → List ℕ → Frame × Units
adaptive_loop remaining units (p ∷ pending) bytes =
    let rest = adaptive_loop remaining units pending (bytes ++ p ∷ []) in
    if remaining bytes == 0 then (bytes, units) else rest
adaptive_loop remaining [] [] bytes = (bytes, [])
adaptive_loop remaining (unit ∷ units) [] bytes =
    let rest =
      adaptive_loop remaining units (second_byte unit ∷ []) (bytes ++ first_byte unit ∷ []) in
    if remaining bytes == 0 then (bytes, unit ∷ units) else rest

-- The first unit, and the loop.
unfoldable pub adaptive : (Frame → ℕ) → Units → Option (Frame × Units)
adaptive remaining [] = none
adaptive remaining (unit ∷ units) =
    some (adaptive_loop remaining units (second_byte unit ∷ []) (first_byte unit ∷ []))

unfoldable pub receive_framed_adaptive : (Frame → ℕ) → Session → Option Frame
unfolding adaptive finalize_receive
receive_framed_adaptive remaining session =
    finalized session.released (adaptive remaining session.units)
