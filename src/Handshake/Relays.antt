-- ===== src/Handshake/Relays.antt =====
-- What the requests of the debugger ask of the handlers of debug_host.ts.
use retro_cpu_emu.Shared.{
  ℕ, ◌^◌, ◌≡◌, ◌≤◌, ◌<◌, refl, ap, List, [], ◌∷◌, ◌++◌, Option, none, some, length, arith, ltb, leb,
  ◌&&◌, if◌then◌else◌, take, drop, Bool,
}
use retro_cpu_emu.Shared.State.{State, ◌>>=◌, return}
use retro_cpu_emu.Handshake.Command.{Frame}
use retro_cpu_emu.Handshake.Debug.{
  AddrBreakSetFields, debug_mem_max_bytes, is_addr_break_slot, encode_addr_break_set_frame,
  parse_addr_break_set_frame, addr_break_set_payload, encode_addr_break_clr_frame,
  parse_addr_break_clr_slot, encode_mem_read_frame, parse_mem_read_frame, encode_mem_write_frame,
  parse_mem_write_frame,
}
use retro_cpu_emu.Handshake.DebugHost.{
  DebugHostHandlers, refused, status_reply, data_reply, done_reply, relay_read, relay_write,
  dispatch,
}
use retro_cpu_emu.Handshake.Queue.{
  Request, set_break, clear_break, read_memory, write_memory, encode,
}
use retro_cpu_emu.Handshake.Requests.{
  Fits, addr_break_set-received, mem_read-received, mem_write-parsed,
}

append_nil : (xs : List ℕ) → xs ++ [] ≡ xs
append_nil [] = refl
append_nil (x ∷ xs) = ap (λ (l : List ℕ). x ∷ l) (append_nil xs)

no_set :
    (addr : ℕ) (content : List ℕ)
    → parse_addr_break_set_frame (encode_mem_write_frame addr content) ≡ none
unfolding parse_addr_break_set_frame encode_mem_write_frame
no_set addr content = ground arith

no_clr :
    (addr : ℕ) (content : List ℕ)
    → parse_addr_break_clr_slot (encode_mem_write_frame addr content) ≡ none
unfolding parse_addr_break_clr_slot encode_mem_write_frame
no_clr addr content = ground arith

no_read :
    (addr : ℕ) (content : List ℕ)
    → parse_mem_read_frame (encode_mem_write_frame addr content) ≡ none
unfolding parse_mem_read_frame encode_mem_write_frame
no_read addr content = ground arith

parsed_lem :
    (addr : ℕ) (content : List ℕ)
    → addr < 2 ^ 32
    → length content ≤ debug_mem_max_bytes
    → parse_mem_write_frame (encode_mem_write_frame addr content)
      ≡ some (record { byte_addr = addr; content = content })
unfolding encode_mem_write_frame
parsed_lem addr content h k = rw (append_nil content) at (mem_write-parsed addr content [] h k)

set_parsed :
    (f : AddrBreakSetFields)
    → Fits f
    → parse_addr_break_set_frame (encode_addr_break_set_frame f) ≡ some f
unfolding encode_addr_break_set_frame
set_parsed f h = (addr_break_set-received f [] h).1

payload_lem :
    (f : AddrBreakSetFields)
    → take 9 (drop 1 (encode_addr_break_set_frame f)) ≡ drop 1 (encode_addr_break_set_frame f)
unfolding encode_addr_break_set_frame
payload_lem f = refl

set_payload :
    (f : AddrBreakSetFields)
    → Fits f
    → addr_break_set_payload (encode_addr_break_set_frame f)
      ≡ some (drop 1 (encode_addr_break_set_frame f))
unfolding addr_break_set_payload
set_payload f h = rw (set_parsed f h) (ap some (payload_lem f))

clr_no_set : (slot : ℕ) → parse_addr_break_set_frame (encode_addr_break_clr_frame slot) ≡ none
unfolding parse_addr_break_set_frame encode_addr_break_clr_frame
clr_no_set slot = ground arith

clr_parsed :
    (slot : ℕ)
    → slot < 2 ^ 8
    → parse_addr_break_clr_slot (encode_addr_break_clr_frame slot) ≡ some slot
unfolding parse_addr_break_clr_slot encode_addr_break_clr_frame
clr_parsed slot h = ap some (omega arith)

read_no_set :
    (addr count : ℕ) → parse_addr_break_set_frame (encode_mem_read_frame addr count) ≡ none
unfolding parse_addr_break_set_frame encode_mem_read_frame
read_no_set addr count = ground arith

read_no_clr : (addr count : ℕ) → parse_addr_break_clr_slot (encode_mem_read_frame addr count) ≡ none
unfolding parse_addr_break_clr_slot encode_mem_read_frame
read_no_clr addr count = ground arith

read_parsed :
    (addr count : ℕ)
    → addr < 2 ^ 32
    → count < 2 ^ 32
    → parse_mem_read_frame (encode_mem_read_frame addr count)
      ≡ some (record { byte_addr = addr; byte_count = count })
unfolding encode_mem_read_frame
read_parsed addr count h k = (mem_read-received addr count [] h k).1

-- Requests whose numbers fit their frames.
abbrev pub FitsFrame : Request → Type 0
FitsFrame (set_break f) = Fits f
FitsFrame (clear_break slot) = slot < 2 ^ 8
FitsFrame (read_memory addr count) = (addr < 2 ^ 32) × (count < 2 ^ 32)
FitsFrame (write_memory addr content) = (addr < 2 ^ 32) × (length content ≤ debug_mem_max_bytes)

module _ {H : Type 0} where
  abbrev pub asked_read : Option (ℕ → ℕ → State H (Option (List ℕ))) → ℕ → ℕ → State H Frame
  asked_read none addr count = return refused
  asked_read (some read) addr count =
      if leb 1 count && leb count debug_mem_max_bytes
      then (read addr count >>= λ r. return (data_reply r))
      else return refused

  abbrev pub asked_write : Option (ℕ → List ℕ → State H Bool) → ℕ → List ℕ → State H Frame
  asked_write none addr content = return refused
  asked_write (some write) addr content =
      if leb 1 (length content)
      then (write addr content >>= λ r. return (done_reply r))
      else return refused

  asked_read_lem :
      (m : Option (ℕ → ℕ → State H (Option (List ℕ)))) (addr count : ℕ)
      → relay_read m (record { byte_addr = addr; byte_count = count }) ≡ asked_read m addr count
  asked_read_lem none addr count = refl
  asked_read_lem (some read) addr count = ground arith

  asked_write_lem :
      (m : Option (ℕ → List ℕ → State H Bool)) (addr : ℕ) (content : List ℕ)
      → length content ≤ debug_mem_max_bytes
      → relay_write m (record { byte_addr = addr; content = content }) ≡ asked_write m addr content
  asked_write_lem none addr content h = refl
  asked_write_lem (some write) addr content h = ground arith

module _ {H : Type 0} (handlers : DebugHostHandlers H) where
  -- What a request asks of the handlers. The handler of a break gets its frame without the command.
  abbrev pub asked : Request → State H Frame
  asked (set_break f) =
      if ltb f.slot 4
      then (handlers.addr_break_set (drop 1 (encode_addr_break_set_frame f)) >>= λ r.
          return (status_reply r))
      else return refused
  asked (clear_break slot) =
      if ltb slot 4
      then (handlers.addr_break_clr slot >>= λ r. return (status_reply r))
      else return refused
  asked (read_memory addr count) = asked_read handlers.mem_read addr count
  asked (write_memory addr content) = asked_write handlers.mem_write addr content

  -- A request whose numbers fit its frame is dispatched to its own handler, with the numbers and the
  -- bytes it was encoded from, and answered with what that handler returns; a slot above 3, a read or
  -- a write of no bytes, a read of more than 65536, and a missing handler are answered NG without a
  -- call.
  pub dispatch-asked : (r : Request) → FitsFrame r → dispatch handlers (encode r) ≡ asked r
  unfolding dispatch is_addr_break_slot
  dispatch-asked (set_break f) h = rw (set_parsed f h, set_payload f h) (ground arith)
  dispatch-asked (clear_break slot) h = rw (clr_no_set slot, clr_parsed slot h) (ground arith)
  dispatch-asked (read_memory addr count) h =
      rw (read_no_set addr count, read_no_clr addr count, read_parsed addr count h.0 h.1)
        (asked_read_lem handlers.mem_read addr count)
  dispatch-asked (write_memory addr content) h =
      rw
        (
          no_set addr content,
          no_clr addr content,
          no_read addr content,
          parsed_lem addr content h.0 h.1,
        )
        (asked_write_lem handlers.mem_write addr content h.1)
