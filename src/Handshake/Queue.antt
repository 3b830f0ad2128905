-- ===== src/Handshake/Queue.antt =====
-- The requests that wait in the buffer of debug_host.ts.
use retro_cpu_emu.Shared.{
  ℕ, zero, suc, ◌+◌, ◌≡◌, ◌≤◌, refl, sym, subst, true, false, List, [], ◌∷◌, ◌++◌, some, length,
  drop, arith,
}
use retro_cpu_emu.Handshake.Command.{Frame}
use retro_cpu_emu.Handshake.Debug.{
  AddrBreakSetFields, debug_mem_max_bytes, encode_addr_break_set_frame, encode_addr_break_clr_frame,
  encode_mem_read_frame, encode_mem_write_frame, debug_pc_frame_length, debug_pc_needed_bytes,
}
use retro_cpu_emu.Handshake.Requests.{take-append, mem_write-needed}
use retro_cpu_emu.Handshake.DebugHost.{
  DebugHostHandlers, Connection, dispatch, pump, on_data, answered,
}

-- What the debugger asks for.
pub data Request : Type 0 where
  set_break : AddrBreakSetFields → Request
  clear_break : ℕ → Request
  read_memory : ℕ → ℕ → Request
  write_memory : ℕ → List ℕ → Request

abbrev pub encode : Request → Frame
encode (set_break f) = encode_addr_break_set_frame f
encode (clear_break slot) = encode_addr_break_clr_frame slot
encode (read_memory addr count) = encode_mem_read_frame addr count
encode (write_memory addr content) = encode_mem_write_frame addr content

-- A write has at most 65536 bytes.
abbrev pub IsValid : Request → Type 0
IsValid (set_break f) = Unit {0}
IsValid (clear_break slot) = Unit {0}
IsValid (read_memory addr count) = Unit {0}
IsValid (write_memory addr content) = length content ≤ debug_mem_max_bytes

abbrev pub AllValid : List Request → Type 0
AllValid [] = Unit {0}
AllValid (r ∷ rs) = IsValid r × AllValid rs

abbrev pub encode_all : List Request → List ℕ
encode_all [] = []
encode_all (r ∷ rs) = encode r ++ encode_all rs

drop-append : (xs ys : List ℕ) → drop (length xs) (xs ++ ys) ≡ ys
drop-append [] ys = refl
drop-append (x ∷ xs) ys = drop-append xs ys

length-append : (xs ys : List ℕ) → length (xs ++ ys) ≡ length xs + length ys
length-append [] ys = omega arith
length-append (x ∷ xs) ys = omega (arith, length-append xs ys)

pub needed-encode :
    (r : Request) (rest : List ℕ)
    → IsValid r
    → debug_pc_needed_bytes (encode r ++ rest) ≡ some (length (encode r))
unfolding debug_pc_needed_bytes debug_pc_frame_length encode_addr_break_set_frame
    encode_addr_break_clr_frame encode_mem_read_frame
needed-encode (set_break f) rest v = ground arith
needed-encode (clear_break slot) rest v = ground arith
needed-encode (read_memory addr count) rest v = ground arith
needed-encode (write_memory addr content) rest v = mem_write-needed addr content rest v

some_byte : (r : Request) → 1 ≤ length (encode r)
unfolding encode_addr_break_set_frame encode_addr_break_clr_frame encode_mem_read_frame
    encode_mem_write_frame
some_byte (set_break f) = omega arith
some_byte (clear_break slot) = omega arith
some_byte (read_memory addr count) = omega arith
some_byte (write_memory addr content) = omega arith

module _ {H : Type 0} where
  -- The connection with nothing in hand.
  abbrev pub waiting : List ℕ → H → List Frame → Frame → Connection H
  waiting buf host replies current = record {
    buf = buf;
    busy = false;
    current = current;
    host = host;
    replies = replies;
  }

  abbrev pub handling : List ℕ → H → List Frame → Frame → Connection H
  handling buf host replies current = record {
    buf = buf;
    busy = true;
    current = current;
    host = host;
    replies = replies;
  }

  pump-encode :
      (r : Request) (rest : List ℕ) (host : H) (replies : List Frame) (current : Frame)
      → IsValid r
      → pump (waiting (encode r ++ rest) host replies current)
        ≡ handling rest host replies (encode r)
  unfolding pump
  pump-encode r rest host replies current v =
      let one = some_byte r in
      let sum = length-append (encode r) rest in
      rw (needed-encode r rest v, take-append (encode r) rest, drop-append (encode r) rest, sum)
        (ground arith)

  -- Requests are handled one after the other, each by `dispatch`, and their replies put in front.
  abbrev pub handle_all : DebugHostHandlers H → List Request → H → List Frame → H × List Frame
  handle_all handlers [] host replies = (host, replies)
  handle_all handlers (r ∷ rs) host replies =
      let answer = dispatch handlers (encode r) host in
      handle_all handlers rs answer.1 (answer.0 ∷ replies)

  -- The connection after its frame was answered `n` times.
  abbrev pub answered_times : DebugHostHandlers H → ℕ → Connection H → Connection H
  answered_times handlers zero c = c
  answered_times handlers (suc n) c = answered_times handlers n (answered handlers c)

  abbrev pub Finished : Connection H → H × List Frame → Type 0
  Finished c outcome =
      (c.buf ≡ []) × (c.busy ≡ false) × (c.host ≡ outcome.0) × (c.replies ≡ outcome.1)

  answered_lem :
      (handlers : DebugHostHandlers H) (rs : List Request) (r : Request) (host : H)
      (replies : List Frame)
      → AllValid rs
      → Finished
          (answered_times handlers
            (suc (length rs))
            (handling (encode_all rs) host replies (encode r)))
          (handle_all handlers (r ∷ rs) host replies)
  unfolding answered pump
  answered_lem handlers [] r host replies v = (refl, refl, refl, refl)
  answered_lem handlers (r' ∷ rs) r host replies v =
      let answer = dispatch handlers (encode r) host in
      let step : answered handlers (handling (encode r' ++ encode_all rs) host replies (encode r))
          ≡ handling (encode_all rs) answer.1 (answer.0 ∷ replies) (encode r') =
        pump-encode r' (encode_all rs) answer.1 (answer.0 ∷ replies) (encode r) v.0 in
      subst
        (λ (c : Connection H).
          Finished (answered_times handlers (suc (length rs)) c)
            (handle_all handlers (r' ∷ rs) answer.1 (answer.0 ∷ replies)))
        (sym step) (answered_lem handlers rs r' answer.1 (answer.0 ∷ replies) v.1)

  -- Requests that arrive together at a connection with nothing in its buffer and no frame in hand,
  -- the writes among them of at most 65536 bytes, are handled one at a time and in their order: once
  -- as many frames as requests were answered, the buffer is empty, and the handlers' state and the
  -- replies, one for each request, are those of dispatching the frames one after the other.
  pub on_data-handled :
      (handlers : DebugHostHandlers H) (rs : List Request) (host : H) (replies : List Frame)
      (current : Frame)
      → AllValid rs
      → Finished
          (answered_times handlers
            (length rs)
            (on_data (encode_all rs) (waiting [] host replies current)))
          (handle_all handlers rs host replies)
  unfolding on_data pump
  on_data-handled handlers [] host replies current v = (refl, refl, refl, refl)
  on_data-handled handlers (r ∷ rs) host replies current v =
      subst
        (λ (c : Connection H).
          Finished (answered_times handlers (suc (length rs)) c)
            (handle_all handlers (r ∷ rs) host replies))
        (sym (pump-encode r (encode_all rs) host replies current v.0))
        (answered_lem handlers rs r host replies v.1)
