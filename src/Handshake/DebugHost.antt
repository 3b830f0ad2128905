-- ===== src/Handshake/DebugHost.antt =====
-- The server for the debugger: retrocpu_emu_ts/src/ioboard/debug_host.ts, class DebugHost, without its
-- sockets. A handler that rejects returns `none`, and one that is not given is `none`.
use retro_cpu_emu.Shared.{
  ℕ, ◌/◌, ◌%◌, ◌^◌, Bool, true, false, not, ◌||◌, List, [], ◌∷◌, ◌++◌, Option, none, some, length,
  take, drop, ltb, if◌then◌else◌,
}
use retro_cpu_emu.Shared.State.{State, ◌>>=◌, return}
use retro_cpu_emu.Handshake.Command.{Frame, ng}
use retro_cpu_emu.Handshake.Debug.{
  AddrBreakSetFields, MemReadReq, MemWriteReq, debug_mem_max_bytes, is_addr_break_slot,
  parse_addr_break_set_frame, addr_break_set_payload, parse_addr_break_clr_slot,
  parse_mem_read_frame, parse_mem_write_frame, debug_pc_needed_bytes,
}

pub record DebugHostHandlers (H : Type 0) : Type 0 where
  pub addr_break_set : Frame → State H (Option ℕ)
  pub addr_break_clr : ℕ → State H (Option ℕ)
  pub mem_read : Option (ℕ → ℕ → State H (Option (List ℕ)))
  pub mem_write : Option (ℕ → List ℕ → State H Bool)

abbrev pub refused : Frame
refused = ng ∷ []

-- What is sent for a status, and NG for an exception.
abbrev pub status_reply : Option ℕ → Frame
status_reply none = refused
status_reply (some status) = status % 2 ^ 8 ∷ []

abbrev pub data_reply : Option (List ℕ) → Frame
data_reply none = refused
data_reply (some content) =
    let m = length content % 2 ^ 32 in
    0 ∷ m / 2 ^ 24 % 2 ^ 8 ∷ m / 2 ^ 16 % 2 ^ 8 ∷ m / 2 ^ 8 % 2 ^ 8 ∷ m % 2 ^ 8 ∷ content

abbrev pub done_reply : Bool → Frame
done_reply done = if done then 0 ∷ [] else refused

module _ {H : Type 0} where
  abbrev pub relay_read : Option (ℕ → ℕ → State H (Option (List ℕ))) → MemReadReq → State H Frame
  relay_read none rd = return refused
  relay_read (some read) rd =
      if ltb rd.byte_count 1 || ltb debug_mem_max_bytes rd.byte_count
      then return refused
      else (read rd.byte_addr rd.byte_count >>= λ r. return (data_reply r))

  abbrev pub relay_write : Option (ℕ → List ℕ → State H Bool) → MemWriteReq → State H Frame
  relay_write none wr = return refused
  relay_write (some write) wr =
      if ltb (length wr.content) 1 || ltb debug_mem_max_bytes (length wr.content)
      then return refused
      else (write wr.byte_addr wr.content >>= λ r. return (done_reply r))

module _ {H : Type 0} (handlers : DebugHostHandlers H) where
  abbrev relay_set : Option Frame → State H Frame
  relay_set none = return refused
  relay_set (some payload) = handlers.addr_break_set payload >>= λ r. return (status_reply r)

  -- The frame as each parser reads it, in their order.
  abbrev dispatch_write : Option MemWriteReq → State H Frame
  dispatch_write none = return refused
  dispatch_write (some wr) = relay_write handlers.mem_write wr

  abbrev dispatch_read : Frame → Option MemReadReq → State H Frame
  dispatch_read frame none = dispatch_write (parse_mem_write_frame frame)
  dispatch_read frame (some rd) = relay_read handlers.mem_read rd

  abbrev dispatch_clr : Frame → Option ℕ → State H Frame
  dispatch_clr frame none = dispatch_read frame (parse_mem_read_frame frame)
  dispatch_clr frame (some slot) =
      if not (is_addr_break_slot slot)
      then return refused
      else (handlers.addr_break_clr slot >>= λ r. return (status_reply r))

  abbrev dispatch_set : Frame → Option AddrBreakSetFields → State H Frame
  dispatch_set frame none = dispatch_clr frame (parse_addr_break_clr_slot frame)
  dispatch_set frame (some fields) =
      if not (is_addr_break_slot fields.slot)
      then return refused
      else relay_set (addr_break_set_payload frame)

  unfoldable pub dispatch : Frame → State H Frame
  dispatch frame = dispatch_set frame (parse_addr_break_set_frame frame)

-- One connection: the bytes that wait, whether a frame is being handled and which one, the state of
-- the handlers, and the replies that were sent, the newest first.
pub record Connection (H : Type 0) : Type 0 where
  pub buf : List ℕ
  pub busy : Bool
  pub current : Frame
  pub host : H
  pub replies : List Frame

-- A frame of `need` bytes is taken once they are there.
abbrev pub taken : {H : Type 0} → Option ℕ → Connection H → Connection H
taken none c = c
taken (some need) c =
    if ltb (length c.buf) need
    then c
    else record c { buf = drop need c.buf; busy = true; current = take need c.buf }

unfoldable pub pump : {H : Type 0} → Connection H → Connection H
pump c =
    if c.busy then c else if ltb (length c.buf) 1 then c else taken (debug_pc_needed_bytes c.buf) c

-- `sock.on("data", …)`
unfoldable pub on_data : {H : Type 0} → List ℕ → Connection H → Connection H
on_data chunk c = pump (record c { buf = c.buf ++ chunk })

-- The frame that is being handled is answered, and the next one taken.
unfoldable pub answered : {H : Type 0} → DebugHostHandlers H → Connection H → Connection H
answered handlers c =
    let (reply, host') = dispatch handlers c.current c.host in
    pump (record c { busy = false; host = host'; replies = reply ∷ c.replies })
