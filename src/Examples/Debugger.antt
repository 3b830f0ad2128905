-- ===== src/Examples/Debugger.antt =====
-- The requests of the debugger at concrete inputs.
use retro_cpu_emu.Shared.{ℕ, ◌+◌, ◌≡◌, arith, true, List, [], ◌∷◌, some}
use retro_cpu_emu.Handshake.DebugHost.{DebugHostHandlers, dispatch, on_data}
use retro_cpu_emu.Handshake.Queue.{
  Request, read_memory, write_memory, clear_break, encode, encode_all, waiting, answered_times,
  handle_all, Finished, on_data-handled,
}
use retro_cpu_emu.Handshake.Relays.{asked, dispatch-asked}

-- Handlers that count their calls.
abbrev calls : DebugHostHandlers ℕ
calls = record {
  addr_break_set = λ payload n. (some 0, n + 1);
  addr_break_clr = λ slot n. (some 0, n + 1);
  mem_read = some (λ addr count n. (some (7 ∷ 8 ∷ []), n + 1));
  mem_write = some (λ addr content n. (true, n + 1));
}

abbrev some_requests : List Request
some_requests = read_memory 0x200 2 ∷ write_memory 0x300 (0x83 ∷ 2 ∷ 3 ∷ []) ∷ clear_break 5 ∷ []

on_data-handled_example :
    Finished
      (answered_times calls 3 (on_data (encode_all some_requests) (waiting [] 0 [] [])))
      (handle_all calls some_requests 0 [])
on_data-handled_example = on_data-handled calls some_requests 0 [] [] (tt, (omega arith, (tt, tt)))

dispatch-asked_example :
    dispatch calls (encode (write_memory 0x300 (1 ∷ 2 ∷ [])))
    ≡ asked calls (write_memory 0x300 (1 ∷ 2 ∷ []))
dispatch-asked_example =
    dispatch-asked calls (write_memory 0x300 (1 ∷ 2 ∷ [])) (omega arith, omega arith)
