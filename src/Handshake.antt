-- ===== src/Handshake.antt =====
-- The commands between the boards on the side of the IO board, and the debugger's requests:
-- retrocpu_emu_ts/src/ioboard/handshake, retrocpu_emu_ts/src/shared/handshake, and the files debug_*.ts
-- of retrocpu_emu_ts/src/ioboard.
pub mod Cmd
pub mod Command
pub mod Notify
pub mod Dispatcher
pub mod Wire
pub mod Layout
pub mod Replies
pub mod Transfers
pub mod Frames
pub mod Breaks
pub mod Debug
pub mod DebugHost
pub mod Requests
pub mod Queue
pub mod Relays
