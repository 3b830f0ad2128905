-- ===== src/Handshake/Notify.antt =====
-- The notices of a step and of an undefined instruction: command_cpu_to_io.ts,
-- `_decodeCpuStateNotifyInfo` and its two layouts.
use retro_cpu_emu.Shared.{ℕ, zero, suc, ◌+◌, ◌-◌, ◌*◌, ◌^◌, List, [], ◌∷◌, ltb, ◌==◌, if◌then◌else◌}
use retro_cpu_emu.Shared.Int.{ℤ, pos, negsuc}
use retro_cpu_emu.Handshake.Command.{Frame, byte_at, read16, tms9995}

pub record CpuStateNotifyInfo : Type 0 where
  pub addr : ℤ
  pub r0 : ℕ
  pub r1 : ℕ
  pub r2 : ℕ
  pub r3 : ℕ
  pub r4 : ℕ
  pub r5to15 : List ℕ
  pub sp : ℕ
  pub str : ℕ
  pub ic : ℕ
  pub csbr_ssbr : ℕ
  pub tsr : ℕ
  pub npp : ℕ
  pub stack : List ℕ

-- Four bytes joined by `<< 24`, `<< 16`, `<< 8` and `|`, which JavaScript takes for a signed number
-- of 32 bits.
unfoldable pub read_addr : Frame → ℕ → ℤ
read_addr frame ofs =
    let v =
      byte_at frame ofs * 2 ^ 24
      + byte_at frame (ofs + 1) * 2 ^ 16
      + byte_at frame (ofs + 2) * 2 ^ 8
      + byte_at frame (ofs + 3) in
    if ltb v (2 ^ 31) then pos v else negsuc (2 ^ 32 - v - 1)

-- `n` words from an offset on.
unfoldable pub read_words : Frame → ℕ → ℕ → List ℕ
unfolding read16
read_words frame ofs zero = []
read_words frame ofs (suc n) = read16 frame ofs ∷ read_words frame (ofs + 2) n

unfoldable pub decode_mn1613_cpu_state_notify_info : Frame → CpuStateNotifyInfo
decode_mn1613_cpu_state_notify_info frame = record {
  addr = read_addr frame 0x02;
  r0 = read16 frame 0x06;
  r1 = read16 frame 0x08;
  r2 = read16 frame 0x0a;
  r3 = read16 frame 0x0c;
  r4 = read16 frame 0x0e;
  r5to15 = [];
  sp = read16 frame 0x10;
  str = read16 frame 0x12;
  ic = read16 frame 0x14;
  csbr_ssbr = read16 frame 0x16;
  tsr = read16 frame 0x18;
  npp = byte_at frame 0x1a;
  stack = read_words frame 0x1c 16;
}

-- The register of the number n stands at 06 + 2n.
unfoldable pub decode_tms_cpu_state_notify_info : Frame → CpuStateNotifyInfo
decode_tms_cpu_state_notify_info frame = record {
  addr = read_addr frame 0x02;
  r0 = read16 frame 0x06;
  r1 = read16 frame 0x08;
  r2 = read16 frame 0x0a;
  r3 = read16 frame 0x0c;
  r4 = read16 frame 0x0e;
  r5to15 = read_words frame 0x10 11;
  sp = read16 frame 0x1a;
  str = 0;
  ic = 0;
  csbr_ssbr = 0;
  tsr = 0;
  npp = 0;
  stack = read_words frame 0x26 16;
}

unfoldable pub decode_cpu_state_notify_info : ℕ → Frame → CpuStateNotifyInfo
unfolding decode_mn1613_cpu_state_notify_info decode_tms_cpu_state_notify_info
decode_cpu_state_notify_info cpu_type frame =
    if cpu_type == tms9995
    then decode_tms_cpu_state_notify_info frame
    else decode_mn1613_cpu_state_notify_info frame
