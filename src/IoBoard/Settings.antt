-- ===== src/IoBoard/Settings.antt =====
-- The setting area of the IO board: retrocpu_emu_ts/src/ioboard/setting_area/setting_area.ts. The
-- storage is the bytes that it holds, `none` where nothing was saved.
use retro_cpu_emu.Shared.{
  ℕ, zero, suc, ◌+◌, ◌-◌, ◌*◌, ◌/◌, ◌%◌, ◌^◌, Bool, true, false, ◌&&◌, ◌||◌, List, [], ◌∷◌, Option,
  none, some, length, set, get_elem?, ◌==◌, if◌then◌else◌,
}
use retro_cpu_emu.Shared.State.{State}
use retro_cpu_emu.Handshake.Command.{or_zero}

abbrev pub setting_area_size : ℕ
setting_area_size = 256

abbrev pub setting_mark : ℕ
setting_mark = 0xaa55

abbrev pub default_emulate_port : ℕ
default_emulate_port = 0x7148

pub record IoBoardSettings : Type 0 where
  pub clock_div : ℕ
  pub cpu_type : ℕ
  pub cpu_type_reset : ℕ
  pub addr_step : ℕ
  pub reset_vector : ℕ
  pub seven_seg_addr_digits : ℕ
  pub seven_seg_data_digits : ℕ
  pub emulate_port : ℕ
  pub step_delay : ℕ

abbrev pub Raw : Type 0
Raw = List ℕ

pub data Reason : Type 0 where
  already_valid : Reason
  invalid_or_missing_mark : Reason
  cpu_type_was_reset : Reason

pub record InitializeResult : Type 0 where
  pub raw : Raw
  pub settings : IoBoardSettings
  pub initialized : Bool
  pub reason : Reason

unfoldable pub normalize_addr_step : ℕ → ℕ
normalize_addr_step value = if value % 2 ^ 8 == 2 then 2 else 1

unfoldable pub align_addr_to_step : ℕ → ℕ → ℕ
unfolding normalize_addr_step
align_addr_to_step addr step =
    let a = addr % 2 ^ 32 in if normalize_addr_step step == 2 && a % 2 == 1 then a - 1 else a

unfoldable pub default_settings_for_cpu : ℕ → IoBoardSettings
default_settings_for_cpu cpu_type =
    let short : IoBoardSettings = record {
      clock_div = 0;
      cpu_type = cpu_type;
      cpu_type_reset = 0;
      addr_step = 2;
      reset_vector = 0;
      seven_seg_addr_digits = 0x04;
      seven_seg_data_digits = 0x04;
      emulate_port = default_emulate_port;
      step_delay = 1;
    } in
    if cpu_type == 2
    then short
    else if cpu_type == 3
    then short
    else if cpu_type == 4
    then record short { seven_seg_addr_digits = 0x06 }
    else record {
      clock_div = 0;
      cpu_type = 1;
      cpu_type_reset = 0;
      addr_step = 1;
      reset_vector = 0x00000108;
      seven_seg_addr_digits = 0x05;
      seven_seg_data_digits = 0x04;
      emulate_port = default_emulate_port;
      step_delay = 1;
    }

-- `n` bytes: the first ones, with FF behind those that are missing.
unfoldable pub filled : ℕ → List ℕ → Raw
filled zero bytes = []
filled (suc n) [] = 0xff ∷ filled n []
filled (suc n) (b ∷ bytes) = b ∷ filled n bytes

unfoldable pub normalize_raw : Raw → Raw
normalize_raw raw = if length raw == setting_area_size then raw else filled setting_area_size raw

-- `raw[offset] ?? 0`
abbrev pub byte_of : Raw → ℕ → ℕ
byte_of raw offset = or_zero (get_elem? raw offset)

unfoldable pub normalize_emulate_port : ℕ → ℕ
normalize_emulate_port value =
    let p = value % 2 ^ 16 in if p == 0 || p == 0xffff then default_emulate_port else p

unfoldable pub read_u16be : Raw → ℕ → ℕ
read_u16be raw offset = byte_of raw offset * 2 ^ 8 + byte_of raw (offset + 1)

unfoldable pub read_u32be : Raw → ℕ → ℕ
read_u32be raw offset =
    byte_of raw offset * 2 ^ 24
    + byte_of raw (offset + 1) * 2 ^ 16
    + byte_of raw (offset + 2) * 2 ^ 8
    + byte_of raw (offset + 3)

unfoldable pub decode_setting_area : Raw → IoBoardSettings
unfolding normalize_raw normalize_addr_step normalize_emulate_port read_u16be read_u32be
decode_setting_area raw =
    let buf = normalize_raw raw in
    record {
      clock_div = byte_of buf 0x02 % 2 ^ 8 % 4;
      cpu_type = byte_of buf 0x03 % 2 ^ 8;
      cpu_type_reset = byte_of buf 0x04 % 2 ^ 8 % 2;
      addr_step = normalize_addr_step (byte_of buf 0x05 % 2 ^ 8);
      reset_vector = read_u32be buf 0x06;
      seven_seg_addr_digits = byte_of buf 0x0a % 2 ^ 8;
      seven_seg_data_digits = byte_of buf 0x0b % 2 ^ 8;
      emulate_port = normalize_emulate_port (read_u16be buf 0x0c);
      step_delay = byte_of buf 0x0e % 2 ^ 8;
    }

-- The bytes that are set; the rest of the area stays FF.
unfoldable pub encode_setting_area : IoBoardSettings → Raw
unfolding filled normalize_addr_step normalize_emulate_port
encode_setting_area s =
    let port = normalize_emulate_port s.emulate_port in
    filled setting_area_size (
      setting_mark / 2 ^ 8 % 2 ^ 8
      ∷ setting_mark % 2 ^ 8
      ∷ s.clock_div % 4
      ∷ s.cpu_type % 2 ^ 8
      ∷ s.cpu_type_reset % 2
      ∷ normalize_addr_step s.addr_step
      ∷ s.reset_vector / 2 ^ 24 % 2 ^ 8
      ∷ s.reset_vector / 2 ^ 16 % 2 ^ 8
      ∷ s.reset_vector / 2 ^ 8 % 2 ^ 8
      ∷ s.reset_vector % 2 ^ 8
      ∷ s.seven_seg_addr_digits % 2 ^ 8
      ∷ s.seven_seg_data_digits % 2 ^ 8
      ∷ port / 2 ^ 8 % 2 ^ 8
      ∷ port % 2 ^ 8
      ∷ s.step_delay % 2 ^ 8
      ∷ [])

-- The defaults of a CPU, with the clock and the CPU of the settings before.
unfoldable pub settings_by_cpu : IoBoardSettings → IoBoardSettings
unfolding default_settings_for_cpu
settings_by_cpu settings = record (default_settings_for_cpu settings.cpu_type) {
  clock_div = settings.clock_div;
  cpu_type = settings.cpu_type;
  cpu_type_reset = 0;
}

unfoldable pub write_setting_area_byte : Raw → ℕ → ℕ → Raw
unfolding decode_setting_area encode_setting_area settings_by_cpu
write_setting_area_byte raw byte_addr value =
    let addr = byte_addr % 2 ^ 8 in
    let v = value % 2 ^ 8 in
    let next = set (normalize_raw raw) addr v in
    if addr == 0x04 && v % 2 == 1
    then encode_setting_area (settings_by_cpu (decode_setting_area next))
    else next

unfoldable pub has_valid_mark : Raw → Bool
has_valid_mark raw = read_u16be (normalize_raw raw) 0 == setting_mark

-- `saveSettingArea`, and the result of the two branches that save.
abbrev pub save : IoBoardSettings → Reason → State (Option Raw) InitializeResult
save settings reason stored =
    let raw = encode_setting_area settings in
    (record { raw = raw; settings = settings; initialized = true; reason = reason }, some raw)

-- An area that is there and marked.
unfoldable pub initialize_marked : Raw → State (Option Raw) InitializeResult
initialize_marked raw stored =
    let settings = decode_setting_area raw in
    if settings.cpu_type_reset == 1
    then save (settings_by_cpu settings) cpu_type_was_reset stored
    else (
      record { raw = raw; settings = settings; initialized = false; reason = already_valid },
      stored,
    )

unfoldable pub initialize_setting_area : State (Option Raw) InitializeResult
unfolding initialize_marked
initialize_setting_area none = save (default_settings_for_cpu 1) invalid_or_missing_mark none
initialize_setting_area (some raw) =
    if has_valid_mark raw
    then initialize_marked raw (some raw)
    else save (default_settings_for_cpu 1) invalid_or_missing_mark (some raw)
