-- ===== src/IoBoard/Stored.antt =====
-- What is saved in the setting area is read back: setting_area.ts.
use retro_cpu_emu.Shared.{
  ℕ, ◌^◌, ◌≡◌, ◌≤◌, ◌<◌, inl, inr, refl, true, false, Option, none, some, ◌==◌, arith, Bool-cases,
}
use retro_cpu_emu.IoBoard.Settings.{
  save, invalid_or_missing_mark, cpu_type_was_reset, IoBoardSettings, InitializeResult, Raw,
  normalize_addr_step, default_settings_for_cpu, filled, already_valid, normalize_raw,
  normalize_emulate_port, read_u16be, read_u32be, decode_setting_area, encode_setting_area,
  settings_by_cpu, has_valid_mark, initialize_marked, initialize_setting_area,
}

-- Settings that the area can hold.
pub record IsValid (s : IoBoardSettings) : Type 0 where
  pub clock_div : s.clock_div < 4
  pub cpu_type : s.cpu_type < 2 ^ 8
  pub cpu_type_reset : s.cpu_type_reset < 2
  pub addr_step : (1 ≤ s.addr_step) × (s.addr_step ≤ 2)
  pub reset_vector : s.reset_vector < 2 ^ 32
  pub seven_seg_addr_digits : s.seven_seg_addr_digits < 2 ^ 8
  pub seven_seg_data_digits : s.seven_seg_data_digits < 2 ^ 8
  pub emulate_port : (0 < s.emulate_port) × (s.emulate_port < 0xffff)
  pub step_delay : s.step_delay < 2 ^ 8

encoded : (s : IoBoardSettings) → normalize_raw (encode_setting_area s) ≡ encode_setting_area s
unfolding normalize_raw encode_setting_area filled
encoded s = refl

-- Settings whose numbers fit their fields (a clock below 4, a reset flag of 0 or 1, an address step of 1
-- or 2, a port that is neither 0 nor FFFF) are what the decoder reads from their own encoding.
pub decode-encode_setting_area :
    (s : IoBoardSettings) → IsValid s → decode_setting_area (encode_setting_area s) ≡ s
unfolding decode_setting_area encode_setting_area filled normalize_raw normalize_addr_step
    normalize_emulate_port read_u16be read_u32be
decode-encode_setting_area s v = ground arith

marked : (s : IoBoardSettings) → has_valid_mark (encode_setting_area s) ≡ true
unfolding has_valid_mark normalize_raw encode_setting_area filled read_u16be
marked s = refl

-- An area that was saved without the reset flag is taken as it is.
saved_lem :
    (s : IoBoardSettings)
    → IsValid s
    → s.cpu_type_reset ≡ 0
    → initialize_setting_area (some (encode_setting_area s)) ≡ (
      record {
        raw = encode_setting_area s;
        settings = s;
        initialized = false;
        reason = already_valid;
      },
      some (encode_setting_area s),
    )
unfolding initialize_setting_area initialize_marked
saved_lem s v e = rw (marked s, decode-encode_setting_area s v) (ground arith)

default-IsValid :
    (cpu clock : ℕ)
    → cpu < 2 ^ 8
    → clock < 4
    → IsValid (record (default_settings_for_cpu cpu) {
      clock_div = clock;
      cpu_type = cpu;
      cpu_type_reset = 0;
    })
unfolding default_settings_for_cpu
default-IsValid cpu clock h k = record {
  clock_div = k;
  cpu_type = h;
  cpu_type_reset = omega arith;
  addr_step = ground arith;
  reset_vector = ground arith;
  seven_seg_addr_digits = ground arith;
  seven_seg_data_digits = ground arith;
  emulate_port = ground arith;
  step_delay = ground arith;
}

decoded_bounds :
    (raw : Raw)
    → ((decode_setting_area raw).clock_div < 4) × ((decode_setting_area raw).cpu_type < 2 ^ 8)
unfolding decode_setting_area
decoded_bounds raw = omega arith

by_cpu-IsValid : (raw : Raw) → IsValid (settings_by_cpu (decode_setting_area raw))
unfolding settings_by_cpu
by_cpu-IsValid raw =
    let b = decoded_bounds raw in
    default-IsValid (decode_setting_area raw).cpu_type (decode_setting_area raw).clock_div b.1 b.0

-- The second start.
abbrev pub Settled : InitializeResult × Option Raw → Type 0
Settled (first, stored) = initialize_setting_area stored ≡ (
  record {
    raw = first.raw;
    settings = first.settings;
    initialized = false;
    reason = already_valid;
  },
  stored,
)

save_default-Settled :
    (stored : Option Raw)
    → Settled (save (default_settings_for_cpu 1) invalid_or_missing_mark stored)
unfolding default_settings_for_cpu
save_default-Settled stored =
    saved_lem (default_settings_for_cpu 1) (default-IsValid 1 0 (omega arith) (omega arith)) refl

save_by_cpu-Settled :
    (raw : Raw) (stored : Option Raw)
    → Settled (save (settings_by_cpu (decode_setting_area raw)) cpu_type_was_reset stored)
unfolding settings_by_cpu
save_by_cpu-Settled raw stored =
    saved_lem (settings_by_cpu (decode_setting_area raw)) (by_cpu-IsValid raw) refl

-- A marked area that asks for no reset stays as it is.
kept-initialize_setting_area :
    (raw : Raw)
    → has_valid_mark raw ≡ true
    → ((decode_setting_area raw).cpu_type_reset == 1) ≡ false
    → initialize_setting_area (some raw) ≡ (
      record {
        raw = raw;
        settings = decode_setting_area raw;
        initialized = false;
        reason = already_valid;
      },
      some raw,
    )
unfolding initialize_setting_area initialize_marked
kept-initialize_setting_area raw e flag = rw (e, flag)

-- Whatever the storage holds, a second start takes the area as the first one left it: the same bytes
-- and settings, with nothing saved again.
pub initialize_setting_area-Settled :
    (stored : Option Raw) → Settled (initialize_setting_area stored)
unfolding initialize_setting_area initialize_marked
initialize_setting_area-Settled none = save_default-Settled none
initialize_setting_area-Settled (some raw) = elim (Bool-cases (has_valid_mark raw)) [
  | inr e ↦ rw e (save_default-Settled (some raw))
  | inl e ↦ elim (Bool-cases ((decode_setting_area raw).cpu_type_reset == 1)) [
    | inl flag ↦ rw (e, flag) (save_by_cpu-Settled raw (some raw))
    | inr flag ↦ rw (e, flag) (kept-initialize_setting_area raw e flag)
  ]
]
