-- ===== src/IoBoard/Dma.antt =====
-- The DMA master of the IO board: retrocpu_emu_ts/src/ioboard/dma/dma.ts. The source waits for RUN
-- by polling; the polls are a list, each with the level of RUN and whether the deadline has passed,
-- and the list ends where RUN is low. `wave` lists what the bus carries at each pulse of CLK, the
-- newest first.
use retro_cpu_emu.Shared.{
  ℕ, ◌+◌, ◌*◌, ◌/◌, ◌%◌, ◌^◌, bit_or, Bool, true, false, List, [], ◌∷◌, ltb, if◌then◌else◌,
}
use retro_cpu_emu.Machine.{store}

pub record DmaSignals : Type 0 where
  pub data_byte : ℕ
  pub a_enable : Bool
  pub d_enable : Bool
  pub clk : Bool
  pub halt : Bool
  pub run : Bool
  pub dma_ena : Bool

pub record Sample : Type 0 where
  pub address : Bool
  pub content : Bool
  pub byte : ℕ

-- `hlt` is the level of the CPU's HLT pin, and `busy` the module's `_dmaBusy`.
pub record Dma : Type 0 where
  pub bus : DmaSignals
  pub busy : Bool
  pub hlt : Bool
  pub memory : ℕ → ℕ
  pub byte_length : ℕ
  pub wave : List Sample

pub record Poll : Type 0 where
  pub running : Bool
  pub late : Bool

unfoldable pub create_dma_bus : DmaSignals
create_dma_bus = record {
  data_byte = 0;
  a_enable = false;
  d_enable = false;
  clk = false;
  halt = false;
  run = false;
  dma_ena = false;
}

-- `bus.DATA = byte` and a pulse of CLK.
unfoldable pub put : ℕ → Dma → Dma
put byte d = record d {
  bus = record (d.bus) { data_byte = byte; clk = false };
  wave = record { address = d.bus.a_enable; content = d.bus.d_enable; byte = byte } ∷ d.wave;
}

abbrev enable_address : Bool → Dma → Dma
enable_address level d = record d { bus = record (d.bus) { a_enable = level } }

abbrev enable_data : Bool → Dma → Dma
enable_data level d = record d { bus = record (d.bus) { d_enable = level } }

unfoldable pub put_address : ℕ → Dma → Dma
put_address word_addr d =
    let a = word_addr % 2 ^ 32 in
    let d₁ = put (a / 2 ^ 24 % 2 ^ 8) (enable_address true d) in
    let d₂ = put (a / 2 ^ 16 % 2 ^ 8) d₁ in
    let d₃ = put (a / 2 ^ 8 % 2 ^ 8) d₂ in enable_address false (put (a % 2 ^ 8) d₃)

-- The adapter's `writeWord`: the address to 16 bits, and nothing past the buffer.
unfoldable pub write_word : ℕ → ℕ → Dma → Dma
write_word word_addr value d =
    let a = word_addr % 2 ^ 16 in
    if ltb (a * 2 + 1) d.byte_length
    then record d { memory = store d.memory a (value % 2 ^ 16) }
    else d

abbrev command : Bool → ℕ
command mem_not_io = if mem_not_io then 1 else 0

unfoldable pub write_word_cycle : ℕ → ℕ → Bool → Dma → Dma
write_word_cycle word_addr word mem_not_io d =
    let d₁ = put (command mem_not_io) (enable_data true (put_address word_addr d)) in
    let d₂ = put (word % 2 ^ 8) (put (word / 2 ^ 8 % 2 ^ 8) d₁) in
    write_word word_addr (word % 2 ^ 16) (enable_data false d₂)

abbrev pub mirror : Bool → Dma → Dma
mirror running d = record d { bus = record (d.bus) { run = running } }

-- What the session sets before it waits; the first poll brings the mirror of RUN up to date.
unfoldable pub request_bus : Dma → Dma
request_bus d = record d {
  busy = true;
  hlt = true;
  bus = record (d.bus) { a_enable = false; d_enable = false; dma_ena = true; halt = true };
}

-- The path of the timeout, before its `throw`.
unfoldable pub give_up : Bool → Dma → Dma
give_up running d =
    mirror running (record d {
      busy = false;
      hlt = false;
      bus = record (d.bus) { dma_ena = false; halt = false };
    })

-- One turn of the loop, `rest` the turns after it.
abbrev pub polled : Bool → Bool → Dma × Bool → Dma → Dma × Bool
polled false late rest d = (mirror false d, true)
polled true true rest d = (give_up true d, false)
polled true false rest d = rest

-- The polls, to the state and whether the session began.
unfoldable pub wait_run : List Poll → Dma → Dma × Bool
wait_run [] d = (mirror false d, true)
wait_run (p ∷ polls) d = polled p.running p.late (wait_run polls (mirror p.running d)) d

unfoldable pub begin_session : List Poll → Dma → Dma × Bool
begin_session polls d = wait_run polls (request_bus d)

unfoldable pub end_session : Bool → Dma → Dma
end_session running d = mirror running (record d {
  busy = false;
  hlt = false;
  bus = record (d.bus) { a_enable = false; d_enable = false; dma_ena = false; halt = false };
})

-- The loop over the data: two bytes at a time, an odd last one with the low byte 0.
unfoldable pub write_words : ℕ → List ℕ → Dma → Dma
write_words addr [] d = d
write_words addr (hi ∷ []) d = write_word_cycle (addr / 2) (bit_or (hi % 2 ^ 8 * 2 ^ 8) 0) true d
write_words addr (hi ∷ lo ∷ rest) d =
    write_words (addr + 2) rest
      (write_word_cycle (addr / 2) (bit_or (hi % 2 ^ 8 * 2 ^ 8) (lo % 2 ^ 8)) true d)

abbrev pub transferred : ℕ → List ℕ → Bool → Dma × Bool → Dma × Bool
transferred addr bytes running (d, false) = (d, false)
transferred addr bytes running (d, true) = (end_session running (write_words addr bytes d), true)

-- `writeBytes`; `running` is RUN after HLT is released, and the Boolean is false for the exception.
unfoldable pub write_bytes : List Poll → Bool → ℕ → List ℕ → Dma → Dma × Bool
write_bytes polls running byte_addr bytes d =
    transferred (byte_addr % 2 ^ 32) bytes running (begin_session polls d)
