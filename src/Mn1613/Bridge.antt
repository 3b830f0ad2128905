-- ===== src/Mn1613/Bridge.antt =====
-- The ports of the handshake bus as the MN1613's RD and WT see them:
-- retrocpu_emu_ts/src/cpuboard/handshake/io_port_bridge.ts.
use retro_cpu_emu.Shared.{ℕ, ◌/◌, ◌%◌, ◌^◌, bit_or, ◌==◌, if◌then◌else◌}
use retro_cpu_emu.IoPorts.{Bus}

abbrev pub interrupt_busy : ℕ
interrupt_busy = 0x20

abbrev pub int_cause : ℕ
int_cause = 0x21

abbrev pub hshk_out_ctrl : ℕ
hshk_out_ctrl = 0x22

abbrev pub hshk_out_data : ℕ
hshk_out_data = 0x23

abbrev pub hshk_in_ctrl : ℕ
hshk_in_ctrl = 0x24

abbrev pub hshk_in_data : ℕ
hshk_in_data = 0x25

-- `wire ? mask : 0`
abbrev flag : ℕ → ℕ → ℕ
flag wire mask = if wire == 0 then 0 else mask

unfoldable pub read : ℕ → Bus → ℕ
read port b =
    let p = port % 2 ^ 16 in
    if p == interrupt_busy
    then b.interrupt_busy % 2
    else if p == int_cause
    then b.int_cause % 8
    else if p == hshk_out_ctrl
    then bit_or (bit_or (flag b.hshk_out_dena 2) (flag b.hshk_in_dack 4)) (flag b.hshk_out_req 1)
    else if p == hshk_out_data
    then b.hshk_out_data % 2 ^ 8
    else if p == hshk_in_ctrl
    then bit_or (bit_or (flag b.hshk_in_req 1) (flag b.hshk_in_dena 2)) (flag b.hshk_out_dack 4)
    else if p == hshk_in_data
    then b.hshk_in_data % 2 ^ 8
    else 0

unfoldable pub write : ℕ → ℕ → Bus → Bus
write port val b =
    let p = port % 2 ^ 16 in
    let v = val % 2 ^ 16 in
    if p == interrupt_busy
    then record b { interrupt_busy = v % 2 }
    else if p == int_cause
    then record b { int_cause = v % 8 }
    else if p == hshk_out_ctrl
    then record b { hshk_out_dena = v / 2 % 2; hshk_in_dack = v / 4 % 2; hshk_out_req = v % 2 }
    else if p == hshk_out_data
    then record b { hshk_out_data = v % 2 ^ 8 }
    else if p == hshk_in_ctrl
    then record b { hshk_in_req = v % 2; hshk_in_dena = v / 2 % 2; hshk_out_dack = v / 4 % 2 }
    else if p == hshk_in_data
    then record b { hshk_in_data = v % 2 ^ 8 }
    else b
