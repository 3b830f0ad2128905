-- ===== src/Mn1613.antt =====
-- The MN1613 core: retrocpu_emu_ts/src/cpuboard/mn1613/mn1613.ts.
pub mod Register
pub mod Bridge
pub mod Board
pub mod Core
pub mod Float
pub mod Move
pub mod BitOps
pub mod Arith
pub mod Logic
pub mod Extended
pub mod Execute
pub mod Run
pub mod Memory
pub mod Stack
pub mod Alu
pub mod Divide
pub mod Psw
pub mod Traps
pub mod Block
pub mod Width
