-- ===== src/Mn1613/Width.antt =====
-- Every register of the MN1613 core stays within its width, through every instruction.
pub mod Fields
pub mod Steps
pub mod Groups
pub mod Floats
pub mod Blocks
pub mod Operations
pub mod Logics
pub mod Branches
pub mod Whole
pub mod Reached
