-- ===== src/Handler.antt =====
-- handler/: the part of iKGT that runs beside the hypervisor and answers its events.
pub mod Entry
pub mod Api
pub mod Machine
pub mod Utils
pub mod Table
pub mod Log
pub mod MaskTables
pub mod Operands
pub mod Crx
pub mod Msr
pub mod Memory
pub mod Policy
pub mod Print
pub mod Names
pub mod Debug
pub mod Events
pub mod Frame
pub mod Invariant
pub mod Policies
pub mod Balance
