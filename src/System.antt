-- ===== src/System.antt =====
-- The driver and the handler together: the messages of driver/cr0.c, driver/cr4.c and driver/msr.c in
-- the policy table of handler/policy.c, the log memory, and the whole program over time.
pub mod Answers
pub mod Audit
pub mod Tables
pub mod Delivery
pub mod Hypercall
pub mod Log
pub mod Session
pub mod Protection
