-- ===== src/Driver.antt =====
-- driver/: the Linux module that offers the policy in configfs and sends it to the handler.
pub mod Kernel
pub mod Tables
pub mod Config
pub mod Log
pub mod Nodes
pub mod Agent
pub mod Debug
pub mod Session
pub mod Types
pub mod Tree
