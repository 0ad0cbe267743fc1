-- ===== src/Examples.antt =====
-- The theorems at concrete inputs.
mod Session
mod Messages
mod Groups
mod Storage
mod Replica
mod Encoding
mod Store
mod Wire
mod Import
mod Record
mod Module
