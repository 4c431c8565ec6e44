-- ===== src/Memory.antt =====
-- mythril/src/memory.rs: guest and host addresses, and the entries of the extended page tables.
-- Addresses and entries are words of 64 bits; the `ux` integers are the numbers that they hold.
pub mod Address
pub mod Entry
pub mod Ept
pub mod Bytes
