-- ===== src/Vm.antt =====
-- mythril/src/vm.rs: virtual machines, the messages between their cores, and how an access of a guest finds
-- a device.
pub mod Messages
pub mod Queue
pub mod Dispatch
pub mod Setup
pub mod Insert
