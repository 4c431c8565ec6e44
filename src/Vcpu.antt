-- ===== src/Vcpu.antt =====
-- mythril/src/vcpu.rs: a virtual core, which handles the exits of its guest.
pub mod State
pub mod Inject
pub mod Pending
pub mod Ipc
pub mod Handle
