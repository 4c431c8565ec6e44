-- ===== src/Emulate.antt =====
-- mythril/src/emulate: the instructions of a guest that the hypervisor carries out.
pub mod Register
pub mod ControlReg
pub mod Guest
pub mod PortIo
pub mod MemIo
