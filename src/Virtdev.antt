-- ===== src/Virtdev.antt =====
-- mythril/src/virtdev: the emulated devices and what they share.
pub mod PortRead
pub mod PortWrite
pub mod DeviceMap
pub mod Event
pub mod Pic
pub mod Com
pub mod Rtc
pub mod Pci
pub mod Vga
pub mod Acpi
pub mod Pit
pub mod Keyboard
pub mod VirtualIoApic
pub mod DebugPort
pub mod QemuFwCfg
pub mod Device
pub mod Lapic
