-- ===== src/Tests.antt =====
-- The theorems at concrete inputs, and runs of the definitions.
mod Memory
mod IoApic
mod DeviceMap
mod Requests
mod Devices
mod Uart
mod FwCfg
mod Time
mod Exits
mod Messages
mod Emulate
mod Pit
mod Machine
mod Ipc
