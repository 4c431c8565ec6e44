-- ===== src/Lib.antt =====
-- Mythril is a hypervisor for x86 in Rust. This library models the parts of it that hold its own logic, as
-- functions on explicit state, and proves what makes them correct.
--
-- The parts, and how they work together. A guest runs on extended page tables, which mythril/src/memory.rs
-- builds (`Memory`). An access of the guest to a port or to a device's memory leaves the guest; the exit
-- is decoded (`VmExit`) and handled (`Vcpu`), for an instruction by emulating it (`Emulate`); the map of
-- devices in mythril/src/virtdev/mod.rs (`Virtdev.DeviceMap`) finds the device that serves it, and the device
-- takes the access as an event with a request (`Virtdev.PortRead`, `Virtdev.PortWrite`), changes itself,
-- fills the request and answers with responses, which become interrupts of the guest (`Virtdev.Event`).
-- Interrupts of the machine are routed to cores by the I/O APIC, mythril/src/ioapic.rs (`IoApic`); those
-- of the guest's timers come from the wheel of mythril/src/time.rs (`Time`). Cores send each other messages
-- through queues (`Vm.Messages`).
--
-- Files, and what they model:
--   Prelude: what is shared: Boolean tests on native numbers, lists, bits, the fixed widths (Word), the
--     ordered map of the standard library (BTreeMap), and the conversion that the crate num_enum derives
--     (Primitive), which is a parameter of whatever uses it, as a record of the conversion and its two laws.
--   Error: mythril/src/error.rs. `Result` has a case more for a panic, which ends the run; messages are
--     left out.
--   Memory: mythril/src/memory.rs. Address has the indices of an address, Entry the entries of the tables
--     (EptTableEntry and EptPageTableEntry, one word each), Ept the function map_guest_memory, and
--     GuestAddressSpace::new and find_host_frame. The tables lie in host memory, a map from the address of
--     a table and an index to an entry; the global allocator is the list of the addresses that it returns.
--     Bytes has the walk of the guest's own tables, with read_bytes and write_bytes.
--   IoApic: mythril/src/ioapic.rs, IoApic::new to write_ioredtbl and map_gsi_vector; RedTbl has IoRedTblEntry
--     with its conversions. The registers behind the window are a function, as the hardware keeps them.
--   Vmcs: mythril/src/vmcs.rs, the fields of a control structure, read and written over VMREAD and VMWRITE,
--     which are a parameter (Vmx); VmExit: mythril/src/vmexit.rs, the reasons of an exit and what the
--     processor says of each.
--   Vcpu: mythril/src/vcpu.rs. State is the core and what it refers to, Inject the pending interrupts and
--     the end of handle_vmexit, Handle the rest of it, with what it is given from outside (Outside);
--     Pending and Ipc are about interrupts.
--   Emulate: mythril/src/emulate. ControlReg, PortIo and MemIo are the files of these names, cpuid.rs is in
--     ControlReg; Register has the registers of memory instructions; Guest the reads and writes of the
--     guest's memory through a core.
--   Vm: mythril/src/vm.rs. Messages is the set of machines with the queues of its cores, Dispatch the
--     dispatch of an event to a device, Setup the memory of a guest (setup_ept), Insert a machine with its
--     devices and its insertion into the set.
--   Virtdev: mythril/src/virtdev. PortRead and PortWrite are the requests; DeviceMap the two maps, with
--     register_device and find_device (find_port, find_addr); Pic, Com, Rtc, Pci, Vga, Acpi, Pit, Keyboard,
--     DebugPort (debug.rs), VirtualIoApic (ioapic.rs) and QemuFwCfg (with Dma) the devices, whole handlers
--     each (on_event); Device the sum of them; Lapic the local APIC of lapic.rs.
--   Time: mythril/src/time.rs. The wheel of timers of a core (TimerWheel), on a clock that is given as the
--     readings of the time source, one for each call of `now`; the frequency is a parameter. What the
--     local APIC is asked to schedule is a result of each call; the reading that the local APIC itself takes
--     to schedule it is not one of the clock's. Core has the calls that set and cancel
--     timers of a core.
--   Tests: the theorems applied at concrete inputs.
--
-- Numbers are natural numbers; a cast or an operation that wraps in the release build (the Makefile's
-- default) is written out with its width. Loops are recursion on a list, but those of read_bytes and
-- write_bytes, over the frames of an address: they are given two rounds more than the length has pages,
-- which is enough, since each round but the first and the last takes a page; and the chunks of an image,
-- which are given as many rounds as it has bytes. A method that mutates `self`
-- returns the changed state, also with an error (`Error.Run`). A lock is held for a whole call, so a call
-- is one step.
--
-- Not modelled: code that is inline assembly or registers of the processor (vmx.rs, apic.rs, tsc.rs,
-- percore.rs, interrupt), boot (kmain.rs, multiboot.rs, multiboot2.rs, linux.rs, config.rs), the ACPI
-- tables (acpi), in vcpu.rs the entry point and the initial values of a control structure, in vm.rs the
-- configuration record, in time.rs busy_wait, in vmcs.rs the activation of a structure. Text that is
-- logged or printed is left out everywhere.

pub mod Prelude
pub mod Error
pub mod Virtdev
pub mod Memory
pub mod IoApic
pub mod Time
pub mod Vmcs
pub mod VmExit
pub mod Vm
pub mod Vcpu
pub mod Emulate
pub mod Tests
