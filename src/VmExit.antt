-- ===== src/VmExit.antt =====
-- mythril/src/vmexit.rs: why a guest left, as it is read from the control structure. The conversions that
-- num_enum derives are a parameter (`ExitEnums`).
pub mod Cpu
pub mod Info
use mythril.Prelude.{ℕ, ◌+◌, ◌==◌, ◌^◌, if◌then◌else◌, List, [], ◌∷◌, Option, none, some, bit_and}
use mythril.Error.{Result, ok, err, ok_or, ◌>>=◌, invalid_value}
use mythril.Vmcs.{Control, vmcs_read}
use mythril.Vmcs.Field.{VmcsField}
use mythril.VmExit.Info
use mythril.VmExit.Info.{
  ExitEnums, ApicAccessInformation, IoInstructionInformation, VectoredEventInformation,
  EptInformation, CrInformation,
}

pub data ExitInformation : Type 0 where
  triple_fault init_signal start_up_ipi io_system_management_interrupt : ExitInformation
  other_system_management_interrupt interrupt_window : ExitInformation
  non_maskable_interrupt_window task_switch cpu_id get_sec hlt invd invl_pg : ExitInformation
  rdpmc rdtsc rsm vm_call vm_clear vm_launch vm_ptr_ld vm_ptr_rst vm_read : ExitInformation
  vm_resume vm_write vmx_off vmx_on mov_dr rd_msr wr_msr : ExitInformation
  vm_entry_invalid_guest_state vm_entry_msr_load mwait monitor_trap_flag : ExitInformation
  monitor pause vm_entry_machine_check tpr_below_threshold virtual_eio : ExitInformation
  access_gdtridtr access_ldtr_tr ept_misconfigure inv_ept rdtscp : ExitInformation
  vmx_preemption_timer_expired invvpid wbinvd xsetbv apic_write rd_rand invpcid : ExitInformation
  vm_func encls rd_seed page_modification_log_full xsaves xrstors : ExitInformation
  non_maskable_interrupt : VectoredEventInformation → ExitInformation
  external_interrupt : VectoredEventInformation → ExitInformation
  cr_access : CrInformation → ExitInformation
  io_instruction : IoInstructionInformation → ExitInformation
  apic_access : ApicAccessInformation → ExitInformation
  ept_violation : EptInformation → ExitInformation

pub record ExitReason : Type 0 where
  pub flags : ℕ
  pub info : ExitInformation

-- The reasons that come with no further information.
abbrev pub simple_reasons : List (ℕ × ExitInformation)
simple_reasons =
    (2, triple_fault)
    ∷ (3, init_signal)
    ∷ (4, start_up_ipi)
    ∷ (5, io_system_management_interrupt)
    ∷ (6, other_system_management_interrupt)
    ∷ (7, interrupt_window)
    ∷ (8, non_maskable_interrupt_window)
    ∷ (9, task_switch)
    ∷ (10, cpu_id)
    ∷ (11, get_sec)
    ∷ (12, hlt)
    ∷ (13, invd)
    ∷ (14, invl_pg)
    ∷ (15, rdpmc)
    ∷ (16, rdtsc)
    ∷ (17, rsm)
    ∷ (18, vm_call)
    ∷ (19, vm_clear)
    ∷ (20, vm_launch)
    ∷ (21, vm_ptr_ld)
    ∷ (22, vm_ptr_rst)
    ∷ (23, vm_read)
    ∷ (24, vm_resume)
    ∷ (25, vm_write)
    ∷ (26, vmx_off)
    ∷ (27, vmx_on)
    ∷ (29, mov_dr)
    ∷ (31, rd_msr)
    ∷ (32, wr_msr)
    ∷ (33, vm_entry_invalid_guest_state)
    ∷ (34, vm_entry_msr_load)
    ∷ (36, mwait)
    ∷ (37, monitor_trap_flag)
    ∷ (39, monitor)
    ∷ (40, pause)
    ∷ (41, vm_entry_machine_check)
    ∷ (43, tpr_below_threshold)
    ∷ (45, virtual_eio)
    ∷ (46, access_gdtridtr)
    ∷ (47, access_ldtr_tr)
    ∷ (49, ept_misconfigure)
    ∷ (50, inv_ept)
    ∷ (51, rdtscp)
    ∷ (52, vmx_preemption_timer_expired)
    ∷ (53, invvpid)
    ∷ (54, wbinvd)
    ∷ (55, xsetbv)
    ∷ (56, apic_write)
    ∷ (57, rd_rand)
    ∷ (58, invpcid)
    ∷ (59, vm_func)
    ∷ (60, encls)
    ∷ (61, rd_seed)
    ∷ (62, page_modification_log_full)
    ∷ (63, xsaves)
    ∷ (64, xrstors)
    ∷ []

unfoldable pub find_reason : ℕ → List (ℕ × ExitInformation) → Option ExitInformation
find_reason basic_reason [] = none
find_reason basic_reason ((reason, info) ∷ reasons) =
    if basic_reason == reason then some info else find_reason basic_reason reasons

-- The bits of `ExitReasonFlags`: 27, 28, 29 and 31.
abbrev pub exit_reason_flags : ℕ
exit_reason_flags = 2 ^ 27 + 2 ^ 28 + 2 ^ 29 + 2 ^ 31

module _ (enums : ExitEnums) where
  unfoldable pub exit_information : Control → ℕ → Result ExitInformation
  unfolding find_reason
  exit_information vmcs basic_reason =
      if basic_reason == 0
      then (Info.vectored_event enums vmcs >>= λ info. ok (non_maskable_interrupt info))
      else if basic_reason == 1
      then (Info.vectored_event enums vmcs >>= λ info. ok (external_interrupt info))
      else if basic_reason == 28
      then (Info.cr_access enums vmcs >>= λ info. ok (cr_access info))
      else if basic_reason == 30
      then (Info.io_instruction vmcs >>= λ info. ok (io_instruction info))
      else if basic_reason == 44
      then (Info.apic_access enums vmcs >>= λ info. ok (apic_access info))
      else if basic_reason == 48
      then (Info.ept_violation vmcs >>= λ info. ok (ept_violation info))
      else ok_or (find_reason basic_reason simple_reasons) invalid_value

  unfoldable pub from_active_vmcs : Control → Result ExitReason
  from_active_vmcs vmcs = do
    reason ← vmcs_read vmcs VmcsField.vm_exit_reason
    info ← exit_information vmcs (bit_and reason 0x7fff)
    ok (record { flags = bit_and reason exit_reason_flags; info = info })
