-- ===== src/Vmcs/Field.antt =====
-- `VmcsField` of mythril/src/vmcs.rs: the fields of a virtual machine control structure, and their
-- encodings.
use mythril.Prelude.{ℕ}

pub data VmcsField : Type 0 where
  virtual_processor_id posted_intr_nv guest_es_selector guest_cs_selector : VmcsField
  guest_ss_selector guest_ds_selector guest_fs_selector guest_gs_selector : VmcsField
  guest_ldtr_selector guest_tr_selector guest_intr_status guest_pml_index : VmcsField
  host_es_selector host_cs_selector host_ss_selector host_ds_selector : VmcsField
  host_fs_selector host_gs_selector host_tr_selector io_bitmap_a io_bitmap_a_high : VmcsField
  io_bitmap_b io_bitmap_b_high msr_bitmap msr_bitmap_high vm_exit_msr_store_addr : VmcsField
  vm_exit_msr_store_addr_high vm_exit_msr_load_addr vm_exit_msr_load_addr_high : VmcsField
  vm_entry_msr_load_addr vm_entry_msr_load_addr_high pml_address pml_address_high : VmcsField
  tsc_offset tsc_offset_high virtual_apic_page_addr virtual_apic_page_addr_high : VmcsField
  apic_access_addr apic_access_addr_high posted_intr_desc_addr : VmcsField
  posted_intr_desc_addr_high ept_pointer ept_pointer_high eoi_exit_bitmap0 : VmcsField
  eoi_exit_bitmap0_high eoi_exit_bitmap1 eoi_exit_bitmap1_high eoi_exit_bitmap2 : VmcsField
  eoi_exit_bitmap2_high eoi_exit_bitmap3 eoi_exit_bitmap3_high vmread_bitmap : VmcsField
  vmread_bitmap_high vmwrite_bitmap vmwrite_bitmap_high tsc_multiplier : VmcsField
  tsc_multiplier_high guest_physical_address guest_physical_address_high : VmcsField
  vmcs_link_pointer vmcs_link_pointer_high guest_ia32_debugctl : VmcsField
  guest_ia32_debugctl_high guest_ia32_pat guest_ia32_pat_high guest_ia32_efer : VmcsField
  guest_ia32_efer_high guest_ia32_perf_global_ctrl guest_ia32_perf_global_ctrl_high : VmcsField
  guest_pdptr0 guest_pdptr0_high guest_pdptr1 guest_pdptr1_high guest_pdptr2 : VmcsField
  guest_pdptr2_high guest_pdptr3 guest_pdptr3_high guest_bndcfgs guest_bndcfgs_high : VmcsField
  host_ia32_pat host_ia32_pat_high host_ia32_efer host_ia32_efer_high : VmcsField
  host_ia32_perf_global_ctrl host_ia32_perf_global_ctrl_high : VmcsField
  pin_based_vm_exec_control cpu_based_vm_exec_control exception_bitmap : VmcsField
  page_fault_error_code_mask page_fault_error_code_match cr3_target_count : VmcsField
  vm_exit_controls vm_exit_msr_store_count vm_exit_msr_load_count vm_entry_controls : VmcsField
  vm_entry_msr_load_count vm_entry_intr_info_field vm_entry_exception_error_code : VmcsField
  vm_entry_instruction_len tpr_threshold secondary_vm_exec_control ple_gap : VmcsField
  ple_window vm_instruction_error vm_exit_reason vm_exit_intr_info : VmcsField
  vm_exit_intr_error_code idt_vectoring_info_field idt_vectoring_error_code : VmcsField
  vm_exit_instruction_len vmx_instruction_info guest_es_limit guest_cs_limit : VmcsField
  guest_ss_limit guest_ds_limit guest_fs_limit guest_gs_limit guest_ldtr_limit : VmcsField
  guest_tr_limit guest_gdtr_limit guest_idtr_limit guest_es_ar_bytes : VmcsField
  guest_cs_ar_bytes guest_ss_ar_bytes guest_ds_ar_bytes guest_fs_ar_bytes : VmcsField
  guest_gs_ar_bytes guest_ldtr_ar_bytes guest_tr_ar_bytes : VmcsField
  guest_interruptibility_info guest_activity_state host_ia32_sysenter_cs : VmcsField
  cr0_guest_host_mask cr4_guest_host_mask cr0_read_shadow cr4_read_shadow : VmcsField
  cr3_target_value0 cr3_target_value1 cr3_target_value2 cr3_target_value3 : VmcsField
  exit_qualification guest_linear_address guest_cr0 guest_cr3 guest_cr4 : VmcsField
  guest_es_base guest_cs_base guest_ss_base guest_ds_base guest_fs_base : VmcsField
  guest_gs_base guest_ldtr_base guest_tr_base guest_gdtr_base guest_idtr_base : VmcsField
  guest_dr7 guest_rsp guest_rip guest_rflags guest_pending_dbg_exceptions : VmcsField
  guest_sysenter_esp guest_sysenter_eip host_cr0 host_cr3 host_cr4 host_fs_base : VmcsField
  host_gs_base host_tr_base host_gdtr_base host_idtr_base host_ia32_sysenter_esp : VmcsField
  host_ia32_sysenter_eip host_rsp host_rip : VmcsField

-- `field as u64`.
unfoldable pub field_code : VmcsField → ℕ
field_code virtual_processor_id = 0x00000000
field_code posted_intr_nv = 0x00000002
field_code guest_es_selector = 0x00000800
field_code guest_cs_selector = 0x00000802
field_code guest_ss_selector = 0x00000804
field_code guest_ds_selector = 0x00000806
field_code guest_fs_selector = 0x00000808
field_code guest_gs_selector = 0x0000080a
field_code guest_ldtr_selector = 0x0000080c
field_code guest_tr_selector = 0x0000080e
field_code guest_intr_status = 0x00000810
field_code guest_pml_index = 0x00000812
field_code host_es_selector = 0x00000c00
field_code host_cs_selector = 0x00000c02
field_code host_ss_selector = 0x00000c04
field_code host_ds_selector = 0x00000c06
field_code host_fs_selector = 0x00000c08
field_code host_gs_selector = 0x00000c0a
field_code host_tr_selector = 0x00000c0c
field_code io_bitmap_a = 0x00002000
field_code io_bitmap_a_high = 0x00002001
field_code io_bitmap_b = 0x00002002
field_code io_bitmap_b_high = 0x00002003
field_code msr_bitmap = 0x00002004
field_code msr_bitmap_high = 0x00002005
field_code vm_exit_msr_store_addr = 0x00002006
field_code vm_exit_msr_store_addr_high = 0x00002007
field_code vm_exit_msr_load_addr = 0x00002008
field_code vm_exit_msr_load_addr_high = 0x00002009
field_code vm_entry_msr_load_addr = 0x0000200a
field_code vm_entry_msr_load_addr_high = 0x0000200b
field_code pml_address = 0x0000200e
field_code pml_address_high = 0x0000200f
field_code tsc_offset = 0x00002010
field_code tsc_offset_high = 0x00002011
field_code virtual_apic_page_addr = 0x00002012
field_code virtual_apic_page_addr_high = 0x00002013
field_code apic_access_addr = 0x00002014
field_code apic_access_addr_high = 0x00002015
field_code posted_intr_desc_addr = 0x00002016
field_code posted_intr_desc_addr_high = 0x00002017
field_code ept_pointer = 0x0000201a
field_code ept_pointer_high = 0x0000201b
field_code eoi_exit_bitmap0 = 0x0000201c
field_code eoi_exit_bitmap0_high = 0x0000201d
field_code eoi_exit_bitmap1 = 0x0000201e
field_code eoi_exit_bitmap1_high = 0x0000201f
field_code eoi_exit_bitmap2 = 0x00002020
field_code eoi_exit_bitmap2_high = 0x00002021
field_code eoi_exit_bitmap3 = 0x00002022
field_code eoi_exit_bitmap3_high = 0x00002023
field_code vmread_bitmap = 0x00002026
field_code vmread_bitmap_high = 0x00002027
field_code vmwrite_bitmap = 0x00002028
field_code vmwrite_bitmap_high = 0x00002029
field_code tsc_multiplier = 0x00002032
field_code tsc_multiplier_high = 0x00002033
field_code guest_physical_address = 0x00002400
field_code guest_physical_address_high = 0x00002401
field_code vmcs_link_pointer = 0x00002800
field_code vmcs_link_pointer_high = 0x00002801
field_code guest_ia32_debugctl = 0x00002802
field_code guest_ia32_debugctl_high = 0x00002803
field_code guest_ia32_pat = 0x00002804
field_code guest_ia32_pat_high = 0x00002805
field_code guest_ia32_efer = 0x00002806
field_code guest_ia32_efer_high = 0x00002807
field_code guest_ia32_perf_global_ctrl = 0x00002808
field_code guest_ia32_perf_global_ctrl_high = 0x00002809
field_code guest_pdptr0 = 0x0000280a
field_code guest_pdptr0_high = 0x0000280b
field_code guest_pdptr1 = 0x0000280c
field_code guest_pdptr1_high = 0x0000280d
field_code guest_pdptr2 = 0x0000280e
field_code guest_pdptr2_high = 0x0000280f
field_code guest_pdptr3 = 0x00002810
field_code guest_pdptr3_high = 0x00002811
field_code guest_bndcfgs = 0x00002812
field_code guest_bndcfgs_high = 0x00002813
field_code host_ia32_pat = 0x00002c00
field_code host_ia32_pat_high = 0x00002c01
field_code host_ia32_efer = 0x00002c02
field_code host_ia32_efer_high = 0x00002c03
field_code host_ia32_perf_global_ctrl = 0x00002c04
field_code host_ia32_perf_global_ctrl_high = 0x00002c05
field_code pin_based_vm_exec_control = 0x00004000
field_code cpu_based_vm_exec_control = 0x00004002
field_code exception_bitmap = 0x00004004
field_code page_fault_error_code_mask = 0x00004006
field_code page_fault_error_code_match = 0x00004008
field_code cr3_target_count = 0x0000400a
field_code vm_exit_controls = 0x0000400c
field_code vm_exit_msr_store_count = 0x0000400e
field_code vm_exit_msr_load_count = 0x00004010
field_code vm_entry_controls = 0x00004012
field_code vm_entry_msr_load_count = 0x00004014
field_code vm_entry_intr_info_field = 0x00004016
field_code vm_entry_exception_error_code = 0x00004018
field_code vm_entry_instruction_len = 0x0000401a
field_code tpr_threshold = 0x0000401c
field_code secondary_vm_exec_control = 0x0000401e
field_code ple_gap = 0x00004020
field_code ple_window = 0x00004022
field_code vm_instruction_error = 0x00004400
field_code vm_exit_reason = 0x00004402
field_code vm_exit_intr_info = 0x00004404
field_code vm_exit_intr_error_code = 0x00004406
field_code idt_vectoring_info_field = 0x00004408
field_code idt_vectoring_error_code = 0x0000440a
field_code vm_exit_instruction_len = 0x0000440c
field_code vmx_instruction_info = 0x0000440e
field_code guest_es_limit = 0x00004800
field_code guest_cs_limit = 0x00004802
field_code guest_ss_limit = 0x00004804
field_code guest_ds_limit = 0x00004806
field_code guest_fs_limit = 0x00004808
field_code guest_gs_limit = 0x0000480a
field_code guest_ldtr_limit = 0x0000480c
field_code guest_tr_limit = 0x0000480e
field_code guest_gdtr_limit = 0x00004810
field_code guest_idtr_limit = 0x00004812
field_code guest_es_ar_bytes = 0x00004814
field_code guest_cs_ar_bytes = 0x00004816
field_code guest_ss_ar_bytes = 0x00004818
field_code guest_ds_ar_bytes = 0x0000481a
field_code guest_fs_ar_bytes = 0x0000481c
field_code guest_gs_ar_bytes = 0x0000481e
field_code guest_ldtr_ar_bytes = 0x00004820
field_code guest_tr_ar_bytes = 0x00004822
field_code guest_interruptibility_info = 0x00004824
field_code guest_activity_state = 0x00004826
field_code host_ia32_sysenter_cs = 0x00004c00
field_code cr0_guest_host_mask = 0x00006000
field_code cr4_guest_host_mask = 0x00006002
field_code cr0_read_shadow = 0x00006004
field_code cr4_read_shadow = 0x00006006
field_code cr3_target_value0 = 0x00006008
field_code cr3_target_value1 = 0x0000600a
field_code cr3_target_value2 = 0x0000600c
field_code cr3_target_value3 = 0x0000600e
field_code exit_qualification = 0x00006400
field_code guest_linear_address = 0x0000640a
field_code guest_cr0 = 0x00006800
field_code guest_cr3 = 0x00006802
field_code guest_cr4 = 0x00006804
field_code guest_es_base = 0x00006806
field_code guest_cs_base = 0x00006808
field_code guest_ss_base = 0x0000680a
field_code guest_ds_base = 0x0000680c
field_code guest_fs_base = 0x0000680e
field_code guest_gs_base = 0x00006810
field_code guest_ldtr_base = 0x00006812
field_code guest_tr_base = 0x00006814
field_code guest_gdtr_base = 0x00006816
field_code guest_idtr_base = 0x00006818
field_code guest_dr7 = 0x0000681a
field_code guest_rsp = 0x0000681c
field_code guest_rip = 0x0000681e
field_code guest_rflags = 0x00006820
field_code guest_pending_dbg_exceptions = 0x00006822
field_code guest_sysenter_esp = 0x00006824
field_code guest_sysenter_eip = 0x00006826
field_code host_cr0 = 0x00006c00
field_code host_cr3 = 0x00006c02
field_code host_cr4 = 0x00006c04
field_code host_fs_base = 0x00006c06
field_code host_gs_base = 0x00006c08
field_code host_tr_base = 0x00006c0a
field_code host_gdtr_base = 0x00006c0c
field_code host_idtr_base = 0x00006c0e
field_code host_ia32_sysenter_esp = 0x00006c10
field_code host_ia32_sysenter_eip = 0x00006c12
field_code host_rsp = 0x00006c14
field_code host_rip = 0x00006c16
