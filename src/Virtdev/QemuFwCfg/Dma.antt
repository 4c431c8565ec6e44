-- ===== src/Virtdev/QemuFwCfg/Dma.antt =====
-- The port writes of mythril/src/virtdev/qemu_fw_cfg.rs and the transfer by direct memory access. A request
-- lies in guest memory as 16 bytes, each field in big-endian order; the host is little-endian.
use mythril.Prelude.{
  ℕ, ◌-◌, ◌^◌, ◌==◌, if◌then◌else◌, List, [], ◌∷◌, ◌++◌, Option, none, some, bit_and, bit_or, take,
  drop,
}
use mythril.Prelude.Word.{u16, u32, ◌<<<◌, ◌>>>◌, has_bit, to_be_bytes, from_be_bytes}
use mythril.Error.{ok, err, panic, not_implemented}
use mythril.Error.Run.{Run, continue, ◌>>=◌, ◌>>◌, lift, modify, zoom}
use mythril.Memory.Address.{no_paging}
use mythril.Memory.Bytes.{GuestAddressSpace, read_bytes, write_bytes}
use mythril.Virtdev.DeviceMap.{DeviceRegion, port_io}
use mythril.Virtdev.Event.{
  DeviceEvent, port_read, port_write, mem_read, mem_write, host_uart_received, Outcome, ignored,
  answered, accepted,
}
use mythril.Virtdev.PortWrite.{PortWriteRequest, try_into_u16, try_into_u32}
use mythril.Virtdev.QemuFwCfg.{
  QemuFwCfg, read_selector, on_port_read, to_le_bytes, fw_cfg_port_sel, fw_cfg_port_data,
  fw_cfg_port_dma_low, fw_cfg_port_dma_high,
}

-- `DmaControlFlags`.
abbrev pub dma_error : ℕ
dma_error = 2 ^ 0

abbrev pub dma_read : ℕ
dma_read = 2 ^ 1

abbrev pub dma_skip : ℕ
dma_skip = 2 ^ 2

abbrev pub dma_select : ℕ
dma_select = 2 ^ 3

abbrev pub dma_write : ℕ
dma_write = 2 ^ 4

abbrev pub dma_flags : ℕ
dma_flags = 0b11111

pub record FwCfgDmaAccess : Type 0 where
  pub control : ℕ
  pub select : ℕ
  pub length : ℕ
  pub address : ℕ

abbrev pub dma_access_size : ℕ
dma_access_size = 16

-- The bytes of a `RawFWCfgDmaAccess` as a request.
unfoldable pub from_raw : List ℕ → FwCfgDmaAccess
from_raw bytes =
    let control = from_be_bytes (take 4 bytes) in
    record {
      control = bit_and (u16 control) dma_flags;
      select = u16 (control >>> 16);
      length = from_be_bytes (take 4 (drop 4 bytes));
      address = from_be_bytes (take 8 (drop 8 bytes));
    }

unfoldable pub into_raw : FwCfgDmaAccess → List ℕ
into_raw dma =
    to_be_bytes dma.control
    ++ to_be_bytes dma.length
    ++ to_be_bytes (u32 (dma.address >>> 32))
    ++ to_be_bytes (u32 dma.address)

-- `request.control &= !flag`.
abbrev pub clear : ℕ → FwCfgDmaAccess → FwCfgDmaAccess
clear flag request = record request { control = bit_and request.control (dma_flags - flag) }

unfoldable pub handle_select : QemuFwCfg × FwCfgDmaAccess → QemuFwCfg × FwCfgDmaAccess
handle_select (self, request) =
    if has_bit request.control 3
    then (record self { selector = request.select; data_idx = 0 }, clear dma_select request)
    else (self, request)

unfoldable pub handle_skip : QemuFwCfg × FwCfgDmaAccess → QemuFwCfg × FwCfgDmaAccess
handle_skip (self, request) =
    if has_bit request.control 2
    then (record self { data_idx = request.length }, clear dma_skip request)
    else (self, request)

unfoldable pub handle_write : FwCfgDmaAccess → FwCfgDmaAccess
handle_write request =
    if has_bit request.control 4
    then (let rest = clear dma_write request in
        record rest { control = bit_or rest.control dma_error })
    else request

abbrev pub DmaState : Type 0
DmaState = QemuFwCfg × GuestAddressSpace

-- `u32::from_be`, on a little-endian host.
abbrev pub swap32 : ℕ → ℕ
swap32 v = from_be_bytes (to_le_bytes v)

module _ (address : ℕ → ℕ) (cr3 : ℕ) where
  read_guest : ℕ → ℕ → Run DmaState (List ℕ)
  read_guest addr length_ (self, space) =
      ((self, space), read_bytes address space cr3 (no_paging addr) length_)

  write_guest : ℕ → List ℕ → Run DmaState (Unit {0})
  write_guest addr bytes =
      zoom (λ s. s.1) (λ space s. (s.0, space)) (write_bytes address cr3 (no_paging addr) bytes)

  -- The bytes that were found are copied to the guest.
  copy_out : FwCfgDmaAccess → Option (List ℕ) → Run DmaState FwCfgDmaAccess
  unfolding write_guest
  copy_out request none = lift (ok (clear dma_read (record request { control = dma_error })))
  copy_out request (some found) =
      write_guest request.address found >> lift (ok (clear dma_read request))

  unfoldable pub handle_read : FwCfgDmaAccess → Run DmaState FwCfgDmaAccess
  unfolding copy_out
  handle_read request =
      if has_bit request.control 1
      then (zoom (λ s. s.0) (λ self s. (self, s.1)) (λ self. read_selector self request.length)
          >>= copy_out request)
      else lift (ok request)

  unfoldable pub perform_dma_transfer : Run DmaState (Unit {0})
  unfolding from_raw into_raw read_guest write_guest handle_read handle_select handle_skip
      handle_write
  perform_dma_transfer (self, space) =
      continue
        (λ bytes s.
          let (self', request) = handle_skip (handle_select (s.0, from_raw bytes)) in
          (handle_read request >>= λ request'.
          write_guest self.dma_addr (into_raw (handle_write request')))
            (self', s.1))
        (read_guest self.dma_addr dma_access_size (self, space))

  set_selector : ℕ → Run DmaState (Unit {0})
  set_selector value = modify (λ s. (record (s.0) { selector = value; data_idx = 0 }, s.1))

  set_dma_addr : ℕ → Run DmaState (Unit {0})
  set_dma_addr value = modify (λ s. (record (s.0) { dma_addr = value }, s.1))

  or_dma_addr : ℕ → Run DmaState (Unit {0})
  or_dma_addr low = modify (λ s. (record (s.0) { dma_addr = bit_or (s.0).dma_addr low }, s.1))

  unfoldable pub on_port_write : ℕ → PortWriteRequest → Run DmaState (Unit {0})
  unfolding set_selector set_dma_addr or_dma_addr perform_dma_transfer
  on_port_write port val =
      if port == fw_cfg_port_sel
      then (lift (try_into_u16 val) >>= set_selector)
      else if port == fw_cfg_port_data
      then lift (err not_implemented)
      else if port == fw_cfg_port_dma_low
      then (lift (try_into_u32 val) >>= λ low.
          or_dma_addr (swap32 low) >> (perform_dma_transfer >> set_dma_addr 0))
      else if port == fw_cfg_port_dma_high
      then (lift (try_into_u32 val) >>= λ high. set_dma_addr (swap32 high <<< 32))
      else lift panic

  -- The handler, with the space of the event.
  unfoldable pub on_event :
      GuestAddressSpace → QemuFwCfg → DeviceEvent → GuestAddressSpace × Outcome QemuFwCfg
  unfolding on_port_write
  on_event space self (port_read port val) = (space, answered port val (on_port_read self port val))
  on_event space self (port_write port val) =
      let ((self', space'), r) = on_port_write port val (self, space) in
      (space', accepted port val (self', r))
  on_event space self (mem_read addr request) = (space, ignored self (mem_read addr request))
  on_event space self (mem_write addr request) = (space, ignored self (mem_write addr request))
  on_event space self (host_uart_received key) = (space, ignored self (host_uart_received key))

unfoldable pub services : QemuFwCfg → List DeviceRegion
services self =
    port_io (record { start = fw_cfg_port_sel; end = fw_cfg_port_data })
    ∷ port_io (record { start = fw_cfg_port_dma_high; end = fw_cfg_port_dma_low })
    ∷ []
