-- ===== src/Tests/IoApic.antt =====
-- mythril/src/ioapic.rs at concrete inputs.
use mythril.Prelude.{
  ℕ, ◌+◌, ◌-◌, ◌≤◌, ◌≡◌, refl, arith, ◌⊎◌, List, [], ◌∷◌, true, false, ◌==◌, if◌then◌else◌, some,
  get_elem?, zero, suc,
}
use mythril.Error.{ok, err, invalid_value, not_found}
use mythril.IoApic.{
  IoApic, read_ioredtbl, write_ioredtbl, in_ivec_range, max_redirection_entry, map_gsi_vector,
}
use mythril.IoApic.RedTbl.{
  IoRedTblEntry, idle, lowest_priority, logical, active_low, level, try_from, into_u64, validate,
  delivery_mode_from, destination_mode_from, delivery_status_from, pin_polarity_from,
  trigger_mode_from,
}
use mythril.IoApic.RedTbl.Codec.{into_u64-try_from, try_from-into_u64}
use mythril.IoApic.Table.{IsWritable, write_ioredtbl_lem}
use mythril.IoApic.Route.{NoneInRange, routed, map_gsi_vector_lem, last_entry_not_found}

-- An I/O APIC of version 0x11 with 24 entries, all zero.
abbrev apic : IoApic
apic = record { registers = λ r. if r == 1 then 0x00170011 else 0; gsi_base = 0 }

abbrev level_entry : IoRedTblEntry
level_entry = record {
  vector = 0x30;
  delivery_mode = lowest_priority;
  destination_mode = logical;
  delivery_status = idle;
  pin_polarity = active_low;
  remote_irr = false;
  trigger_mode = level;
  interrupt_mask = true;
  destination = 0xf0;
}

try_from-into_u64_example : try_from (into_u64 level_entry) ≡ ok level_entry
try_from-into_u64_example =
    try_from-into_u64 level_entry (omega arith) (omega arith) (unfold validate in refl)

level_entry-read : try_from 0xf000_0000_0001_a930 ≡ ok level_entry
unfolding try_from delivery_mode_from destination_mode_from delivery_status_from pin_polarity_from
    trigger_mode_from validate
level_entry-read = refl

into_u64-try_from_example : into_u64 level_entry ≡ 0xf000_0000_0001_a930
into_u64-try_from_example =
    into_u64-try_from 0xf000_0000_0001_a930 level_entry (omega arith) level_entry-read

write_ioredtbl_lem_example :
    (((7 ≤ 23) × IsWritable level_entry)
      × ((after : IoApic) × (write_ioredtbl apic 7 level_entry ≡ (after, ok tt))
          × ((other : ℕ)
              → read_ioredtbl after other
                ≡ (if other == 7 then ok level_entry else read_ioredtbl apic other))))
    ⊎ (((7 ≤ 23) × IsWritable level_entry → ⊥)
        × (write_ioredtbl apic 7 level_entry ≡ (apic, err invalid_value)))
write_ioredtbl_lem_example =
    write_ioredtbl_lem apic 7 level_entry (omega arith) (omega arith) (unfold validate in refl)

one_apic_size :
    (k : ℕ) (a : IoApic) → get_elem? (apic ∷ []) k ≡ some a → max_redirection_entry a ≤ 24
unfolding max_redirection_entry
one_apic_size zero a h = ground arith
one_apic_size (suc k) a h = cc

map_gsi_vector_lem_example :
    ((k : ℕ) × (a a' : IoApic) × (ioapics' : List IoApic) × (in_ivec_range a 9 ≡ true)
      × (map_gsi_vector (apic ∷ []) 9 0x41 2 ≡ (ioapics', ok tt))
      × (get_elem? (apic ∷ []) k ≡ some a)
      × ((other : ℕ)
          → read_ioredtbl a' other
            ≡ (if other == 9 - a.gsi_base then ok (routed 0x41 2) else read_ioredtbl a other))
      × ((j : ℕ) → get_elem? ioapics' j ≡ (if j == k then some a' else get_elem? (apic ∷ []) j)))
    ⊎ (NoneInRange (apic ∷ []) 9
        × (map_gsi_vector (apic ∷ []) 9 0x41 2 ≡ (apic ∷ [], err not_found)))
map_gsi_vector_lem_example =
    map_gsi_vector_lem (apic ∷ []) 9 0x41 2 (omega arith) (omega arith) one_apic_size

last_entry_not_found_example :
    map_gsi_vector (apic ∷ []) (0 + max_redirection_entry apic) 0x41 2 ≡ (apic ∷ [], err not_found)
last_entry_not_found_example = last_entry_not_found apic 0x41 2
