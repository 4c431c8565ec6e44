-- ===== src/Virtdev/QemuFwCfg/Reads.antt =====
-- Reads of the selected item through the data port.
use mythril.Prelude.{
  ℕ, ◌+◌, ◌<◌, ◌≤◌, ◌≡◌, refl, arith, ◌⊎◌, inl, inr, ltb, List, [], ◌∷◌, none, some, compare,
  length, take, drop, length-take, length-drop, Bool-cases, Option-cases,
}
use mythril.Prelude.BTreeMap
use mythril.Error.{ok, panic}
use mythril.Virtdev.PortRead.{
  PortReadRequest, one_byte, two_bytes, four_bytes, as_slice, len, copy_from_slice,
}
use mythril.Virtdev.PortRead.Codec.{filled, copy_from_u32-filled}
use mythril.Virtdev.QemuFwCfg.{QemuFwCfg, fw_cfg_port_data, read_selector, on_port_read}

-- A copy of just as many bytes as the request has.
copy_from_slice-length :
    (val : PortReadRequest) (bytes : List ℕ)
    → length bytes ≡ len val
    → (r : PortReadRequest) × (copy_from_slice val bytes ≡ ok r) × (as_slice r ≡ bytes)
unfolding copy_from_slice len as_slice
copy_from_slice-length (one_byte a) (x ∷ []) h = (one_byte x, refl, refl)
copy_from_slice-length (two_bytes a b) (x ∷ y ∷ []) h = (two_bytes x y, refl, refl)
copy_from_slice-length (four_bytes a b c d) (x ∷ y ∷ z ∷ w ∷ []) h =
    (four_bytes x y z w, refl, refl)
copy_from_slice-length _ _ h = absurd (omega arith)

length-window :
    (n i : ℕ) (bytes : List ℕ) → i + n ≤ length bytes → length (take n (drop i bytes)) ≡ n
length-window n i bytes h = omega (arith, length-take n (drop i bytes), length-drop i bytes)

-- A read of the data port: where the selected item has as many bytes left as the request, they fill it
-- and the position moves past them; where fewer are left it panics; and where no item is selected
-- the request is filled with zeros and the device is as before.
pub data_read_lem :
    (self : QemuFwCfg) (val : PortReadRequest)
    → let found = BTreeMap.get compare self.selector self.items in
      let after = on_port_read self fw_cfg_port_data val in
      ((bytes : List ℕ) × (found ≡ some bytes)
        × (self.data_idx + len val ≤ length bytes)
        × (after.0 ≡ record self { data_idx = self.data_idx + len val })
        × ((r : PortReadRequest) × (after.1 ≡ ok r)
            × (as_slice r ≡ take (len val) (drop self.data_idx bytes))))
      ⊎ (((bytes : List ℕ) × (found ≡ some bytes)
            × (length bytes < self.data_idx + len val)
            × (after.1 ≡ panic))
          ⊎ ((found ≡ none) × (after ≡ (self, ok (filled val 0)))))
unfolding on_port_read read_selector
data_read_lem self val = elim (Option-cases (BTreeMap.get compare self.selector self.items)) [
  | inl none_ ↦ inr (inr (none_, rw (none_, copy_from_u32-filled val 0) refl))
  | inr (bytes, e) ↦ elim (Bool-cases (ltb (length bytes) (self.data_idx + len val))) [
    | inl past ↦ inr (inl (bytes, e, ground arith, rw (e, past) refl))
    | inr inside ↦
        let bound : self.data_idx + len val ≤ length bytes = ground arith in
        let copy =
          copy_from_slice-length val (take (len val) (drop self.data_idx bytes))
            (length-window (len val) self.data_idx bytes bound) in
        inl (bytes, e, bound, rw (e, inside) refl, (copy.0, rw (e, inside) copy.1, copy.2))
  ]
]
