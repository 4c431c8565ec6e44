-- ===== src/Memory/Bytes/Each.antt =====
-- Reads of guest memory (`read_bytes` of mythril/src/memory.rs) against reads byte by byte.
use mythril.Prelude.{
  ℕ, suc, zero, ◌+◌, ◌-◌, ◌*◌, ◌/◌, ◌%◌, ◌^◌, ◌≤◌, ◌<◌, ◌≡◌, refl, sym, ◌∙◌, ap, arith, inl, inr,
  leb, Bool-cases, bit_and, List, [], ◌∷◌, ◌++◌,
}
use mythril.Prelude.Word.{u64}
use mythril.Prelude.Bits.{bit_and-ones}
use mythril.Error.{Error, Result, ok, err, panic, ◌>>=◌, Result-cases}
use mythril.Memory.Address.{
  GuestVirtAddr, no_paging, paging_4_level, as_u64, add_usize, base_page_size, pml4_index,
  pdpt_index, pd_index, large_page_offset, pml4_index-digit, pdpt_index-digit, pd_index-digit,
}
use mythril.Memory.Ept.Map.{page_of}
use mythril.Memory.Ept.Page.{find-page_of}
use mythril.Memory.Bytes.{
  GuestAddressSpace, frame_of, window, as_array, next_frame, next_array, translate_linear_address,
  translate_pl4_address, guest_entry, read_rounds, read_bytes,
}

map_nil : (r : Result (List ℕ)) → r ≡ (r >>= λ bs. ok bs)
map_nil (ok bs) = refl
map_nil (err e) = refl
map_nil panic = refl

bind_bind :
    {A B : Type 0} (r : Result A) (f : A → Result B) {C : Type 0} (g : B → Result C)
    → (r >>= f >>= g) ≡ (r >>= λ a. f a >>= g)
bind_bind (ok a) f g = refl
bind_bind (err e) f g = refl
bind_bind panic f g = refl

-- Chains whose rests end alike.
bind_same :
    {A B C : Type 0} (r : Result A) (f f' : A → Result B) (g : B → Result C)
    → ((a : A) → (f a >>= g) ≡ (f' a >>= g))
    → (r >>= f >>= g) ≡ (r >>= f' >>= g)
bind_same (ok a) f f' g h = h a
bind_same (err e) f f' g h = refl
bind_same panic f f' g h = refl

++-nil : (xs : List ℕ) → xs ++ [] ≡ xs
++-nil [] = refl
++-nil (x ∷ xs) = ap (λ ys. x ∷ ys) (++-nil xs)

module _ (address : ℕ → ℕ) (self : GuestAddressSpace) (cr3 : ℕ) where
  -- Byte `i` from an address on is found by a walk of its own.
  unfoldable pub byte_at : GuestVirtAddr → ℕ → Result ℕ
  byte_at addr i = next_array address self cr3 (add_usize addr i) >>= λ frame.
      ok (self.bytes (frame + (as_u64 addr + i) % base_page_size))

  unfoldable pub read_each : GuestVirtAddr → ℕ → ℕ → Result (List ℕ)
  read_each addr i zero = ok []
  read_each addr i (suc n) =
      let rest = read_each addr (i + 1) n in byte_at addr i >>= λ b. rest >>= λ bs. ok (b ∷ bs)

  frame_page : (g h : ℕ) → page_of g ≡ page_of h → frame_of self g ≡ frame_of self h
  frame_page g h e = find-page_of self.tables self.root g h e

  same_page :
      (a b start : ℕ)
      → start % 4096 ≡ 0
      → a / 4096 % 2 ^ 52 ≡ b / 4096 % 2 ^ 52
      → frame_of self (u64 (start + large_page_offset a))
        ≡ frame_of self (u64 (start + large_page_offset b))
  unfolding large_page_offset
  same_page a b start h e =
      frame_page (u64 (start + bit_and a 0x1fffff)) (u64 (start + bit_and b 0x1fffff))
        (omega (arith, h, e, bit_and-ones 21 a, bit_and-ones 21 b))

  module _ (aligned : (e : ℕ) → address e % base_page_size ≡ 0) where
    same_walk :
        (a b : ℕ)
        → a / 4096 % 2 ^ 52 ≡ b / 4096 % 2 ^ 52
        → next_frame address self cr3 (paging_4_level a)
          ≡ next_frame address self cr3 (paging_4_level b)
    unfolding next_frame translate_linear_address translate_pl4_address large_page_offset
    same_walk a b e =
        let l4 : pml4_index a ≡ pml4_index b =
          omega (arith, e, pml4_index-digit a, pml4_index-digit b) in
        let l3 : pdpt_index a ≡ pdpt_index b =
          omega (arith, e, pdpt_index-digit a, pdpt_index-digit b) in
        let l2 : pd_index a ≡ pd_index b = omega (arith, e, pd_index-digit a, pd_index-digit b) in
        rw (l4, l3, l2)
          (bind_same (frame_of self cr3) _ _ (frame_of self) λ pml4.
            bind_same (frame_of self (address (guest_entry self.bytes pml4 (pml4_index b)))) _ _
              (frame_of self)
              λ pdpt.
                bind_same (frame_of self (address (guest_entry self.bytes pdpt (pdpt_index b)))) _ _
                  (frame_of self)
                  λ pdt.
                    same_page a b (address (guest_entry self.bytes pdt (pd_index b)))
                      (aligned (guest_entry self.bytes pdt (pd_index b))) e)

    add_twice :
        (addr : GuestVirtAddr) (i j : ℕ) → add_usize (add_usize addr i) j ≡ add_usize addr (i + j)
    unfolding add_usize
    add_twice (no_paging a) i j = ap no_paging (omega arith)
    add_twice (paging_4_level a) i j = ap paging_4_level (omega arith)

    add_zero : (addr : GuestVirtAddr) → as_u64 addr < 2 ^ 64 → add_usize addr 0 ≡ addr
    unfolding add_usize as_u64
    add_zero (no_paging a) h = ap no_paging (omega (arith, h))
    add_zero (paging_4_level a) h = ap paging_4_level (omega (arith, h))

    same_frame :
        (addr : GuestVirtAddr) (i j : ℕ)
        → (as_u64 addr + i) / 4096 ≡ (as_u64 addr + j) / 4096
        → next_array address self cr3 (add_usize addr i)
          ≡ next_array address self cr3 (add_usize addr j)
    unfolding as_u64 add_usize next_array next_frame translate_linear_address
    same_frame (no_paging a) i j e =
        ap (λ r. r >>= as_array)
          (frame_page ((a + i) % 2 ^ 64) ((a + j) % 2 ^ 64) (omega (arith, e)))
    same_frame (paging_4_level a) i j e =
        ap (λ r. r >>= as_array)
          (same_walk ((a + i) % 2 ^ 64) ((a + j) % 2 ^ 64) (omega (arith, e)))

    module _ (addr : GuestVirtAddr) where
      chunk :
          (n i m start j : ℕ)
          → i + n ≡ j
          → ((k : ℕ) → k < n → byte_at addr (i + k) ≡ ok (self.bytes (start + k)))
          → read_each addr i (n + m)
            ≡ (read_each addr j m >>= λ bs. ok (window self.bytes start n ++ bs))
      unfolding read_each window
      chunk zero i m start j e h =
          ap (read_each addr i) (omega arith)
          ∙ map_nil (read_each addr i m)
          ∙ ap (λ x. read_each addr x m >>= λ bs. ok bs) (omega (arith, e))
      chunk (suc n) i m start j e h =
          let here : byte_at addr i ≡ ok (self.bytes start) =
            ap (byte_at addr) (omega arith)
            ∙ h 0 (omega arith)
            ∙ ap (λ x. ok (self.bytes x)) (omega arith) in
          let rest = chunk n (i + 1) m (start + 1) j (omega (arith, e)) later in
          ap (read_each addr i) {y = suc (n + m)} (omega arith)
          ∙ (rw (here, rest) (bind_bind (read_each addr j m) _ _))
        where
          later : (k : ℕ) → k < n → byte_at addr (i + 1 + k) ≡ ok (self.bytes (start + 1 + k))
          later k l =
              ap (byte_at addr) (omega arith)
              ∙ h (suc k) (omega (arith, l))
              ∙ ap (λ x. ok (self.bytes x)) (omega arith)

      module _ (e : Error) where
        failed :
            (n i : ℕ)
            → 0 < n
            → next_array address self cr3 (add_usize addr i) ≡ err e
            → read_each addr i n ≡ err e
        unfolding read_each byte_at
        failed zero i p f = absurd (omega (arith, p))
        failed (suc n) i p f = rw f refl

      panicked :
          (n i : ℕ)
          → 0 < n
          → next_array address self cr3 (add_usize addr i) ≡ panic
          → read_each addr i n ≡ panic
      unfolding read_each byte_at
      panicked zero i p f = absurd (omega (arith, p))
      panicked (suc n) i p f = rw f refl

      -- The bytes from byte `i` on that lie in the frame of address `j`.
      byte_in :
          (i j start_offset frame : ℕ)
          → next_array address self cr3 (add_usize addr j) ≡ ok frame
          → start_offset ≡ (as_u64 addr + i) % 4096
          → (as_u64 addr + j) / 4096 ≡ (as_u64 addr + i) / 4096
          → (k : ℕ) → start_offset + k < 4096
          → byte_at addr (i + k) ≡ ok (self.bytes (frame + start_offset + k))
      unfolding byte_at
      byte_in i j start_offset frame f o e k l =
          rw (same_frame addr (i + k) j (omega (arith, o, e, l)) ∙ f)
            (ap (λ a. ok (self.bytes a)) (omega (arith, o, l)))

      rounds_lem :
          (rounds i j start_offset n : ℕ)
          → 0 < n
          → start_offset ≡ (as_u64 addr + i) % 4096
          → (as_u64 addr + j) / 4096 ≡ (as_u64 addr + i) / 4096
          → start_offset + n ≤ rounds * 4096
          → read_rounds address rounds self cr3 (add_usize addr j) start_offset n
            ≡ read_each addr i n
      unfolding read_rounds read_each byte_at
      rounds_lem zero i j start_offset n p o e fuel = absurd (omega (arith, p, fuel))
      rounds_lem (suc rounds) i j start_offset n p o e fuel =
          elim (Result-cases (next_array address self cr3 (add_usize addr j))) [
            | inl (frame, f) ↦ elim (Bool-cases (leb (start_offset + n) base_page_size)) [
              | inl small ↦
                  let fits : start_offset + n ≤ 4096 = ground (arith, small) in
                  let all =
                    chunk n i 0 (frame + start_offset) (i + n) refl
                      λ k l. byte_in i j start_offset frame f o e k (omega (arith, l)) in
                  rw (f, small)
                    (sym (ap (read_each addr i) {x = n} (omega arith) ∙ all ∙ ap ok (++-nil _)))
              | inr large ↦
                  let beyond : 4096 < start_offset + n = ground (arith, large) in
                  let room = base_page_size - start_offset in
                  let next =
                    rounds_lem rounds (i + room) (j + base_page_size) 0 (n - room) (omega arith)
                      (omega (arith, o)) (omega (arith, o, e)) (omega (arith, fuel)) in
                  let all =
                    chunk room i (n - room) (frame + start_offset) (i + room) refl
                      λ k l. byte_in i j start_offset frame f o e k (omega (arith, l)) in
                  rw (f, large, add_twice addr j base_page_size, next)
                    (sym (ap (read_each addr i) {x = n} (omega arith) ∙ all))
            ]
            | inr (inl (e', f)) ↦ rw f (sym (failed e' n i p (same_frame addr i j (sym e) ∙ f)))
            | inr (inr f) ↦ rw f (sym (panicked n i p (same_frame addr i j (sym e) ∙ f)))
          ]

      -- Where the entries of the guest's tables hold addresses of pages, a read of at least one byte takes
      -- the bytes that reads of single bytes give, each through a walk for its own address, and fails or
      -- panics as the first of these that does.
      pub read_bytes_lem :
          (length_ : ℕ)
          → 0 < length_
          → as_u64 addr < 2 ^ 64
          → read_bytes address self cr3 addr length_ ≡ read_each addr 0 length_
      unfolding read_bytes
      read_bytes_lem length_ p w =
          ap (λ a. read_rounds address (length_ / 4096 + 2) self cr3 a (as_u64 addr % 4096) length_)
            (sym (add_zero addr w))
          ∙ rounds_lem (length_ / 4096 + 2) 0 0 (as_u64 addr % 4096) length_ p (omega arith) refl
              (omega arith)
