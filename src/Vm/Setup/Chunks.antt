-- ===== src/Vm/Setup/Chunks.antt =====
-- The chunks of an image are the whole image, so as many rounds as it has bytes are enough.
use mythril.Prelude.{
  ℕ, suc, zero, ◌≤◌, ◌≡◌, refl, ap, ◌∙◌, arith, List, [], ◌∷◌, ◌++◌, length, take, drop,
  take-append-drop, length-drop,
}
use mythril.Memory.Address.{base_page_size}
use mythril.Vm.Setup.{chunks}

abbrev joined : List (List ℕ) → List ℕ
joined [] = []
joined (chunk ∷ rest) = chunk ++ joined rest

chunks-joined :
    (fuel : ℕ) (bytes : List ℕ) → length bytes ≤ fuel → joined (chunks fuel bytes) ≡ bytes
unfolding chunks
chunks-joined fuel [] h = refl
chunks-joined zero (b ∷ bytes) h = absurd (omega (arith, h))
chunks-joined (suc fuel) (b ∷ bytes) h =
    ap (λ l. take base_page_size (b ∷ bytes) ++ l)
      (chunks-joined fuel (drop base_page_size (b ∷ bytes))
        (omega (arith, h, length-drop 4096 (b ∷ bytes))))
    ∙ take-append-drop base_page_size (b ∷ bytes)

image_chunks : (image : List ℕ) → joined (chunks (length image) image) ≡ image
image_chunks image = chunks-joined (length image) image (omega arith)
