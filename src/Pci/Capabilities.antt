-- ===== src/Pci/Capabilities.antt =====
-- `pciGetCapabilityOffset` of kernel/device/pci/pci.c on the linked list of a function's capabilities.
use angl_os.Base.{
  ℕ, zero, suc, ◌+◌, ◌<◌, ◌≡◌, ◌≢◌, refl, ap, ◌∙◌, Bool, some, List, [], ◌∷◌, arith, ◌==◌, ==_ne,
  if◌then◌else◌, if_cases, u8, length,
}
use angl_os.Pci.{
  Bridge, Function, config_read_byte, find_capability, get_cap_pointer, get_capability_offset,
}

-- From capability `c` on the links lead over the others to the end.
pub data Chain (bridge : Bridge) (f : Function) (s : bridge.Config) : ℕ → List ℕ → Type 0 where
  last : (c : ℕ) → config_read_byte bridge f (u8 (c + 1)) s ≡ 0 → Chain bridge f s c []
  more :
      (c next : ℕ) (others : List ℕ)
      → config_read_byte bridge f (u8 (c + 1)) s ≡ next
      → next ≢ 0
      → Chain bridge f s next others
      → Chain bridge f s c (next ∷ others)

-- the first capability with this number, or 0
abbrev pub first_with : (ℕ → ℕ) → ℕ → List ℕ → ℕ
first_with number cap [] = 0
first_with number cap (c ∷ cs) =
    let rest = first_with number cap cs in if number c == cap then c else rest

module _ (bridge : Bridge) (f : Function) (s : bridge.Config) (cap : ℕ) where
  find_capability-end : (fuel c : ℕ) → 0 < fuel → find_capability bridge fuel f cap c 0 s ≡ some 0
  unfolding find_capability
  find_capability-end zero c h = absurd (omega arith)
  find_capability-end (suc fuel) c h = refl

  find_capability-Chain :
      (fuel c next : ℕ) (cs : List ℕ)
      → Chain bridge f s c cs
      → next ≢ 0
      → length (c ∷ cs) < fuel
      → find_capability bridge fuel f cap c next s
        ≡ some (first_with (λ o. config_read_byte bridge f o s) cap (c ∷ cs))
  unfolding find_capability
  find_capability-Chain zero c next cs chain ne lt = absurd (omega arith)
  find_capability-Chain (suc fuel) c next [] (last c' e) ne lt =
      let after = config_read_byte bridge f (u8 (c + 1)) s in
      let rest = find_capability bridge fuel f cap after after s in
      let found : Bool = config_read_byte bridge f c s == cap in
      let at_end : rest ≡ some 0 =
        ap (λ a. find_capability bridge fuel f cap a a s) e
        ∙ find_capability-end fuel 0 (omega arith) in
      ap (λ z. if z then some 0 else (if found then some c else rest)) (==_ne next 0 ne)
      ∙ if_cases (λ z. (if found then some c else rest) ≡ some z) found
          (λ t. ap (λ z. if z then some c else rest) t)
          (λ t. ap (λ z. if z then some c else rest) t ∙ at_end)
  find_capability-Chain (suc fuel) c next (n ∷ others) (more c' n' others' e some_next chain) ne
        lt =
      let after = config_read_byte bridge f (u8 (c + 1)) s in
      let rest = find_capability bridge fuel f cap after after s in
      let found : Bool = config_read_byte bridge f c s == cap in
      let behind : rest ≡ some (first_with (λ o. config_read_byte bridge f o s) cap (n ∷ others)) =
        ap (λ a. find_capability bridge fuel f cap a a s) e
        ∙ find_capability-Chain fuel n n others chain some_next (omega arith) in
      ap (λ z. if z then some 0 else (if found then some c else rest)) (==_ne next 0 ne)
      ∙ if_cases (λ z. (if found then some c else rest) ≡ some z) found
          (λ t. ap (λ z. if z then some c else rest) t)
          (λ t. ap (λ z. if z then some c else rest) t ∙ behind)

  -- `pciGetCapabilityOffset` of a function whose capabilities form a chain comes to its end, after one round more
  -- than there are capabilities, and returns the first one with the number asked for, or 0.
  pub get_capability_offset_lem :
      (fuel : ℕ) (cs : List ℕ)
      → Chain bridge f s (get_cap_pointer bridge f s) cs
      → length (get_cap_pointer bridge f s ∷ cs) < fuel
      → get_capability_offset bridge fuel f cap s
        ≡ some
            (first_with (λ o. config_read_byte bridge f o s) cap (get_cap_pointer bridge f s ∷ cs))
  unfolding get_capability_offset
  get_capability_offset_lem fuel cs chain lt =
      find_capability-Chain fuel (get_cap_pointer bridge f s) 255 cs chain (λ e. omega arith) lt
