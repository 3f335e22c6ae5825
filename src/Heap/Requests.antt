-- ===== src/Heap/Requests.antt =====
-- The words of a request to kernel/mm/heap/heap.c.
use angl_os.Base.{
  ℕ, ◌+◌, ◌-◌, ◌*◌, ◌/◌, ◌%◌, ◌^◌, ◌≤◌, ◌<◌, ◌≡◌, refl, inl, inr, ap, ◌∙◌, Bool, false, none, some,
  arith, bit_and, ltb, u64, not64, if◌then◌else◌, Bool-cases,
}
use angl_os.Base.Bits.Fields.{bit_and_fields, bit_and_mask}
use angl_os.Heap.{align, alignment, request_words, min_block_size_words, max}

-- the next multiple of 16
pub align_lem : (size : ℕ) → size < 2 ^ 63 → align size ≡ (size + 15) / 16 * 16
unfolding align
align_lem size small =
    let h = (size + 15) / 16 in
    let exact : u64 (size + 16 - 1) ≡ h * 2 ^ 4 + (size + 15) % 16 = omega arith in
    let mask : not64 (alignment - 1) ≡ (2 ^ 60 - 1) * 2 ^ 4 = refl in
    ap (λ k. bit_and k (not64 (alignment - 1))) exact
    ∙ bit_and_fields 4 h ((size + 15) % 16) (2 ^ 60 - 1) (omega arith)
    ∙ ap (λ k. k * 2 ^ 4) (bit_and_mask 60 h)
    ∙ omega arith

-- A request has room for its bytes and two tags, in an even number of words that is not below eight.
pub request_words_lem :
    (size : ℕ)
    → size < 2 ^ 60
    → (words : ℕ) × (request_words size ≡ some words)
      × (8 ≤ words)
      × (size + 16 ≤ 8 * words)
      × (8 * words ≤ size + 64)
      × (words % 2 ≡ 0)
unfolding request_words
request_words_lem size small =
    let fits : u64 (size + 16) ≡ size + 16 = omega arith in
    let exact : align (u64 (size + 16)) ≡ (size + 31) / 16 * 16 =
      ap align fits ∙ align_lem (size + 16) (omega arith) ∙ omega arith in
    let bsize = (size + 31) / 16 * 16 in
    let no_wrap : ltb bsize size ≡ false = ground arith in
    let words = max min_block_size_words (bsize / 8) in
    let eq : request_words size ≡ some words =
      ap (λ k. if ltb k size then none else some (max min_block_size_words (k / 8))) exact
      ∙ ap (λ (z : Bool). if z then none else some words) no_wrap in
    elim (Bool-cases (ltb (bsize / 8) min_block_size_words)) [
      | inl few ↦
          let e : words ≡ 8 = ap (λ z. if z then min_block_size_words else bsize / 8) few in
          (words, eq, omega arith, ground arith, omega arith, omega arith)
      | inr many ↦
          let e : words ≡ bsize / 8 =
            ap (λ z. if z then min_block_size_words else bsize / 8) many in
          (words, eq, ground arith, omega arith, omega arith, omega arith)
    ]
