-- ===== src/Pmm/Layout.antt =====
-- The bitmaps of kernel/mm/pmm/pmm.c in memory, and the bit of a block after another is set or
-- cleared.
use angl_os.Base.{
  ℕ, ◌+◌, ◌*◌, ◌/◌, ◌%◌, ◌≤◌, ◌<◌, ◌≡◌, ◌≢◌, refl, inl, inr, ap, ◌∙◌, Bool, true, false, ◌&&◌,
  bit_and, bit_or, arith, ◌==◌, if◌then◌else◌, u8, not64, ◌>>>◌, ◌<<<◌, Bool-cases, ==_iff,
  all_below, all_below_sound, update, update_self, update_ne,
}
use angl_os.Pmm.{Pmm, set_bit, clear_bit, check_bit, mark_used, mark_free, is_free, set_count}
use native.Mathlib.Decide.{dec_lt, ℕ_discrete}

-- The bitmaps lie one behind the other, each with half the bytes of the one before (as when the
-- memory is a multiple of 2 MiB), and the memory holds bytes.
pub record Layout (s : Pmm) : Type 0 where
  pub byte : (a : ℕ) → s.memory a < 256
  pub apart :
      (l m : ℕ) → l < m → m < 7 → (s.bitmaps l).base + (s.bitmaps l).size ≤ (s.bitmaps m).base
  pub halves : (l : ℕ) → l < 6 → 2 * (s.bitmaps (l + 1)).size ≡ (s.bitmaps l).size

abbrev set_agrees : ℕ → ℕ → ℕ → Bool
set_agrees v b c =
    bit_and (u8 (bit_or v (1 <<< b)) >>> c) 1 == (if b == c then 1 else bit_and (v >>> c) 1)

abbrev clear_agrees : ℕ → ℕ → ℕ → Bool
clear_agrees v b c =
    bit_and (u8 (bit_and v (not64 (1 <<< b))) >>> c) 1
    == (if b == c then 0 else bit_and (v >>> c) 1)

set_table : all_below 8 (λ c. all_below 8 (λ b. all_below 256 (λ v. set_agrees v b c))) ≡ true
unfolding all_below
set_table = refl

clear_table : all_below 8 (λ c. all_below 8 (λ b. all_below 256 (λ v. clear_agrees v b c))) ≡ true
unfolding all_below
clear_table = refl

set_lem :
    (v b c : ℕ)
    → v < 256
    → b < 8
    → c < 8
    → bit_and (u8 (bit_or v (1 <<< b)) >>> c) 1 ≡ (if b == c then 1 else bit_and (v >>> c) 1)
set_lem v b c hv hb hc =
    (==_iff _ _).0
      (all_below_sound 256 _ v (all_below_sound 8 _ b (all_below_sound 8 _ c set_table hc) hb) hv)

clear_lem :
    (v b c : ℕ)
    → v < 256
    → b < 8
    → c < 8
    → bit_and (u8 (bit_and v (not64 (1 <<< b))) >>> c) 1
      ≡ (if b == c then 0 else bit_and (v >>> c) 1)
clear_lem v b c hv hb hc =
    (==_iff _ _).0
      (all_below_sound 256 _ v (all_below_sound 8 _ b (all_below_sound 8 _ c clear_table hc) hb) hv)

module _ (memory : ℕ → ℕ) (byte : (a : ℕ) → memory a < 256) (a j b k : ℕ) where
  set_bit_here :
      a + j / 8 ≡ b + k / 8
      → check_bit (set_bit memory a j) b k ≡ (if j % 8 == k % 8 then 1 else check_bit memory b k)
  unfolding check_bit set_bit
  set_bit_here e =
      rw (e, update_self memory (b + k / 8))
        (set_lem (memory (b + k / 8)) (j % 8) (k % 8) (byte _) (omega arith) (omega arith))

  clear_bit_here :
      a + j / 8 ≡ b + k / 8
      → check_bit (clear_bit memory a j) b k ≡ (if j % 8 == k % 8 then 0 else check_bit memory b k)
  unfolding check_bit clear_bit
  clear_bit_here e =
      rw (e, update_self memory (b + k / 8))
        (clear_lem (memory (b + k / 8)) (j % 8) (k % 8) (byte _) (omega arith) (omega arith))

  set_bit_there : a + j / 8 ≢ b + k / 8 → check_bit (set_bit memory a j) b k ≡ check_bit memory b k
  unfolding check_bit set_bit
  set_bit_there ne = rw (update_ne memory (a + j / 8) (b + k / 8) _ ne)

  clear_bit_there :
      a + j / 8 ≢ b + k / 8 → check_bit (clear_bit memory a j) b k ≡ check_bit memory b k
  unfolding check_bit clear_bit
  clear_bit_there ne = rw (update_ne memory (a + j / 8) (b + k / 8) _ ne)

-- Two blocks are the same.
abbrev pub same_block : ℕ → ℕ → ℕ → ℕ → Bool
same_block l j m k = l == m && j == k

module _ (l j m k : ℕ) (s : Pmm) (lay : Layout s) (hl : l < 7) (hm : m < 7)
    (hj : j < (s.bitmaps l).size * 8) (hk : k < (s.bitmaps m).size * 8) where
  abbrev at_j : ℕ
  at_j = (s.bitmaps l).base + j / 8

  abbrev at_k : ℕ
  at_k = (s.bitmaps m).base + k / 8

  -- Blocks whose bits share a byte are of one level.
  one_level : at_j ≡ at_k → l ≡ m
  one_level e = elim (dec_lt l m) [
    | yes lt ↦ absurd (omega (arith, lay.apart l m lt hm))
    | no ge ↦ elim (dec_lt m l) [
      | yes lt ↦ absurd (omega (arith, lay.apart m l lt hl))
      | no ge' ↦ omega arith
    ]
  ]

  same_byte : at_j ≡ at_k → (j % 8 == k % 8) ≡ same_block l j m k
  same_byte e =
      let e' = one_level e in
      let bases : (s.bitmaps l).base ≡ (s.bitmaps m).base = ap (λ n. (s.bitmaps n).base) e' in
      ground arith

  other_byte : at_j ≢ at_k → same_block l j m k ≡ false
  other_byte ne = elim (Bool-cases (same_block l j m k)) [
    | inr e ↦ e
    | inl e ↦
        let el : l ≡ m = ground arith in
        let ej : j ≡ k = ground arith in
        absurd
          (ne (ap (λ n. (s.bitmaps n).base + j / 8) el ∙ ap (λ n. (s.bitmaps m).base + n / 8) ej))
  ]

  -- A block that is marked used is used, and no other block changes.
  pub is_free-mark_used :
      is_free m k (mark_used l j s) ≡ (if same_block l j m k then false else is_free m k s)
  unfolding is_free mark_used
  is_free-mark_used = elim (ℕ_discrete at_j at_k) [
    | yes e ↦
        rw (set_bit_here s.memory lay.byte (s.bitmaps l).base j (s.bitmaps m).base k e, same_byte e)
          (ground arith)
    | no ne ↦ rw (
      set_bit_there s.memory lay.byte (s.bitmaps l).base j (s.bitmaps m).base k ne,
      other_byte ne,
    )
  ]

  -- A block that is marked free is free, and no other block changes.
  pub is_free-mark_free :
      is_free m k (mark_free l j s) ≡ (if same_block l j m k then true else is_free m k s)
  unfolding is_free mark_free
  is_free-mark_free = elim (ℕ_discrete at_j at_k) [
    | yes e ↦
        rw
          (
            clear_bit_here s.memory lay.byte (s.bitmaps l).base j (s.bitmaps m).base k e,
            same_byte e,
          )
          (ground arith)
    | no ne ↦ rw (
      clear_bit_there s.memory lay.byte (s.bitmaps l).base j (s.bitmaps m).base k ne,
      other_byte ne,
    )
  ]

-- Writing a counter changes no bit.
pub is_free-set_count : (m k i v : ℕ) (s : Pmm) → is_free m k (set_count i v s) ≡ is_free m k s
unfolding is_free set_count
is_free-set_count m k i v s = ground arith

update-lt : (f : ℕ → ℕ) (i v : ℕ) → ((a : ℕ) → f a < 256) → v < 256 → (a : ℕ) → update f i v a < 256
update-lt f i v h lt a = ground (arith, h a)

-- The layout stays as it is.
pub mark_used-Layout : (l j : ℕ) (s : Pmm) → Layout s → Layout (mark_used l j s)
unfolding mark_used set_bit
mark_used-Layout l j s lay = record {
  byte = update-lt s.memory _ _ lay.byte (omega arith);
  apart = lay.apart;
  halves = lay.halves;
}

pub mark_free-Layout : (l j : ℕ) (s : Pmm) → Layout s → Layout (mark_free l j s)
unfolding mark_free clear_bit
mark_free-Layout l j s lay = record {
  byte = update-lt s.memory _ _ lay.byte (omega arith);
  apart = lay.apart;
  halves = lay.halves;
}

-- Nor does a counter move a bitmap.
set_count-base : (i v n : ℕ) (s : Pmm) → ((set_count i v s).bitmaps n).base ≡ (s.bitmaps n).base
unfolding set_count
set_count-base i v n s = ground arith

set_count-size : (i v n : ℕ) (s : Pmm) → ((set_count i v s).bitmaps n).size ≡ (s.bitmaps n).size
unfolding set_count
set_count-size i v n s = ground arith

set_count-memory : (i v : ℕ) (s : Pmm) → (set_count i v s).memory ≡ s.memory
unfolding set_count
set_count-memory i v s = refl

pub set_count-Layout : (i v : ℕ) (s : Pmm) → Layout s → Layout (set_count i v s)
set_count-Layout i v s lay = record {
  byte = λ a. rw set_count-memory (lay.byte a);
  apart = λ l m lt hm.
      rw (set_count-base i v l, set_count-size i v l, set_count-base i v m) (lay.apart l m lt hm);
  halves = λ l hl. rw (set_count-size i v (l + 1), set_count-size i v l) (lay.halves l hl);
}
