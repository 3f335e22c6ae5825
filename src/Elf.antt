-- ===== src/Elf.antt =====
-- The program loader, kernel/user/elf.c and elf.h: a file in memory, read little end first, whose
-- segments are put into an address space.
use angl_os.Base.{
  ℕ, zero, suc, ◌+◌, ◌-◌, ◌*◌, ◌^◌, Bool, not, ◌&&◌, ◌||◌, Option, none, some, bit_and, bit_or, ltb,
  ◌==◌, if◌then◌else◌, u64, ◌>>=◌,
}
use angl_os.CString.{Memory, memset, memcpy}
use angl_os.Paging.{Paging}
use angl_os.AddressSpace.{AddressSpace, address_space_add_entry, address_space_change_flags}

-- `n` bytes from an address on
pub read_le : ℕ → ℕ → Memory → ℕ
read_le zero a m = 0
read_le (suc n) a m = m a + 256 * read_le n (a + 1) m

-- The fields of `elf_header_t` that the loader reads.
abbrev pub has_magic : ℕ → Memory → Bool
has_magic file m = m file == 0x7F && m (file + 1) == 69 && m (file + 2) == 76 && m (file + 3) == 70

abbrev pub program_entry_pos : ℕ → Memory → ℕ
program_entry_pos file m = read_le 8 (file + 24) m

abbrev pub program_header_table_pos : ℕ → Memory → ℕ
program_header_table_pos file m = read_le 8 (file + 32) m

abbrev pub program_header_num_entries : ℕ → Memory → ℕ
program_header_num_entries file m = read_le 2 (file + 56) m

-- `elf_program_t`
pub record ElfProgram : Type 0 where
  pub type : ℕ
  pub flags : ℕ
  pub offset : ℕ
  pub vaddr : ℕ
  pub size_mem : ℕ

pub read_program : ℕ → Memory → ElfProgram
read_program a m = record {
  type = read_le 4 a m;
  flags = read_le 4 (a + 4) m;
  offset = read_le 8 (a + 8) m;
  vaddr = read_le 8 (a + 16) m;
  size_mem = read_le 8 (a + 40) m;
}

-- the flags of a segment in the address space
pub segment_flags : ElfProgram → ℕ
segment_flags p =
    let user : ℕ = 16 in
    let write = if bit_and p.flags 2 == 0 then user else bit_or user 2 in
    if bit_and p.flags 1 == 0 then write else bit_or write 1

-- The loader works on an address space, the page tables and the memory.
pub record Loader : Type 0 where
  pub space : AddressSpace
  pub paging : Paging
  pub memory : Memory

-- one segment; `type` is the source's variable, which is never set
pub load_segment : ℕ → ℕ → ℕ → ElfProgram → Loader → Option Loader
load_segment type file i p s = do
  (space, paging) ←
      address_space_add_entry s.space type (bit_or (bit_or 16 2) 1) p.size_mem p.vaddr s.paging
  let cleared = memset p.vaddr 0 p.size_mem s.memory
  let copied = memcpy p.vaddr (u64 (file + p.offset)) p.size_mem cleared
  (old, space', paging') ← address_space_change_flags space i (segment_flags p) paging
  some (record { space = space'; paging = paging'; memory = copied })

-- the loop of `elfLoad` from segment `i` on; the result is -1 at a segment that is not to be loaded
pub load_segments : ℕ → ℕ → ℕ → ℕ → ℕ → Loader → Option (ℕ × Loader)
load_segments zero type file segments i s = none
load_segments (suc fuel) type file segments i s =
    let p = read_program (segments + 56 * i) s.memory in
    let rest =
      load_segment type file i p s >>= λ t. load_segments fuel type file segments (i + 1) t in
    if ltb i (program_header_num_entries file s.memory)
    then (if p.type == 1 then rest else some (2 ^ 64 - 1, s))
    else some (program_entry_pos file s.memory, s)

-- `elfLoad`
pub elf_load : ℕ → ℕ → ℕ → Loader → Option (ℕ × Loader)
elf_load fuel type file s =
    let segments = u64 (file + program_header_table_pos file s.memory) in
    if file == 0 || not (has_magic file s.memory)
    then some (2 ^ 64 - 1, s)
    else load_segments fuel type file segments 0 s
