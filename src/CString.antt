-- ===== src/CString.antt =====
-- The memory and string functions of kernel/libc/string.c on a memory of bytes. A pointer is a
-- number and 0 is `NULL`; an `int` is a word of 32 bits. A loop that runs up to a terminator takes
-- fuel, and returns nothing where the terminator is further away.
pub mod Copies
pub mod Terminated
mod Tests
use angl_os.Base.{
  ℕ, zero, suc, ◌+◌, ◌-◌, ◌*◌, ◌%◌, ◌^◌, Bool, true, false, not, ◌&&◌, Option, none, some, ltb,
  ◌==◌, if◌then◌else◌, u8, update, ◌>>=◌,
}

abbrev pub Memory : Type 0
Memory = ℕ → ℕ

-- a `signed char` as an `int`, and the difference of two
pub sign_extend : ℕ → ℕ
sign_extend c = if ltb c 128 then c else c + (2 ^ 32 - 256)

abbrev pub sub32 : ℕ → ℕ → ℕ
sub32 a b = (a + (2 ^ 32 - b)) % 2 ^ 32

-- `memchr`
pub memchr : ℕ → ℕ → ℕ → Memory → ℕ
memchr s c zero m = 0
memchr s c (suc n) m = let rest = memchr (s + 1) c n m in if m s == u8 c then s else rest

-- `memcmp`
pub memcmp : ℕ → ℕ → ℕ → Memory → ℕ
memcmp s1 s2 zero m = 0
memcmp s1 s2 (suc n) m =
    let rest = memcmp (s1 + 1) (s2 + 1) n m in
    if m s1 == m s2 then rest else sub32 (sign_extend (m s1)) (sign_extend (m s2))

-- `memcpy`, and the upward loop of `memmove`
pub copy_up : ℕ → ℕ → ℕ → Memory → Memory
copy_up dest src zero m = m
copy_up dest src (suc n) m = copy_up (dest + 1) (src + 1) n (update m dest (m src))

-- the downward loop of `memmove`, at `pd` and `ps` above the last bytes
pub copy_down : ℕ → ℕ → ℕ → Memory → Memory
copy_down dest src zero m = m
copy_down dest src (suc n) m = copy_down dest src n (update m (dest + n) (m (src + n)))

pub memcpy : ℕ → ℕ → ℕ → Memory → Memory
memcpy dest src n m = copy_up dest src n m

-- `memmove`
pub memmove : ℕ → ℕ → ℕ → Memory → Memory
memmove dest src n m = if ltb src dest then copy_down dest src n m else copy_up dest src n m

-- `memset`
pub memset : ℕ → ℕ → ℕ → Memory → Memory
memset s c zero m = m
memset s c (suc n) m = memset (s + 1) c n (update m s (u8 c))

-- `strlen`
pub strlen : ℕ → ℕ → Memory → Option ℕ
strlen zero s m = none
strlen (suc fuel) s m = if m s == 0 then some 0 else do n ← strlen fuel (s + 1) m; some (n + 1)

-- `strnlen`
pub strnlen : ℕ → ℕ → Memory → ℕ
strnlen s zero m = 0
strnlen s (suc maxlen) m = let rest = strnlen (s + 1) maxlen m in if m s == 0 then 0 else rest + 1

-- `while (*dest++ = *src++)` of `strcpy` and `strcat`
pub strcpy : ℕ → ℕ → ℕ → Memory → Option Memory
strcpy zero dest src m = none
strcpy (suc fuel) dest src m =
    let rest = strcpy fuel (dest + 1) (src + 1) (update m dest (m src)) in
    if m src == 0 then some (update m dest 0) else rest

-- `while (*dest) dest++;`
pub end_of : ℕ → ℕ → Memory → Option ℕ
end_of zero s m = none
end_of (suc fuel) s m = let rest = end_of fuel (s + 1) m in if m s == 0 then some s else rest

-- `strcat`
pub strcat : ℕ → ℕ → ℕ → Memory → Option Memory
strcat fuel dest src m = do at ← end_of fuel dest m; strcpy fuel at src m

-- `strchr`
pub strchr : ℕ → ℕ → ℕ → Memory → Option ℕ
strchr zero s c m = none
strchr (suc fuel) s c m =
    let rest = strchr fuel (s + 1) c m in
    if m s == u8 c then some s else (if m s == 0 then some 0 else rest)

-- `strcmp`
pub strcmp : ℕ → ℕ → ℕ → Memory → Option ℕ
strcmp zero s1 s2 m = none
strcmp (suc fuel) s1 s2 m =
    let rest = strcmp fuel (s1 + 1) (s2 + 1) m in
    if m s1 == 0
    then some 0
    else (if m s1 == m s2 then rest else some (sub32 (sign_extend (m s1)) (sign_extend (m s2))))

-- `strcspn`
pub strcspn : ℕ → ℕ → ℕ → Memory → Option ℕ
strcspn zero s1 s2 m = none
strcspn (suc fuel) s1 s2 m = if m s1 == 0 then some 0 else do
  found ← strchr (suc fuel) s2 (m s1) m
  n ← strcspn fuel (s1 + 1) s2 m
  some (if found == 0 then n + 1 else 0)

-- `strspn`
pub strspn : ℕ → ℕ → ℕ → Memory → Option ℕ
strspn zero s1 s2 m = none
strspn (suc fuel) s1 s2 m = if m s1 == 0 then some 0 else do
  found ← strchr (suc fuel) s2 (m s1) m
  if found == 0 then some 0 else do n ← strspn fuel (s1 + 1) s2 m; some (n + 1)

-- the second loop of `strncat`
pub append_up_to : ℕ → ℕ → ℕ → Memory → Memory
append_up_to dest src zero m = update m dest 0
append_up_to dest src (suc n) m =
    let rest = append_up_to (dest + 1) (src + 1) n (update m dest (m src)) in
    if m src == 0 then update m dest 0 else rest

-- `strncat`
pub strncat : ℕ → ℕ → ℕ → ℕ → Memory → Option Memory
strncat fuel dest src n m = do at ← end_of fuel dest m; some (append_up_to at src n m)

-- `strncmp`
pub strncmp : ℕ → ℕ → ℕ → Memory → ℕ
strncmp s1 s2 zero m = 0
strncmp s1 s2 (suc n) m =
    let rest = strncmp (s1 + 1) (s2 + 1) n m in if m s1 == m s2 then rest else sub32 (m s1) (m s2)

-- `strncpy`
pub strncpy : ℕ → ℕ → ℕ → Memory → Memory
strncpy dest src zero m = m
strncpy dest src (suc n) m =
    let rest = strncpy (dest + 1) (src + 1) n (update m dest (m src)) in
    if m src == 0 then memset (dest + 1) 0 n (update m dest 0) else rest

-- `strrchr`, with the last place found so far
pub strrchr_from : ℕ → ℕ → ℕ → ℕ → Memory → Option ℕ
strrchr_from zero ret s c m = none
strrchr_from (suc fuel) ret s c m =
    let ret' = if m s == u8 c then s else ret in
    let rest = strrchr_from fuel ret' (s + 1) c m in if m s == 0 then some ret' else rest

pub strrchr : ℕ → ℕ → ℕ → Memory → Option ℕ
strrchr fuel s c m = strrchr_from fuel 0 s c m

-- `strxfrm`: the result and the memory
pub strxfrm : ℕ → ℕ → ℕ → ℕ → Memory → Option (ℕ × Memory)
strxfrm fuel dest src n m = do
  n2 ← strlen fuel src m
  after ← (if ltb n2 n then strcpy fuel dest src m else some m)
  some (n2, after)
