-- ===== src/CString/Tests.antt =====
-- The functions of kernel/libc/string.c at a memory with "ab" at 10 and "abc" at 20.
use angl_os.Base.{ℕ, ◌≡◌, ◌<◌, refl, inr, some, arith, ◌==◌, if◌then◌else◌}
use angl_os.CString.{Memory, memmove, strcpy, strcmp}
use angl_os.CString.Copies.{moved, memmove_lem}
use angl_os.CString.Terminated.{StringAt, strcpy-StringAt, strcmp-prefix}

abbrev words : Memory
words a =
    if a == 10
    then 97
    else if a == 11
    then 98
    else if a == 20
    then 97
    else if a == 21
    then 98
    else if a == 22
    then 99
    else 0

two_letters : StringAt 10 2 words
two_letters = record { bytes = λ i lt. ground arith; stop = refl }

memmove_lem_example : memmove 21 20 3 words 23 ≡ moved 21 20 3 words 23
memmove_lem_example = memmove_lem 21 20 3 words 23

words-byte : (a : ℕ) → words a < 256
words-byte a = ground arith

strcpy-StringAt_example :
    (r : Memory) × (strcpy 5 30 10 words ≡ some r) × ((a : ℕ) → r a ≡ moved 30 10 3 words a)
strcpy-StringAt_example =
    strcpy-StringAt 2 5 30 10 words two_letters (inr (omega arith)) (omega arith)

strcmp-prefix_example : strcmp 5 10 20 words ≡ some 0
strcmp-prefix_example =
    strcmp-prefix 2 5 10 20 words two_letters (λ i lt. ground arith) (omega arith)
