-- ===== src/Keyboard.antt =====
-- The keyboard's interrupt handler, kernel/device/keyboard/keyboard.c, and the boot modules,
-- kernel/fs/kmodule.c.
mod Tests
pub mod Modifiers
use angl_os.Base.{
  ℕ, zero, suc, ◌+◌, ◌-◌, ◌*◌, ◌/◌, ◌%◌, ◌^◌, Bool, true, false, not, ◌&&◌, ◌||◌, Option, none,
  some, List, [], ◌∷◌, bit_and, ltb, leb, ◌==◌, if◌then◌else◌, u8, ◌>>>◌, ◌>>=◌, get_elem?, length,
}
use angl_os.Input.{IQueue, input_putc, input_full}
use angl_os.CString.{Memory, strcmp}

abbrev pub backspace : ℕ
backspace = 0x80

abbrev pub enter : ℕ
enter = 0x82

abbrev pub left_control : ℕ
left_control = 0x83

abbrev pub left_shift : ℕ
left_shift = 0x84

abbrev pub left_alt : ℕ
left_alt = 0x85

-- `scan_code_1` and `scan_code_1_shift`, with the terminator
abbrev pub scan_code_1 : List ℕ
scan_code_1 =
    0 ∷ 0 ∷ 49 ∷ 50 ∷ 51 ∷ 52 ∷ 53 ∷ 54 ∷ 55 ∷ 56 ∷ 57 ∷ 48 ∷ 45 ∷ 61 ∷ 0x80 ∷ 0x09 ∷ 113 ∷ 119
    ∷ 101 ∷ 114 ∷ 116 ∷ 121 ∷ 117 ∷ 105 ∷ 111 ∷ 112 ∷ 91 ∷ 93 ∷ 0x82 ∷ 0x83 ∷ 97 ∷ 115 ∷ 100 ∷ 102
    ∷ 103 ∷ 104 ∷ 106 ∷ 107 ∷ 108 ∷ 59 ∷ 39 ∷ 96 ∷ 0x84 ∷ 92 ∷ 122 ∷ 120 ∷ 99 ∷ 118 ∷ 98 ∷ 110 ∷ 109
    ∷ 44 ∷ 46 ∷ 47 ∷ 0x84 ∷ 42 ∷ 0x85 ∷ 32 ∷ 0 ∷ []

abbrev pub scan_code_1_shift : List ℕ
scan_code_1_shift =
    0 ∷ 0 ∷ 33 ∷ 64 ∷ 35 ∷ 36 ∷ 37 ∷ 94 ∷ 38 ∷ 42 ∷ 40 ∷ 41 ∷ 95 ∷ 43 ∷ 0x80 ∷ 0x09 ∷ 81 ∷ 87 ∷ 69
    ∷ 82 ∷ 84 ∷ 89 ∷ 85 ∷ 73 ∷ 79 ∷ 80 ∷ 123 ∷ 125 ∷ 0x82 ∷ 0x83 ∷ 65 ∷ 83 ∷ 68 ∷ 70 ∷ 71 ∷ 72 ∷ 74
    ∷ 75 ∷ 76 ∷ 58 ∷ 34 ∷ 126 ∷ 0x84 ∷ 92 ∷ 90 ∷ 88 ∷ 67 ∷ 86 ∷ 66 ∷ 78 ∷ 77 ∷ 60 ∷ 62 ∷ 63 ∷ 0x84
    ∷ 42 ∷ 0x85 ∷ 32 ∷ 0 ∷ []

-- The static variables of keyboard.c, and the input queue that the handler fills.
pub record Keyboard : Type 0 where
  pub shift_pressed : Bool
  pub ctrl_pressed : Bool
  pub alt_pressed : Bool
  pub prev_scan : ℕ
  pub queue : IQueue

-- `keyboardIsLetter`
pub keyboard_is_letter : ℕ → Bool
keyboard_is_letter c = leb 0x61 c && leb c 0x7A

-- the character for an arrow key
pub arrow : ℕ → ℕ
arrow scan =
    if scan == 0x48
    then 0x86
    else (if scan == 0x4B
        then 0x88
        else (if scan == 0x4D then 0x89 else (if scan == 0x50 then 0x87 else 0)))

-- the character for a key that is no modifier, `plain` and `shifted` its entries of the tables
pub key_char : ℕ → ℕ → ℕ → Keyboard → ℕ
key_char scan plain shifted k =
    if plain == backspace
    then 8
    else (if plain == enter
        then 10
        else (if not (k.prev_scan == 0xE0)
            then (if not k.ctrl_pressed || not (plain == 108)
                then (if not k.shift_pressed then plain else shifted)
                else 0x90)
            else arrow scan))

-- the key is put into the queue where there is room
pub put_key : ℕ → Keyboard → Option Keyboard
put_key c k =
    let put = input_putc [] c k.queue >>= λ q. some (record k { queue = q }) in
    if input_full k.queue then some k else put

-- a key that is pressed
pub pressed : ℕ → ℕ → ℕ → Keyboard → Option Keyboard
pressed scan plain shifted k =
    if plain == left_shift
    then some (record k { shift_pressed = true })
    else (if plain == left_control
        then some (record k { ctrl_pressed = true })
        else (if plain == left_alt
            then some (record k { alt_pressed = true })
            else put_key (key_char scan plain shifted k) k))

-- a key that is let go
pub released : ℕ → Keyboard → Keyboard
released plain k =
    if plain == left_shift
    then record k { shift_pressed = false }
    else (if plain == left_control
        then record k { ctrl_pressed = false }
        else (if plain == left_alt then record k { alt_pressed = false } else k))

-- `irqKeyboardHandler` for the byte that the keyboard sent; `none` reads behind the tables
pub irq_keyboard_handler : ℕ → Keyboard → Option Keyboard
irq_keyboard_handler scan k = do
  let scan2 = bit_and scan 127
  plain ← get_elem? scan_code_1 scan2
  shifted ← get_elem? scan_code_1_shift scan2
  after ←
      if bit_and scan 128 >>> 7 == 0 then pressed scan plain shifted k else some (released plain k)
  some (record after { prev_scan = u8 scan })

-- `kmodule_t`: where its path and its bytes lie
pub record Kmodule : Type 0 where
  pub path : ℕ
  pub address : ℕ
  pub size : ℕ

-- `kmoduleGet`: `none` reads behind the modules, and `some none` is `NULL`
pub kmodule_get : List Kmodule → ℕ → Option (Option Kmodule)
kmodule_get modules num =
    if ltb (length modules) num then some none else do m ← get_elem? modules num; some (some m)

-- `kmoduleFindByPath`; the outer `none` is a string that does not end within the fuel
pub kmodule_find_by_path : ℕ → ℕ → List Kmodule → Memory → Option (Option Kmodule)
kmodule_find_by_path fuel path [] m = some none
kmodule_find_by_path fuel path (k ∷ ks) m = do
  order ← strcmp fuel path k.path m
  let rest = kmodule_find_by_path fuel path ks m
  if order == 0 then some (some k) else rest

-- `kmoduleGetc`
pub kmodule_getc : Option Kmodule → ℕ → Memory → ℕ
kmodule_getc none index m = 0
kmodule_getc (some k) index m = if ltb index k.size then m (k.address + index) else 0
