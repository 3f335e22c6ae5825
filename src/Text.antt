-- ===== src/Text.antt =====
-- The text screen, kernel/device/vga/text.c and graphics.c, and the console above it,
-- kernel/libc/kernel/console.c: glyphs drawn into the frame buffer, and a cursor that moves in
-- steps of a character.
pub mod Cursor
pub mod Count
mod Tests
use angl_os.Base.{
  ℕ, zero, suc, ◌+◌, ◌-◌, ◌*◌, ◌/◌, ◌%◌, ◌^◌, Bool, true, false, not, ◌&&◌, Option, none, some,
  bit_and, ltb, leb, ◌==◌, if◌then◌else◌, u8, u16, u32, u64, sub64, ◌>>>◌, update, for_up, ◌>>=◌,
}
use angl_os.CString.{Memory, memcpy, memset}

-- The static variables of graphics.c and text.c, the memory, and the addresses in it of
-- `pixels_at_cursor` and of the font that the boot loader has put there.
pub record Text : Type 0 where
  pub memory : Memory
  pub fb_base : ℕ
  pub fb_w : ℕ
  pub fb_h : ℕ
  pub fb_p : ℕ
  pub fb_bpp : ℕ
  pub cursor_x : ℕ
  pub cursor_y : ℕ
  pub background_color : ℕ
  pub foreground_color : ℕ
  pub cursor_enabled : Bool
  pub pixels_at_cursor : ℕ
  pub current_font : ℕ
  pub font_module : ℕ

-- `graphicsPutpixel`
pub graphics_putpixel : Text → ℕ → ℕ → ℕ → Memory → Memory
graphics_putpixel t x y color m =
    let at = u32 (x * t.fb_bpp + y * t.fb_p) in
    update
      (update (update m (t.fb_base + at) (u8 color)) (t.fb_base + u32 (at + 1)) (u8 (color >>> 8)))
      (t.fb_base + u32 (at + 2)) (u8 (color >>> 16))

-- one pixel of `textDrawChar`
pub draw_dot : Text → ℕ → ℕ → ℕ → Bool → ℕ → ℕ → Memory → Memory
draw_dot t glyph x y transparent cy cx m =
    let dot = bit_and (m (glyph + cy)) (0x80 >>> cx) in
    let fore = graphics_putpixel t (u16 (x + cx)) (u16 (y + cy)) t.foreground_color m in
    let back = graphics_putpixel t (u16 (x + cx)) (u16 (y + cy)) t.background_color m in
    if dot == 0 then (if transparent then m else back) else fore

-- `textDrawChar`
pub text_draw_char : ℕ → ℕ → ℕ → Bool → Text → Text
text_draw_char c x y transparent t =
    let font = if t.current_font == 0 then t.font_module else t.current_font in
    record t {
      current_font = font;
      memory =
          for_up
            (λ cy m. for_up (λ cx m'. draw_dot t (font + c * 16) x y transparent cy cx m') 8 0 m) 16
            0 t.memory;
    }

-- `textDrawCharAtCursor`
pub text_draw_char_at_cursor : ℕ → Bool → Text → Text
text_draw_char_at_cursor c transparent t = text_draw_char c t.cursor_x t.cursor_y transparent t

-- the place in the frame buffer of row `cy` of the character at the cursor
pub row_at : Text → ℕ → ℕ
row_at t cy = u32 (t.cursor_x * t.fb_bpp + (t.cursor_y + cy) * t.fb_p)

-- `textDrawCursor`
pub text_draw_cursor : Text → Text
text_draw_cursor t =
    let saved = record t {
      memory =
          for_up
            (λ cy m.
              memcpy (t.pixels_at_cursor + 4 * (cy * 8)) (t.fb_base + row_at t cy) (t.fb_bpp * 8) m)
            16 0 t.memory;
    } in
    record (text_draw_char_at_cursor 219 false saved) { cursor_enabled = true }

-- `textClearCursor`
pub text_clear_cursor : Text → Text
text_clear_cursor t = record t {
  memory = memset t.pixels_at_cursor 0 (8 * 16 * 4) (
      for_up
        (λ cy m.
          memcpy (t.fb_base + row_at t cy) (t.pixels_at_cursor + 4 * (cy * 8)) (t.fb_bpp * 8) m)
        16 0 t.memory);
  cursor_enabled = false;
}

-- `textMoveCursor`
pub text_move_cursor : ℕ → ℕ → Text → Text
text_move_cursor x y t = text_draw_cursor (record t { cursor_x = u16 x; cursor_y = u16 y })

-- `textMoveScreenUpOneLine`
pub text_move_screen_up_one_line : Text → Text
text_move_screen_up_one_line t = record t {
  memory = memset (t.fb_base + t.cursor_y * t.fb_p) 0 (20 * t.fb_p) (
      for_up
        (λ k m. memcpy (t.fb_base + k * t.fb_p) (t.fb_base + k * t.fb_p + 20 * t.fb_p) t.fb_p m)
        (t.fb_h - 24) 0 t.memory);
}

-- whether no line fits below the cursor, and no character to its right
pub at_bottom : Text → Bool
at_bottom t = ltb (sub64 t.fb_h 4) (t.cursor_y + 16 * 2 + 4)

pub at_right : Text → Bool
at_right t = ltb (sub64 t.fb_w 4) (t.cursor_x + 8 * 2 + 2)

-- `textNewline`
pub text_newline : Text → Text
text_newline s =
    let t = text_clear_cursor s in
    let u = text_move_screen_up_one_line t in
    if at_bottom t
    then text_move_cursor 4 u.cursor_y u
    else text_move_cursor 4 (t.cursor_y + 4 + 16) t

-- `textCursorUp`, `textCursorDown`, `textCursorLeft` and `textCursorRight`
pub text_cursor_up : Text → Text
text_cursor_up s =
    let t = text_clear_cursor s in
    if s.cursor_y == 4 then s else text_move_cursor t.cursor_x (t.cursor_y + (2 ^ 16 - 20)) t

pub text_cursor_down : Text → Text
text_cursor_down s =
    let t = text_clear_cursor s in
    if at_bottom s then s else text_move_cursor t.cursor_x (t.cursor_y + 4 + 16) t

pub text_cursor_left : Text → Text
text_cursor_left s =
    let t = text_clear_cursor s in
    if s.cursor_x == 4 then s else text_move_cursor (t.cursor_x + (2 ^ 16 - 10)) t.cursor_y t

pub text_cursor_right : Text → Text
text_cursor_right s =
    let t = text_clear_cursor s in
    if at_right s then s else text_move_cursor (t.cursor_x + 2 + 8) t.cursor_y t

-- `textAdvanceCursorRight`
pub text_advance_cursor_right : Text → Text
text_advance_cursor_right t =
    let u = text_move_screen_up_one_line t in
    if at_bottom t && at_right t
    then text_move_cursor 4 u.cursor_y u
    else (if at_right t
        then text_move_cursor 4 (t.cursor_y + 4 + 16) t
        else text_move_cursor (t.cursor_x + 2 + 8) t.cursor_y t)

-- `textSetBackground` and `textSetForeground`
pub text_set_background : ℕ → Text → Text
text_set_background color t = record t { background_color = color }

pub text_set_foreground : ℕ → Text → Text
text_set_foreground color t = record t { foreground_color = color }

-- `textClearCharAtCursor`
pub text_clear_char_at_cursor : Text → Text
text_clear_char_at_cursor t =
    text_draw_cursor (text_draw_char_at_cursor 32 false (text_clear_cursor t))

-- `textClearScreen`
pub text_clear_screen : Text → Text
text_clear_screen s =
    let t = text_clear_cursor s in
    record t { memory = memset t.fb_base 0 (t.fb_h * t.fb_p) t.memory }

-- `textPutc`
pub text_putc : ℕ → Text → Text
text_putc c t =
    if c == 10
    then text_newline t
    else (if c == 8
        then text_clear_char_at_cursor (text_cursor_left t)
        else (if c == 0x86
            then text_cursor_up t
            else (if c == 0x87
                then text_cursor_down t
                else (if c == 0x88
                    then text_cursor_left t
                    else (if c == 0x89
                        then text_cursor_right t
                        else (if c == 0x90
                            then text_move_cursor 4 4 (text_clear_screen t)
                            else (if c == 0x91
                                then text_clear_cursor t
                                else (if c == 0x92
                                    then text_draw_cursor t
                                    else text_advance_cursor_right (
                                        text_draw_char_at_cursor c false
                                          (text_clear_cursor t))))))))))

-- The static variables of console.c, over the screen.
pub record Console : Type 0 where
  pub write_cnt : ℕ
  pub spin : Bool
  pub text : Text

-- `consoleLock` and `consoleUnlock`
pub console_lock : Console → Option Console
console_lock k = if k.spin then none else some (record k { spin = true })

pub console_unlock : Console → Console
console_unlock k = record k { spin = false }

-- `consolePutcharLocked`
pub console_putchar_locked : ℕ → Console → Console
console_putchar_locked c k = record k {
  write_cnt = u64 (k.write_cnt + 1);
  text = text_putc (u8 c) k.text;
}

-- the loop of `consolePutbuf`
pub putbuf_loop : ℕ → ℕ → Console → Console
putbuf_loop buffer zero k = k
putbuf_loop buffer (suc n) k =
    putbuf_loop (buffer + 1) n (console_putchar_locked (k.text.memory buffer) k)

-- `consolePutbuf`, and so the system call `sys_print`
pub console_putbuf : ℕ → ℕ → Console → Option Console
console_putbuf buffer n k = do
  locked ← console_lock k
  some (console_unlock (putbuf_loop buffer n locked))

-- the loop of `consolePuts`, on fuel
pub puts_loop : ℕ → ℕ → Console → Option Console
puts_loop zero s k = none
puts_loop (suc fuel) s k =
    let rest = puts_loop fuel (s + 1) (console_putchar_locked (k.text.memory s) k) in
    if k.text.memory s == 0 then some k else rest

-- `consolePuts`
pub console_puts : ℕ → ℕ → Console → Option Console
console_puts fuel s k = do
  locked ← console_lock k
  printed ← puts_loop fuel s locked
  some (console_unlock (console_putchar_locked 10 printed))

-- `consolePutchar`
pub console_putchar : ℕ → Console → Option Console
console_putchar c k = do
  locked ← console_lock k
  some (console_unlock (console_putchar_locked c locked))
