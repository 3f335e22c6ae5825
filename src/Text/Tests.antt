-- ===== src/Text/Tests.antt =====
-- The text screen of kernel/device/vga at 1280 by 720 pixels.
use angl_os.Base.{◌+◌, ◌*◌, ◌≡◌, refl, false, true, some, arith, u64}
use angl_os.Text.{Text, Console, text_putc, console_putbuf}
use angl_os.Text.Cursor.{InScreen, text_putc-InScreen}
use angl_os.Text.Count.{console_putbuf_lem}

abbrev screen : Text
screen = record {
  memory = λ a. 65;
  fb_base = 0x1000000;
  fb_w = 1280;
  fb_h = 720;
  fb_p = 1280 * 4;
  fb_bpp = 4;
  cursor_x = 1264;
  cursor_y = 684;
  background_color = 0;
  foreground_color = 0xFFFFFFFF;
  cursor_enabled = true;
  pixels_at_cursor = 0x2000;
  current_font = 0x4000;
  font_module = 0x4000;
}

abbrev console : Console
console = record { write_cnt = 7; spin = false; text = screen }

screen-InScreen : InScreen screen
screen-InScreen = record {
  column = refl;
  row = refl;
  right = omega arith;
  bottom = omega arith;
  width = omega arith;
  height = omega arith;
}

text_putc-InScreen_example : InScreen (text_putc 65 screen)
text_putc-InScreen_example = text_putc-InScreen 65 screen screen-InScreen

console_putbuf_lem_example :
    (r : Console) × (console_putbuf 0x5000 3 console ≡ some r)
    × (r.spin ≡ false)
    × (u64 r.write_cnt ≡ u64 (7 + 3))
    × InScreen r.text
console_putbuf_lem_example = console_putbuf_lem 0x5000 3 console refl screen-InScreen
