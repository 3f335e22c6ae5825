-- ===== src/Text/Cursor.antt =====
-- Where the cursor of kernel/device/vga/text.c can be.
use angl_os.Base.{
  ℕ, ◌+◌, ◌-◌, ◌%◌, ◌^◌, ◌≤◌, ◌<◌, ◌≡◌, refl, inl, inr, Bool, false, ◌&&◌, arith, ◌==◌, u16, sub64,
  Bool-cases, if_keeps,
}
use angl_os.Text.{
  Text, text_draw_char, text_draw_char_at_cursor, text_draw_cursor, text_clear_cursor,
  text_move_cursor, text_move_screen_up_one_line, at_bottom, at_right, text_newline, text_cursor_up,
  text_cursor_down, text_cursor_left, text_cursor_right, text_advance_cursor_right,
  text_clear_char_at_cursor, text_clear_screen, text_putc,
}

-- The cursor stands at a cell of the grid of characters, inside the margins of the screen.
pub record InScreen (t : Text) : Type 0 where
  pub column : t.cursor_x % 10 ≡ 4
  pub row : t.cursor_y % 20 ≡ 4
  pub right : t.cursor_x + 8 + 4 ≤ t.fb_w
  pub bottom : t.cursor_y + 16 + 4 ≤ t.fb_h
  pub width : t.fb_w < 2 ^ 16
  pub height : t.fb_h < 2 ^ 16

clear_cursor-InScreen : (t : Text) → InScreen t → InScreen (text_clear_cursor t)
unfolding text_clear_cursor
clear_cursor-InScreen t h = record {
  column = h.column;
  row = h.row;
  right = h.right;
  bottom = h.bottom;
  width = h.width;
  height = h.height;
}

draw_char-InScreen :
    (c : ℕ) (b : Bool) (t : Text) → InScreen t → InScreen (text_draw_char_at_cursor c b t)
unfolding text_draw_char_at_cursor text_draw_char
draw_char-InScreen c b t h = record {
  column = h.column;
  row = h.row;
  right = h.right;
  bottom = h.bottom;
  width = h.width;
  height = h.height;
}

draw_cursor-InScreen : (t : Text) → InScreen t → InScreen (text_draw_cursor t)
unfolding text_draw_cursor text_draw_char_at_cursor text_draw_char
draw_cursor-InScreen t h = record {
  column = h.column;
  row = h.row;
  right = h.right;
  bottom = h.bottom;
  width = h.width;
  height = h.height;
}

move_up-InScreen : (t : Text) → InScreen t → InScreen (text_move_screen_up_one_line t)
unfolding text_move_screen_up_one_line
move_up-InScreen t h = record {
  column = h.column;
  row = h.row;
  right = h.right;
  bottom = h.bottom;
  width = h.width;
  height = h.height;
}

clear_screen-InScreen : (t : Text) → InScreen t → InScreen (text_clear_screen t)
unfolding text_clear_screen text_clear_cursor
clear_screen-InScreen t h = record {
  column = h.column;
  row = h.row;
  right = h.right;
  bottom = h.bottom;
  width = h.width;
  height = h.height;
}

-- A move to a cell inside the screen.
move-InScreen :
    (x y : ℕ) (t : Text)
    → InScreen t
    → u16 x % 10 ≡ 4
    → u16 y % 20 ≡ 4
    → u16 x + 8 + 4 ≤ t.fb_w
    → u16 y + 16 + 4 ≤ t.fb_h
    → InScreen (text_move_cursor x y t)
unfolding text_move_cursor
move-InScreen x y t h column row right bottom =
    draw_cursor-InScreen (record t { cursor_x = u16 x; cursor_y = u16 y })
      (record {
        column = column;
        row = row;
        right = right;
        bottom = bottom;
        width = h.width;
        height = h.height;
      })

line_below :
    (t : Text)
    → InScreen t
    → at_bottom t ≡ false
    → InScreen (text_move_cursor 4 (t.cursor_y + 4 + 16) t)
unfolding at_bottom
line_below t h room =
    let fits : t.cursor_y + 36 ≤ sub64 t.fb_h 4 = ground (arith, room) in
    move-InScreen 4 (t.cursor_y + 4 + 16) t h refl (omega (arith, h.row, h.bottom, h.height))
      (omega (arith, h.right, h.column)) (omega (arith, fits, h.bottom, h.height))

line_start : (t : Text) → InScreen t → InScreen (text_move_cursor 4 t.cursor_y t)
line_start t h =
    move-InScreen 4 t.cursor_y t h refl (omega (arith, h.row, h.bottom, h.height))
      (omega (arith, h.right, h.column)) (omega (arith, h.bottom, h.height))

next_column :
    (t : Text)
    → InScreen t
    → at_right t ≡ false
    → InScreen (text_move_cursor (t.cursor_x + 2 + 8) t.cursor_y t)
unfolding at_right
next_column t h room =
    let fits : t.cursor_x + 18 ≤ sub64 t.fb_w 4 = ground (arith, room) in
    move-InScreen (t.cursor_x + 2 + 8) t.cursor_y t h (omega (arith, h.column, h.right, h.width))
      (omega (arith, h.row, h.bottom, h.height)) (omega (arith, fits, h.right, h.width))
      (omega (arith, h.bottom, h.height))

newline-InScreen : (t : Text) → InScreen t → InScreen (text_newline t)
unfolding text_newline
newline-InScreen s h =
    let t = text_clear_cursor s in
    let ht = clear_cursor-InScreen s h in
    elim (Bool-cases (at_bottom t)) [
      | inl full ↦ rw full (line_start (text_move_screen_up_one_line t) (move_up-InScreen t ht))
      | inr room ↦ rw room (line_below t ht room)
    ]

cursor_up-InScreen : (t : Text) → InScreen t → InScreen (text_cursor_up t)
unfolding text_cursor_up text_clear_cursor
cursor_up-InScreen s h = elim (Bool-cases (s.cursor_y == 4)) [
  | inl top ↦ rw top h
  | inr below ↦
      let t = text_clear_cursor s in
      let ne : 24 ≤ s.cursor_y = ground (arith, below, h.row) in
      rw below (
        move-InScreen t.cursor_x (t.cursor_y + (2 ^ 16 - 20)) t (clear_cursor-InScreen s h)
          (omega (arith, h.column, h.right, h.width)) (omega (arith, h.row, h.bottom, h.height, ne))
          (omega (arith, h.right, h.width)) (omega (arith, h.bottom, h.height, ne)))
]

cursor_down-InScreen : (t : Text) → InScreen t → InScreen (text_cursor_down t)
unfolding text_cursor_down text_clear_cursor at_bottom
cursor_down-InScreen s h = elim (Bool-cases (at_bottom s)) [
  | inl full ↦ rw full h
  | inr room ↦
      let t = text_clear_cursor s in
      let fits : s.cursor_y + 36 ≤ sub64 s.fb_h 4 = ground (arith, room) in
      rw room (
        move-InScreen t.cursor_x (t.cursor_y + 4 + 16) t (clear_cursor-InScreen s h)
          (omega (arith, h.column, h.right, h.width)) (omega (arith, h.row, h.bottom, h.height))
          (omega (arith, h.right, h.width)) (omega (arith, fits, h.bottom, h.height)))
]

cursor_left-InScreen : (t : Text) → InScreen t → InScreen (text_cursor_left t)
unfolding text_cursor_left text_clear_cursor
cursor_left-InScreen s h = elim (Bool-cases (s.cursor_x == 4)) [
  | inl first ↦ rw first h
  | inr later ↦
      let t = text_clear_cursor s in
      let ne : 14 ≤ s.cursor_x = ground (arith, later, h.column) in
      rw later (
        move-InScreen (t.cursor_x + (2 ^ 16 - 10)) t.cursor_y t (clear_cursor-InScreen s h)
          (omega (arith, h.column, h.right, h.width, ne)) (omega (arith, h.row, h.bottom, h.height))
          (omega (arith, h.right, h.width, ne)) (omega (arith, h.bottom, h.height)))
]

cursor_right-InScreen : (t : Text) → InScreen t → InScreen (text_cursor_right t)
unfolding text_cursor_right
cursor_right-InScreen s h = elim (Bool-cases (at_right s)) [
  | inl full ↦ rw full h
  | inr room ↦ rw room (
      next_column (text_clear_cursor s) (clear_cursor-InScreen s h)
        (unfold at_right text_clear_cursor in room))
]

advance-InScreen : (t : Text) → InScreen t → InScreen (text_advance_cursor_right t)
unfolding text_advance_cursor_right
advance-InScreen t h = elim (Bool-cases (at_right t)) [
  | inr room ↦
      let low : (at_bottom t && at_right t) ≡ false = ground arith in
      rw (low, room) (next_column t h room)
  | inl full ↦ elim (Bool-cases (at_bottom t)) [
    | inl last ↦
        rw (last, full) (line_start (text_move_screen_up_one_line t) (move_up-InScreen t h))
    | inr more ↦ rw (more, full) (line_below t h more)
  ]
]

clear_char-InScreen : (s : Text) → InScreen s → InScreen (text_clear_char_at_cursor s)
unfolding text_clear_char_at_cursor
clear_char-InScreen s k =
    draw_cursor-InScreen _
      (draw_char-InScreen 32 false (text_clear_cursor s) (clear_cursor-InScreen s k))

home-InScreen : (s : Text) → InScreen s → InScreen (text_move_cursor 4 4 s)
home-InScreen s k =
    move-InScreen 4 4 s k refl refl (omega (arith, k.right, k.column))
      (omega (arith, k.bottom, k.row))

-- Whatever byte `textPutc` is given, a cursor on the grid and inside the screen stays so.
pub text_putc-InScreen : (c : ℕ) (t : Text) → InScreen t → InScreen (text_putc c t)
unfolding text_putc
text_putc-InScreen c t h = if_keeps InScreen (c == 10) (newline-InScreen t h) (
    if_keeps InScreen (c == 8) (clear_char-InScreen (text_cursor_left t) (cursor_left-InScreen t h))
      (if_keeps InScreen (c == 0x86) (cursor_up-InScreen t h) (
        if_keeps InScreen (c == 0x87) (cursor_down-InScreen t h) (
          if_keeps InScreen (c == 0x88) (cursor_left-InScreen t h) (
            if_keeps InScreen (c == 0x89) (cursor_right-InScreen t h) (
              if_keeps InScreen (c == 0x90)
                (home-InScreen (text_clear_screen t) (clear_screen-InScreen t h))
                (if_keeps InScreen (c == 0x91) (clear_cursor-InScreen t h) (
                  if_keeps InScreen (c == 0x92) (draw_cursor-InScreen t h) (
                    advance-InScreen _ (
                      draw_char-InScreen c false (text_clear_cursor t)
                        (clear_cursor-InScreen t h)))))))))))
