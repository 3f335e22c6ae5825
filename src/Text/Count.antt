-- ===== src/Text/Count.antt =====
-- What kernel/libc/kernel/console.c counts, and its lock.
use angl_os.Base.{ℕ, zero, suc, ◌+◌, ◌≡◌, refl, ◌∙◌, true, false, some, arith, u8, u64}
use angl_os.Text.{
  Console, console_lock, console_unlock, console_putchar_locked, putbuf_loop, console_putbuf,
}
use angl_os.Text.Cursor.{InScreen, text_putc-InScreen}

putbuf_loop-count :
    (buffer n : ℕ) (k : Console) → u64 (putbuf_loop buffer n k).write_cnt ≡ u64 (k.write_cnt + n)
unfolding putbuf_loop console_putchar_locked
putbuf_loop-count buffer zero k = omega arith
putbuf_loop-count buffer (suc n) k =
    putbuf_loop-count (buffer + 1) n (console_putchar_locked (k.text.memory buffer) k) ∙ omega arith

putbuf_loop-InScreen :
    (buffer n : ℕ) (k : Console) → InScreen k.text → InScreen (putbuf_loop buffer n k).text
unfolding putbuf_loop console_putchar_locked
putbuf_loop-InScreen buffer zero k h = h
putbuf_loop-InScreen buffer (suc n) k h =
    putbuf_loop-InScreen (buffer + 1) n (console_putchar_locked (k.text.memory buffer) k)
      (text_putc-InScreen (u8 (k.text.memory buffer)) k.text h)

-- `consolePutbuf`, where the lock is free, returns with the lock free, has counted `n` characters
-- more, modulo `2 ^ 64`, and leaves the cursor on the grid and inside the screen.
pub console_putbuf_lem :
    (buffer n : ℕ) (k : Console)
    → k.spin ≡ false
    → InScreen k.text
    → (r : Console) × (console_putbuf buffer n k ≡ some r)
      × (r.spin ≡ false)
      × (u64 r.write_cnt ≡ u64 (k.write_cnt + n))
      × InScreen r.text
unfolding console_putbuf console_lock console_unlock
console_putbuf_lem buffer n k free h =
    let locked : Console = record k { spin = true } in
    (
      console_unlock (putbuf_loop buffer n locked),
      rw free refl,
      refl,
      putbuf_loop-count buffer n locked,
      putbuf_loop-InScreen buffer n locked h,
    )
