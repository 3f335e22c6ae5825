-- ===== src/Keyboard/Tests.antt =====
-- The handler of kernel/device/keyboard/keyboard.c for the key A.
use angl_os.Base.{◌≡◌, false, some, arith}
use angl_os.Input.Contents.{IsValid}
use angl_os.Keyboard.{Keyboard, irq_keyboard_handler}
use angl_os.Keyboard.Modifiers.{irq_keyboard_handler_ends}

abbrev idle_keys : Keyboard
idle_keys = record {
  shift_pressed = false;
  ctrl_pressed = false;
  alt_pressed = false;
  prev_scan = 0;
  queue = record { lock = false; buf = λ i. 0; head = 3; tail = 3 };
}

irq_keyboard_handler_ends_example :
    (k : Keyboard) × (irq_keyboard_handler 0x1e idle_keys ≡ some k)
    × (k.prev_scan ≡ 0x1e)
    × IsValid k.queue
irq_keyboard_handler_ends_example =
    irq_keyboard_handler_ends 0x1e idle_keys (omega arith) (omega arith)
      (record { head_in = omega arith; tail_in = omega arith })
