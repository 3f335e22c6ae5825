-- ===== src/Keyboard/Modifiers.antt =====
-- When the handler of kernel/device/keyboard/keyboard.c comes to its end.
use angl_os.Base.{
  ℕ, zero, suc, ◌≤◌, ◌<◌, ◌≡◌, refl, inl, inr, true, false, Option, none, some, List, [], ◌∷◌,
  bit_and, ◌==◌, u8, ◌>>>◌, get_elem?, length, arith, Bool-cases,
}
use angl_os.Keyboard.{
  Keyboard, scan_code_1, scan_code_1_shift, left_shift, left_control, left_alt, key_char, put_key,
  pressed, released, irq_keyboard_handler,
}
use angl_os.Input.{input_full, iqueue_full, store}
use angl_os.Input.Fifo.{input_full_lem, input_putc_now}
use angl_os.Input.Contents.{IsValid, store-IsValid}

get_elem?-lt : (l : List ℕ) (i : ℕ) → i < length l → (c : ℕ) × (get_elem? l i ≡ some c)
get_elem?-lt [] i h = absurd (omega arith)
get_elem?-lt (x ∷ xs) zero h = (x, refl)
get_elem?-lt (x ∷ xs) (suc i) h = get_elem?-lt xs i (omega arith)

get_elem?-ge : (l : List ℕ) (i : ℕ) → length l ≤ i → get_elem? l i ≡ none
get_elem?-ge [] i h = refl
get_elem?-ge (x ∷ xs) zero h = absurd (omega arith)
get_elem?-ge (x ∷ xs) (suc i) h = get_elem?-ge xs i (omega arith)

-- `k'` comes of `k` with the queue valid.
Ends : Keyboard → Option Keyboard → Type 0
Ends k o = (k' : Keyboard) × (o ≡ some k') × IsValid k'.queue

put_key-Ends : (c : ℕ) (k : Keyboard) → IsValid k.queue → Ends k (put_key c k)
unfolding Ends put_key
put_key-Ends c k v = elim (Bool-cases (input_full k.queue)) [
  | inl full ↦ (k, rw full refl, v)
  | inr room ↦
      let room' : iqueue_full k.queue ≡ false = input_full_lem k.queue room in
      (
        record k { queue = store c k.queue },
        rw (room, input_putc_now c k.queue room') refl,
        store-IsValid c v,
      )
]

pressed-Ends :
    (scan plain shifted : ℕ) (k : Keyboard)
    → IsValid k.queue
    → Ends k (pressed scan plain shifted k)
unfolding Ends pressed
pressed-Ends scan plain shifted k v = elim (Bool-cases (plain == left_shift)) [
  | inl e ↦ (record k { shift_pressed = true }, rw e refl, v)
  | inr e ↦ elim (Bool-cases (plain == left_control)) [
    | inl f ↦ (record k { ctrl_pressed = true }, rw (e, f) refl, v)
    | inr f ↦ elim (Bool-cases (plain == left_alt)) [
      | inl g ↦ (record k { alt_pressed = true }, rw (e, f, g) refl, v)
      | inr g ↦ rw (e, f, g) (put_key-Ends (key_char scan plain shifted k) k v)
    ]
  ]
]

released-queue : (plain : ℕ) (k : Keyboard) → (released plain k).queue ≡ k.queue
unfolding released
released-queue plain k = ground arith

-- The handler, for a byte whose low seven bits lie inside the tables, comes to its end without
-- waiting, whether the queue is full or not, remembers the byte and leaves a valid queue valid.
pub irq_keyboard_handler_ends :
    (scan : ℕ) (k : Keyboard)
    → scan < 256
    → bit_and scan 127 < 59
    → IsValid k.queue
    → (k' : Keyboard) × (irq_keyboard_handler scan k ≡ some k')
      × (k'.prev_scan ≡ scan)
      × IsValid k'.queue
unfolding irq_keyboard_handler Ends
irq_keyboard_handler_ends scan k byte inside v =
    let (plain, e) = get_elem?-lt scan_code_1 (bit_and scan 127) inside in
    let (shifted, f) = get_elem?-lt scan_code_1_shift (bit_and scan 127) inside in
    let small : u8 scan ≡ scan = omega arith in
    elim (Bool-cases (bit_and scan 128 >>> 7 == 0)) [
      | inl down ↦
          let (after, g, w) = pressed-Ends scan plain shifted k v in
          (
            record after { prev_scan = u8 scan },
            rw (e, f, down, g) refl,
            small,
            record { head_in = w.head_in; tail_in = w.tail_in },
          )
      | inr up ↦
          let w : IsValid (released plain k).queue = rw (released-queue plain k) v in
          (
            record (released plain k) { prev_scan = u8 scan },
            rw (e, f, up) refl,
            small,
            record { head_in = w.head_in; tail_in = w.tail_in },
          )
    ]

-- For a byte whose low seven bits lie behind the tables, as those of the arrow keys do, the
-- handler reads behind them.
pub irq_keyboard_handler_faults :
    (scan : ℕ) (k : Keyboard) → 59 ≤ bit_and scan 127 → irq_keyboard_handler scan k ≡ none
unfolding irq_keyboard_handler
irq_keyboard_handler_faults scan k outside =
    rw (get_elem?-ge scan_code_1 (bit_and scan 127) outside) refl
