-- ===== src/Keyboard/Tests.antt =====
-- The keyboard's theorems on a ring whose queue runs around the end of the buffer.
use hatcher.Base.{
  ℕ, ◌≡◌, refl, true, false, not, none, some, List, [], ◌∷◌, ◌⊎◌, arith, ◌==◌, ◌||◌, if◌then◌else◌,
  replicate, set,
}
use hatcher.Keyboard.{
  Keyboard, keyboard_buffer_push, keyboard_buffer_pop, keyboard_handler, kgetch, kgets,
}
use hatcher.Keyboard.Queue.{
  queue, enqueue, IsRing, keyboard_buffer_push-queue, keyboard_buffer_pop-queue,
}
use hatcher.Keyboard.Keys.{key_char, keyboard_handler-queue}
use hatcher.Keyboard.Input.{Got, kgetch-queue, edited, kgets-edited}

-- 'h' waits at index 127, caps lock is on.
abbrev wrapped : Keyboard
wrapped = record {
  kb_buf = set (replicate 128 0) 127 b'h';
  kb_head = 0;
  kb_tail = 127;
  shift_pressed = false;
  caps_lock = true;
}

wrapped-IsRing : IsRing wrapped
wrapped-IsRing = record { size = refl; head = omega arith; tail = omega arith }

keyboard_buffer_push_example :
    IsRing (keyboard_buffer_push b'i' wrapped)
    × (queue (keyboard_buffer_push b'i' wrapped) ≡ enqueue b'i' (queue wrapped))
keyboard_buffer_push_example = keyboard_buffer_push-queue wrapped b'i' wrapped-IsRing

keyboard_buffer_pop_example :
    IsRing (keyboard_buffer_pop wrapped).1
    × ((((keyboard_buffer_pop wrapped).0 ≡ none)
          × (queue wrapped ≡ [])
          × ((keyboard_buffer_pop wrapped).1 ≡ wrapped))
        ⊎ ((c : ℕ) × ((keyboard_buffer_pop wrapped).0 ≡ some c)
            × (queue wrapped ≡ c ∷ queue (keyboard_buffer_pop wrapped).1)))
keyboard_buffer_pop_example = keyboard_buffer_pop-queue wrapped wrapped-IsRing

-- Scancode 23 is the key I.
keyboard_handler_example :
    let k' = keyboard_handler 23 wrapped in
    let c = key_char false true 23 in
    IsRing k'
    × (queue k' ≡ (if c == 0 then queue wrapped else enqueue c (queue wrapped)))
    × (k'.shift_pressed
        ≡ (if 23 == 42 || 23 == 54 then true else if 23 == 170 || 23 == 182 then false else false))
    × (k'.caps_lock ≡ (if 23 == 58 then not true else true))
keyboard_handler_example = keyboard_handler-queue wrapped 23 wrapped-IsRing

kgetch_example :
    Got ((23 ∷ []) ∷ (35 ∷ []) ∷ []) wrapped (kgetch ((23 ∷ []) ∷ (35 ∷ []) ∷ []) wrapped)
kgetch_example = kgetch-queue ((23 ∷ []) ∷ (35 ∷ []) ∷ []) wrapped wrapped-IsRing

-- "lx", backspace, "s", return.
abbrev typed : List ℕ
typed = b'l' ∷ b'x' ∷ 8 ∷ b's' ∷ 13 ∷ b'?' ∷ []

kgets_example : kgets (replicate 256 0) typed ≡ edited typed []
kgets_example = kgets-edited (replicate 256 0) typed refl

kgets_run : kgets (replicate 256 0) typed ≡ some (b'l' ∷ b's' ∷ [])
unfolding kgets
kgets_run = refl
