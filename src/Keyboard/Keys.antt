-- ===== src/Keyboard/Keys.antt =====
-- The interrupt handler of the keyboard: which character a key puts into the queue.
use mathlib.Core.Path.{subst}
use hatcher.Base.{
  ℕ, zero, suc, ◌≤◌, ◌≡◌, refl, sym, ◌∙◌, Bool, true, false, not, List, [], ◌∷◌, inl, inr, arith,
  ◌==◌, ◌&&◌, ◌||◌, ltb, leb, if◌then◌else◌, Bool-cases, ==_iff, length, get_or,
}
use hatcher.Keyboard.{
  Keyboard, scancode_ascii, scancode_ascii_shift, keyboard_buffer_push, xor, translate,
  keyboard_handler,
}
use hatcher.Keyboard.Queue.{queue, enqueue, IsRing, keyboard_buffer_push-queue}

abbrev pub is_letter : ℕ → Bool
is_letter c = leb b'a' c && leb c b'z'

-- The shift table holds the capitals: a letter is taken from it if just one of shift and caps lock
-- is on, another key if shift is on.
abbrev pub pick : Bool → Bool → ℕ → ℕ → ℕ
pick shift caps c c_shift = if (if is_letter c then xor shift caps else shift) then c_shift else c

abbrev pub key_char : Bool → Bool → ℕ → ℕ
key_char shift caps scancode =
    pick shift caps (get_or scancode_ascii scancode 0) (get_or scancode_ascii_shift scancode 0)

same_rows : Bool → Bool → List ℕ → List ℕ → Bool
unfolding translate
same_rows shift caps [] [] = true
same_rows shift caps [] (d ∷ ds) = false
same_rows shift caps (c ∷ cs) [] = false
same_rows shift caps (c ∷ cs) (d ∷ ds) =
    (translate shift caps c d == pick shift caps c d) && same_rows shift caps cs ds

both : (a b : Bool) → (a && b) ≡ true → (a ≡ true) × (b ≡ true)
both a b h = ground arith

of_rows :
    (shift caps : Bool) (cs ds : List ℕ) (i : ℕ)
    → same_rows shift caps cs ds ≡ true
    → translate shift caps 0 0 ≡ 0
    → translate shift caps (get_or cs i 0) (get_or ds i 0)
      ≡ pick shift caps (get_or cs i 0) (get_or ds i 0)
unfolding same_rows
of_rows shift caps [] [] i h z = z ∙ (ground arith)
of_rows shift caps [] (d ∷ ds) i h z = cc
of_rows shift caps (c ∷ cs) [] i h z = cc
of_rows shift caps (c ∷ cs) (d ∷ ds) zero h z = (==_iff _ _).0 (both _ _ h).0
of_rows shift caps (c ∷ cs) (d ∷ ds) (suc i) h z = of_rows shift caps cs ds i (both _ _ h).1 z

translate-key_char :
    (shift caps : Bool) (scancode : ℕ)
    → translate shift caps
        (get_or scancode_ascii scancode 0)
        (get_or scancode_ascii_shift scancode 0)
      ≡ key_char shift caps scancode
unfolding same_rows translate
translate-key_char true true i = of_rows true true scancode_ascii scancode_ascii_shift i refl refl
translate-key_char true false i = of_rows true false scancode_ascii scancode_ascii_shift i refl refl
translate-key_char false true i = of_rows false true scancode_ascii scancode_ascii_shift i refl refl
translate-key_char false false i =
    of_rows false false scancode_ascii scancode_ascii_shift i refl refl

get_or_past : (xs : List ℕ) (i : ℕ) → length xs ≤ i → get_or xs i 0 ≡ 0
get_or_past [] i h = refl
get_or_past (x ∷ xs) zero h = omega arith
get_or_past (x ∷ xs) (suc i) h = get_or_past xs i (omega arith)

no_key :
    (shift caps : Bool) (scancode : ℕ)
    → get_or scancode_ascii scancode 0 ≡ 0
    → get_or scancode_ascii_shift scancode 0 ≡ 0
    → (key_char shift caps scancode == 0) ≡ true
no_key shift caps scancode e e' = simp (e, e') (ground arith)

past :
    (shift caps : Bool) (scancode : ℕ) → 58 ≤ scancode → (key_char shift caps scancode == 0) ≡ true
past shift caps scancode h =
    no_key shift caps scancode (get_or_past scancode_ascii scancode h)
      (get_or_past scancode_ascii_shift scancode h)

shift_no_key :
    (shift caps : Bool) (i : ℕ) → (i == 42 || i == 54) ≡ true → (key_char shift caps i == 0) ≡ true
shift_no_key shift caps i h = elim (Bool-cases (i == 42)) [
  | inl left ↦
      let same : i ≡ 42 = ground arith in
      subst (λ n. (key_char shift caps n == 0) ≡ true) (sym same) (no_key shift caps 42 refl refl)
  | inr right ↦
      let same : i ≡ 54 = ground arith in
      subst (λ n. (key_char shift caps n == 0) ≡ true) (sym same) (no_key shift caps 54 refl refl)
]

-- An interrupt with a scancode adds the character of the key to the queue, the one that the shift
-- and caps lock state of the time picks from the two tables, and nothing if the key has none; the
-- state follows the make and break codes of the two shift keys and the make code of caps lock.
pub keyboard_handler-queue :
    (k : Keyboard) (scancode : ℕ)
    → IsRing k
    → let k' = keyboard_handler scancode k in
      let c = key_char k.shift_pressed k.caps_lock scancode in
      IsRing k'
      × (queue k' ≡ (if c == 0 then queue k else enqueue c (queue k)))
      × (k'.shift_pressed ≡ (
          if scancode == 42 || scancode == 54
          then true
          else if scancode == 170 || scancode == 182
          then false
          else k.shift_pressed))
      × (k'.caps_lock ≡ (if scancode == 58 then not k.caps_lock else k.caps_lock))
unfolding keyboard_handler
keyboard_handler-queue k scancode v =
    let shift = k.shift_pressed in
    let caps = k.caps_lock in
    elim (Bool-cases (scancode == 42 || scancode == 54)) [
      | inl make ↦
          let none_typed = shift_no_key shift caps scancode make in
          let other : (scancode == 58) ≡ false = ground arith in
          simp (make, none_typed, other)
            (record { size = v.size; head = v.head; tail = v.tail }, refl, refl, refl)
      | inr other_make ↦ elim (Bool-cases (scancode == 170 || scancode == 182)) [
        | inl break ↦
            let none_typed = past shift caps scancode (ground arith) in
            let other : (scancode == 58) ≡ false = ground arith in
            simp (other_make, break, none_typed, other)
              (record { size = v.size; head = v.head; tail = v.tail }, refl, refl, refl)
        | inr other_break ↦ elim (Bool-cases (scancode == 58)) [
          | inl lock ↦
              let none_typed = past shift caps scancode (ground arith) in
              simp (other_make, other_break, lock, none_typed)
                (record { size = v.size; head = v.head; tail = v.tail }, refl, refl, refl)
          | inr key ↦
              let same = translate-key_char shift caps scancode in
              elim (Bool-cases (ltb scancode 128)) [
                | inl low ↦
                    simp (other_make, other_break, key, low, same)
                      (pushed (key_char shift caps scancode))
                | inr high ↦
                    let none_typed = past shift caps scancode (ground arith) in
                    simp (other_make, other_break, key, high, none_typed) (v, refl, refl, refl)
              ]
        ]
      ]
    ]
  where
    flags :
        (c : ℕ)
        → ((keyboard_buffer_push c k).shift_pressed ≡ k.shift_pressed)
          × ((keyboard_buffer_push c k).caps_lock ≡ k.caps_lock)
    flags c = unfold keyboard_buffer_push in ground arith

    pushed :
        (c : ℕ)
        → let k' = if c == 0 then k else keyboard_buffer_push c k in
          IsRing k'
          × (queue k' ≡ (if c == 0 then queue k else enqueue c (queue k)))
          × (k'.shift_pressed ≡ k.shift_pressed)
          × (k'.caps_lock ≡ k.caps_lock)
    pushed c = elim (Bool-cases (c == 0)) [
      | inl nothing ↦ simp nothing (v, refl, refl, refl)
      | inr typed ↦
          let (ring, added) = keyboard_buffer_push-queue k c v in
          simp typed (ring, added, (flags c).0, (flags c).1)
    ]
