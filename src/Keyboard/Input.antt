-- ===== src/Keyboard/Input.antt =====
-- `kgetch`, which waits for a character, and the line that `kgets` edits.
use hatcher.Base.{
  ℕ, zero, suc, ◌+◌, ◌-◌, ◌≤◌, ◌<◌, ◌≡◌, refl, ap, ◌∙◌, Bool, true, false, Option, none, some, List,
  [], ◌∷◌, ◌++◌, inl, inr, arith, ◌==◌, ◌&&◌, ◌||◌, ltb, leb, if◌then◌else◌, Bool-cases, length,
  set, take, length-set, length-append,
}
use hatcher.Keyboard.{
  Keyboard, Line, keyboard_buffer_pop, keyboard_handler, handle_all, kgetch, kgets_char, kgets_loop,
  kgets,
}
use hatcher.Keyboard.Queue.{queue, IsRing, keyboard_buffer_pop-queue}
use hatcher.Keyboard.Keys.{keyboard_handler-queue}

abbrev pub concat : List (List ℕ) → List ℕ
concat [] = []
concat (xs ∷ xss) = xs ++ concat xss

handle_all-IsRing : (codes : List ℕ) (k : Keyboard) → IsRing k → IsRing (handle_all codes k)
unfolding handle_all
handle_all-IsRing [] k v = v
handle_all-IsRing (c ∷ codes) k v =
    handle_all-IsRing codes (keyboard_handler c k) (keyboard_handler-queue k c v).0

handle_all-append :
    (xs ys : List ℕ) (k : Keyboard) → handle_all (xs ++ ys) k ≡ handle_all ys (handle_all xs k)
unfolding handle_all
handle_all-append [] ys k = refl
handle_all-append (x ∷ xs) ys k = handle_all-append xs ys (keyboard_handler x k)

-- No character waits before any of these rounds.
abbrev pub NoneWaits : List (List ℕ) → Keyboard → Type 0
NoneWaits [] k = Unit
NoneWaits (codes ∷ rounds) k = (queue k ≡ []) × NoneWaits rounds (handle_all codes k)

-- What `kgetch` gives for the rounds that come: it stops in the first round in which a character
-- waits, and takes the oldest one.
abbrev pub Got : List (List ℕ) → Keyboard → Option (ℕ × Keyboard × List (List ℕ)) → Type 0
Got rounds k none = NoneWaits rounds k × (queue (handle_all (concat rounds) k) ≡ [])
Got rounds k (some (c, k', rest)) =
    (used : List (List ℕ)) × (rounds ≡ used ++ rest)
    × NoneWaits used k
    × IsRing k'
    × (queue (handle_all (concat used) k) ≡ c ∷ queue k')

later :
    (codes : List ℕ) (rounds : List (List ℕ)) (k : Keyboard)
    (o : Option (ℕ × Keyboard × List (List ℕ)))
    → queue k ≡ []
    → Got rounds (handle_all codes k) o
    → Got (codes ∷ rounds) k o
later codes rounds k none empty (waits, g) =
    ((empty, waits), rw (handle_all-append codes (concat rounds) k) g)
later codes rounds k (some (c, k', rest)) empty (used, e, waits, v, q) = (
  codes ∷ used,
  ap (λ xs. codes ∷ xs) e,
  (empty, waits),
  v,
  rw (handle_all-append codes (concat used) k) q,
)

kgetch_over : (k : Keyboard) → (keyboard_buffer_pop k).0 ≡ none → kgetch [] k ≡ none
unfolding kgetch
kgetch_over k miss = rw (kgetch, miss) refl

kgetch_wait :
    (codes : List ℕ) (rounds : List (List ℕ)) (k : Keyboard)
    → (keyboard_buffer_pop k).0 ≡ none
    → kgetch (codes ∷ rounds) k ≡ kgetch rounds (handle_all codes (keyboard_buffer_pop k).1)
unfolding kgetch
kgetch_wait codes rounds k miss = rw (kgetch, miss) refl

kgetch_hit :
    (rounds : List (List ℕ)) (k : Keyboard) (c : ℕ)
    → (keyboard_buffer_pop k).0 ≡ some c
    → kgetch rounds k ≡ some (c, (keyboard_buffer_pop k).1, rounds)
unfolding kgetch
kgetch_hit [] k c hit = rw (kgetch, hit) refl
kgetch_hit (codes ∷ rounds) k c hit = rw (kgetch, hit) refl

-- `kgetch` takes the oldest character that waits, in the first round in which one does: in the rounds
-- before, none waits. It loses no character, and it waits on only if none waits in any of the rounds.
pub kgetch-queue :
    (rounds : List (List ℕ)) (k : Keyboard) → IsRing k → Got rounds k (kgetch rounds k)
unfolding handle_all
kgetch-queue [] k v = elim (keyboard_buffer_pop-queue k v).1 [
  | inl (miss, empty, same) ↦ rw (kgetch_over k miss) (tt, empty)
  | inr (c, hit, q) ↦
      rw (kgetch_hit [] k c hit) ([], refl, tt, (keyboard_buffer_pop-queue k v).0, q)
]
kgetch-queue (codes ∷ rounds) k v = elim (keyboard_buffer_pop-queue k v).1 [
  | inl (miss, empty, same) ↦
      rw (kgetch_wait codes rounds k miss, same)
        (later codes rounds k (kgetch rounds (handle_all codes k)) empty
          (kgetch-queue rounds (handle_all codes k) (handle_all-IsRing codes k v)))
  | inr (c, hit, q) ↦
      rw (kgetch_hit (codes ∷ rounds) k c hit) ([], refl, tt, (keyboard_buffer_pop-queue k v).0, q)
]

-- The editing of a line: a text that grows and shrinks at its end.
abbrev pub erase_last : List ℕ → List ℕ
erase_last [] = []
erase_last (c ∷ []) = []
erase_last (c ∷ d ∷ s) = c ∷ erase_last (d ∷ s)

abbrev pub is_printable : ℕ → Bool
is_printable c = leb 32 c && ltb c 127

abbrev pub edit : ℕ → List ℕ → List ℕ
edit c text =
    if c == 8 || c == 127
    then erase_last text
    else if is_printable c && ltb (length text) 255
    then text ++ (c ∷ [])
    else text

abbrev pub edited : List ℕ → List ℕ → Option (List ℕ)
edited [] text = none
edited (c ∷ input) text =
    let rest = edited input (edit c text) in if c == b'\n' || c == b'\r' then some text else rest

-- The first `pos` bytes of the buffer are the text.
abbrev Shows : Line → List ℕ → Type 0
Shows l text =
    (length l.buf ≡ 256) × (l.pos ≡ length text) × (length text ≤ 255) × (take l.pos l.buf ≡ text)

take-set :
    (i : ℕ) (b : List ℕ) (c : ℕ) → i < length b → take (suc i) (set b i c) ≡ take i b ++ (c ∷ [])
take-set i [] c h = elim h [ ]
take-set zero (x ∷ b) c h = refl
take-set (suc i) (x ∷ b) c h = ap (λ s. x ∷ s) (take-set i b c (omega arith))

take-set_self : (i : ℕ) (b : List ℕ) (c : ℕ) → take i (set b i c) ≡ take i b
take-set_self zero b c = refl
take-set_self (suc i) [] c = refl
take-set_self (suc i) (x ∷ b) c = ap (λ s. x ∷ s) (take-set_self i b c)

take-erase_last : (i : ℕ) (b : List ℕ) → i < length b → take i b ≡ erase_last (take (suc i) b)
take-erase_last i [] h = elim h [ ]
take-erase_last zero (x ∷ b) h = refl
take-erase_last (suc i) (x ∷ []) h = absurd (omega arith)
take-erase_last (suc i) (x ∷ y ∷ b) h = ap (λ s. x ∷ s) (take-erase_last i (y ∷ b) (omega arith))

length-erase_last : (s : List ℕ) → length (erase_last s) ≡ length s - 1
length-erase_last [] = omega arith
length-erase_last (c ∷ []) = omega arith
length-erase_last (c ∷ d ∷ s) = omega (arith, length-erase_last (d ∷ s))

kgets_char-Shows :
    (c : ℕ) (l : Line) (text : List ℕ) → Shows l text → Shows (kgets_char c l) (edit c text)
unfolding kgets_char
kgets_char-Shows c l text (size, at, le, shown) = elim (Bool-cases (c == 8 || c == 127)) [
  | inl back ↦ erased l.pos text refl back at shown le
  | inr other ↦
      let room : ltb l.pos 255 ≡ ltb (length text) 255 = ap (λ n. ltb n 255) at in
      simp (other, room) (typed room)
]
  where
    erased :
        (p : ℕ) (text : List ℕ)
        → l.pos ≡ p
        → (c == 8 || c == 127) ≡ true
        → l.pos ≡ length text
        → take l.pos l.buf ≡ text
        → length text ≤ 255
        → Shows (kgets_char c l) (edit c text)
    erased zero [] here back at shown le =
        let none_left : ltb 0 l.pos ≡ false = ground arith in
        let plain : (leb 32 c && ltb c 127) ≡ false = ground arith in
        simp (back, none_left, plain) (size, at, le, shown)
    erased (suc p) [] here back at shown le = absurd (omega arith)
    erased p (d ∷ text) here back at shown le =
        let some_left : ltb 0 l.pos ≡ true = ground arith in
        let more : suc (l.pos - 1) ≡ l.pos = omega arith in
        simp (back, some_left)
          (
            size,
            omega (arith, length-erase_last (d ∷ text)),
            omega (arith, length-erase_last (d ∷ text)),
            take-erase_last (l.pos - 1) l.buf (omega arith) ∙ rw (more, shown) refl,
          )

    typed :
        ltb l.pos 255 ≡ ltb (length text) 255
        → let ok = is_printable c && ltb (length text) 255 in
          Shows
            (if ok
              then record l { buf = set l.buf l.pos c; pos = l.pos + 1; echo = l.echo ++ (c ∷ []) }
              else l)
            (if ok then text ++ (c ∷ []) else text)
    typed room = elim (Bool-cases (is_printable c && ltb (length text) 255)) [
      | inl printed ↦
          let next : l.pos + 1 ≡ suc l.pos = omega arith in
          simp (printed, next)
            (
              length-set l.buf l.pos c ∙ size,
              omega (arith, length-append text (c ∷ [])),
              ground (arith, length-append text (c ∷ [])),
              take-set l.pos l.buf c (omega arith) ∙ ap (λ s. s ++ (c ∷ [])) shown,
            )
      | inr dropped ↦ simp dropped (size, at, le, shown)
    ]

abbrev line_of : Option Line → Option (List ℕ)
line_of none = none
line_of (some l) = some (take l.pos l.buf)

kgets_loop-edited :
    (input : List ℕ) (l : Line) (text : List ℕ)
    → Shows l text
    → line_of (kgets_loop input l) ≡ edited input text
unfolding kgets_loop
kgets_loop-edited [] l text v = refl
kgets_loop-edited (c ∷ input) l text v = elim (Bool-cases (c == b'\n' || c == b'\r')) [
  | inl end ↦ simp end (ap some (take-set_self l.pos l.buf 0 ∙ v.3))
  | inr more ↦
      simp more
        (kgets_loop-edited input (kgets_char c l) (edit c text) (kgets_char-Shows c l text v))
]

-- `kgets` returns the line that the characters up to the line end spell: a printable character is
-- added at the end, up to 255 of them, a backspace takes the last one away, and all else is
-- skipped.
pub kgets-edited : (buf input : List ℕ) → length buf ≡ 256 → kgets buf input ≡ edited input []
unfolding kgets
kgets-edited buf input size =
    let start : Line = record { buf = buf; pos = 0; echo = [] } in
    same (kgets_loop input start) ∙ kgets_loop-edited input start [] (size, refl, omega arith, refl)
  where
    same : (o : Option Line) → elim o [ none ↦ none | some l ↦ some (take l.pos l.buf) ] ≡ line_of o
    same none = refl
    same (some l) = refl
