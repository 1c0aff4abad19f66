-- ===== src/Ata/Words.antt =====
-- The words that the driver writes to the data port and those it reads.
use hatcher.Base.{
  ℕ, zero, suc, ◌+◌, ◌*◌, ◌/◌, ◌%◌, ◌^◌, ◌<◌, ◌≡◌, refl, sym, ap, ◌∙◌, arith, List, [], ◌∷◌, ◌++◌,
  append_nil, get_or, drop, length,
}
use hatcher.Ata.{Device, read_words, write_words, word_bytes}

-- A data port that gives back the words written to it, in their order.
abbrev pub first_in : List ℕ → ℕ × List ℕ
first_in [] = (0, [])
first_in (w ∷ words) = (w, words)

abbrev pub queue : Device (List ℕ)
queue = record {
  outb = λ port value words. words;
  inb = λ port words. (0, words);
  outw = λ port value words. words ++ value ∷ [];
  inw = λ port words. first_in words;
}

abbrev pub AreBytes : List ℕ → Type 0
AreBytes [] = Unit
AreBytes (b ∷ bytes) = (b < 2 ^ 8) × AreBytes bytes

abbrev first_word : List ℕ → ℕ
first_word buffer = get_or buffer 0 0 + get_or buffer 1 0 * 2 ^ 8

-- The words of a buffer, as the loop of `ata_write_sector` takes them.
abbrev words_of : ℕ → List ℕ → List ℕ
words_of zero buffer = []
words_of (suc n) buffer = first_word buffer ∷ words_of n (drop 2 buffer)

append_step : (xs ys : List ℕ) (w : ℕ) → (xs ++ w ∷ []) ++ ys ≡ xs ++ w ∷ ys
append_step [] ys w = refl
append_step (x ∷ xs) ys w = ap (λ zs. x ∷ zs) (append_step xs ys w)

write_words_lem :
    (n base : ℕ) (buffer words : List ℕ)
    → write_words queue n base buffer words ≡ words ++ words_of n buffer
unfolding write_words
write_words_lem zero base buffer words = sym (append_nil words)
write_words_lem (suc n) base buffer words =
    write_words_lem n base (drop 2 buffer) (words ++ first_word buffer ∷ [])
    ∙ append_step words (words_of n (drop 2 buffer)) (first_word buffer)

read_words_lem :
    (n base : ℕ) (buffer : List ℕ)
    → (read_words queue n base (words_of n buffer)).0 ≡ words_of n buffer
unfolding read_words
read_words_lem zero base buffer = refl
read_words_lem (suc n) base buffer =
    ap (λ ws. first_word buffer ∷ ws) (read_words_lem n base (drop 2 buffer))

word_bytes-words_of :
    (n : ℕ) (buffer : List ℕ)
    → length buffer ≡ n * 2
    → AreBytes buffer
    → word_bytes (words_of n buffer) ≡ buffer
word_bytes-words_of zero [] e small = refl
word_bytes-words_of zero (a ∷ buffer) e small = absurd (omega arith)
word_bytes-words_of (suc n) [] e small = absurd (omega arith)
word_bytes-words_of (suc n) (a ∷ []) e small = absurd (omega arith)
word_bytes-words_of (suc n) (a ∷ b ∷ buffer) e (small_a, (small_b, small)) =
    let low : (a + b * 2 ^ 8) % 2 ^ 8 ≡ a = omega arith in
    let high : (a + b * 2 ^ 8) / 2 ^ 8 % 2 ^ 8 ≡ b = omega arith in
    let rest = word_bytes-words_of n buffer (omega arith) small in λ i. low i ∷ high i ∷ rest i

-- A buffer of 512 bytes that is written to the data port, with the writes of `ata_write_sector`, comes back
-- byte for byte when the words are read from the port in their order, with the reads of `ata_read_sector`.
pub word_bytes-read_words :
    (base : ℕ) (buffer : List ℕ)
    → length buffer ≡ 512
    → AreBytes buffer
    → word_bytes (read_words queue 256 base (write_words queue 256 base buffer [])).0 ≡ buffer
word_bytes-read_words base buffer e small =
    let written = write_words_lem 256 base buffer [] in
    ap (λ words. word_bytes (read_words queue 256 base words).0) written
    ∙ ap word_bytes (read_words_lem 256 base buffer)
    ∙ word_bytes-words_of 256 buffer e small
