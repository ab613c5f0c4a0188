-- ===== src/Program/Words.antt =====
-- The words of a query: `createStringFromWordList` of trademgen/batches/trademgen_with_db.cpp and of
-- trademgen/ui/cmdline/trademgen.cpp, which counts the words that are left in 16 bits.
use Prim.Native.Nat.{◌%◌, ◌^◌}
use Prim.Native.String.{String, ◌++◌ as str_append}
use text.Mathlib.TextLemmas.{nil-append}
use trademgen.Prelude.{
  sym, ap, ◌∙◌, false, ◌==◌, ℕ, ◌+◌, ◌-◌, ◌<◌, ◌≡◌, refl, true, List, [], ◌∷◌, arith, ltb,
  if◌then◌else◌, length,
}
use trademgen.Session.{to_string, to_string_from}

-- `--idx` on an `unsigned short`.
unfoldable pub decrement : ℕ → ℕ
decrement idx = (idx + (2 ^ 16 - 1)) % 2 ^ 16

unfoldable pub words_from : ℕ → List String → String
unfolding decrement
words_from idx [] = ""
words_from idx (word ∷ words) =
    str_append word (str_append (if ltb 1 idx then " " else "") (words_from (decrement idx) words))

unfoldable pub create_string_from_word_list : List String → String
unfolding words_from
create_string_from_word_list words = words_from (length words % 2 ^ 16) words

-- The words that are left, where the two indices do not wrap around: the space that one puts after a
-- word is the one that the other puts before the next.
to_string_from-words_from :
    (idx : ℕ) (word : String) (words : List String)
    → idx + length (word ∷ words) < 2 ^ 16
    → to_string_from idx (word ∷ words)
      ≡ str_append
          (if idx == 0 then "" else " ")
          (words_from (length (word ∷ words)) (word ∷ words))
unfolding words_from to_string_from decrement
to_string_from-words_from idx word [] h = refl
to_string_from-words_from idx word (next ∷ words) h =
    let rest = to_string_from-words_from (idx + 1) next words (omega arith) in
    let fits : (idx + 1) % 2 ^ 16 ≡ idx + 1 = omega arith in
    let later : (idx + 1 == 0) ≡ false = ground arith in
    let left : decrement (length (word ∷ (next ∷ words))) ≡ length (next ∷ words) = omega arith in
    let more : ltb 1 (length (word ∷ (next ∷ words))) ≡ true = ground arith in
    ap (λ v. str_append (if idx == 0 then "" else " ") (str_append word v))
      (ap (λ i. to_string_from i (next ∷ words)) fits ∙ rest ∙ rw (later, more, left) refl)

words_from-to_string :
    (words : List String)
    → length words < 2 ^ 16
    → words_from (length words) words ≡ to_string words
unfolding words_from to_string to_string_from
words_from-to_string [] h = refl
words_from-to_string (word ∷ words) h =
    sym (nil-append _) ∙ sym (to_string_from-words_from 0 word words (omega arith))

-- The text of fewer than 2 ^ 16 words is the one that `toString` makes of a list of tokens: the
-- words with a space between two.
pub create_string-to_string :
    (words : List String)
    → length words < 2 ^ 16
    → create_string_from_word_list words ≡ to_string words
unfolding create_string_from_word_list
create_string-to_string words h =
    let fits : length words % 2 ^ 16 ≡ length words = omega arith in
    rw fits (words_from-to_string words h)
