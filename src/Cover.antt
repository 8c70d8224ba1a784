-- ===== src/Cover.antt =====
-- cover.go: the words of a title, and the lines that it is drawn in. Texts are code points. Whether
-- a line fits its width is a parameter: `font.MeasureString(face, trial).Ceil() <= maxWidth`.
pub mod Words
pub mod Wrap
pub mod Drawing
pub mod Typographic
pub mod Collage
pub mod Pattern
pub mod Generate
mod Tests
use deckle.Base.{ℕ, Bool, ◌||◌, List, [], ◌∷◌, ◌++◌, Text, ◌==◌, if◌then◌else◌}

abbrev pub is_blank : ℕ → Bool
is_blank r = r == b' ' || (r == b'\t' || r == b'\n')

-- `if word.Len() > 0 { words = append(words, word.String()) }`, in front of the words that follow
abbrev pub prepend_word : Text → List Text → List Text
prepend_word [] words = words
prepend_word (r ∷ word) words = (r ∷ word) ∷ words

-- The loop of `splitWords`, with the part of the current word that has been read
unfoldable pub words_from : Text → Text → List Text
words_from word [] = prepend_word word []
words_from word (r ∷ s) =
    let ended = prepend_word word (words_from [] s) in
    let longer = words_from (word ++ (r ∷ [])) s in if is_blank r then ended else longer

-- `splitWords`
unfoldable pub split_words : Text → List Text
split_words s = words_from [] s

-- The loop of `wrapText`, with the current line
unfoldable pub wrap_from : (Text → Bool) → Text → List Text → List Text
wrap_from fits current [] = current ∷ []
wrap_from fits current (word ∷ words) =
    let trial = current ++ (b' ' ∷ word) in
    let same_line = wrap_from fits trial words in
    let next_line = current ∷ wrap_from fits word words in
    if fits trial then same_line else next_line

-- What `wrapText` does with the words of the text
unfoldable pub wrap_words : (Text → Bool) → Text → List Text → List Text
wrap_words fits text [] = text ∷ []
wrap_words fits text (word ∷ words) = wrap_from fits word words

-- `wrapText`
unfoldable pub wrap_text : (Text → Bool) → Text → List Text
wrap_text fits text = wrap_words fits text (split_words text)
