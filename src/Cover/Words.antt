-- ===== src/Cover/Words.antt =====
-- `splitWords` and the words that are joined by blanks.
use deckle.Base.{
  ℕ, Bool-cases, inl, inr, true, false, not, List, [], ◌∷◌, ◌++◌, append_assoc, append-nil, ◌≡◌,
  refl, sym, ap, ◌∙◌, arith, Text, codes, ◌=?◌, all, All, join, if◌then◌else◌,
}
use deckle.Cover.{is_blank, prepend_word, words_from, split_words}

-- Not empty, and without blanks.
abbrev pub IsWord : Text → Type 0
IsWord w = ((w =? []) ≡ false) × (all (λ r. not (is_blank r)) w ≡ true)

-- What is not blank.
abbrev pub letters : Text → Text
letters [] = []
letters (r ∷ s) = if is_blank r then letters s else r ∷ letters s

abbrev pub concat : List Text → Text
concat [] = []
concat (w ∷ ws) = w ++ concat ws

concat-prepend_word : (w : Text) (ws : List Text) → concat (prepend_word w ws) ≡ w ++ concat ws
concat-prepend_word [] ws = refl
concat-prepend_word (r ∷ w) ws = refl

concat-words_from : (w s : Text) → concat (words_from w s) ≡ w ++ letters s
unfolding words_from
concat-words_from w [] = concat-prepend_word w []
concat-words_from w (r ∷ s) = ground (
  arith,
  concat-prepend_word w (words_from [] s),
  concat-words_from [] s,
  concat-words_from (w ++ (r ∷ [])) s,
  append_assoc w (r ∷ []) (letters s),
)

all-snoc :
    (w : Text) (r : ℕ)
    → all (λ r. not (is_blank r)) w ≡ true
    → is_blank r ≡ false
    → all (λ r. not (is_blank r)) (w ++ (r ∷ [])) ≡ true
all-snoc [] r h b = ground arith
all-snoc (c ∷ w) r h b = ground (arith, all-snoc w r)

prepend_word-IsWord :
    (w : Text) (ws : List Text)
    → all (λ r. not (is_blank r)) w ≡ true
    → All IsWord ws
    → All IsWord (prepend_word w ws)
unfolding ◌=?◌
prepend_word-IsWord [] ws h a = a
prepend_word-IsWord (r ∷ w) ws h a = ((refl, h), a)

words_from-IsWord :
    (w s : Text) → all (λ r. not (is_blank r)) w ≡ true → All IsWord (words_from w s)
unfolding words_from
words_from-IsWord w [] h = prepend_word-IsWord w [] h tt
words_from-IsWord w (r ∷ s) h = elim (Bool-cases (is_blank r)) [
  | inl e ↦ rw e (prepend_word-IsWord w (words_from [] s) h (words_from-IsWord [] s refl))
  | inr e ↦ rw e (words_from-IsWord (w ++ (r ∷ [])) s (all-snoc w r h e))
]

-- The words are not empty and hold no blanks, and together they are the text without its blanks.
pub split_words_lem : (s : Text) → All IsWord (split_words s) × (concat (split_words s) ≡ letters s)
unfolding split_words
split_words_lem s = (words_from-IsWord [] s refl, concat-words_from [] s)

-- A word is read to its end.
words_from-word :
    (w v s : Text)
    → all (λ r. not (is_blank r)) v ≡ true
    → words_from w (v ++ s) ≡ words_from (w ++ v) s
unfolding words_from
words_from-word w [] s h = rw append-nil refl
words_from-word w (r ∷ v) s h =
    ground (arith, words_from-word (w ++ (r ∷ [])) v s, append_assoc w (r ∷ []) v)

prepend_word-eq : (w : Text) (ws : List Text) → IsWord w → prepend_word w ws ≡ w ∷ ws
unfolding ◌=?◌
prepend_word-eq [] ws h = cc
prepend_word-eq (r ∷ w) ws h = refl

-- Words that are joined by blanks are split again.
pub split_words-join : (ws : List Text) → All IsWord ws → split_words (join ws (codes " ")) ≡ ws
unfolding split_words words_from join
split_words-join [] h = refl
split_words-join (w ∷ []) h =
    ap (words_from []) (sym (append-nil w))
    ∙ words_from-word [] w [] h.0.1
    ∙ prepend_word-eq w [] h.0
split_words-join (w ∷ v ∷ ws) h =
    words_from-word [] w (codes " " ++ join (v ∷ ws) (codes " ")) h.0.1
    ∙ prepend_word-eq w (split_words (join (v ∷ ws) (codes " "))) h.0
    ∙ ap (◌∷◌ w) (split_words-join (v ∷ ws) h.1)
