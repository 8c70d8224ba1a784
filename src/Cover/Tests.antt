-- ===== src/Cover/Tests.antt =====
-- A title of four words, wrapped.
use deckle.Base.{
  ◌+◌, ◌&&◌, ltb, ℕ, arith, ◌*◌, none, Bool, true, ◌||◌, [], ◌∷◌, ◌≡◌, refl, Text, codes, ◌=?◌, leb,
  length, map, has, All, join,
}
use deckle.Cover.Collage.{draw_collage_cover}
use deckle.Cover.Collage.Room.{Collage, draw_collage_cover-Collage}
use deckle.Cover.Drawing.{Fonts}
use deckle.Cover.Pattern.{draw_pattern, distance, fill_circle, circle_rows, circle_row}
use deckle.Cover.Pattern.Pixels.{is_set, fill_circle_lem}
use deckle.Cover.Pattern.Shades.{IsGray, centre, all_middles, heights, draw_pattern-IsGray}
use deckle.Document.Byline.{EpubArticle}
use deckle.Cover.{split_words, words_from, wrap_text, wrap_words, wrap_from}
use deckle.Cover.Words.{IsWord}
use deckle.Cover.Wrap.{unbreakable, split_words-wrap_text, wrap_text-lines}

abbrev title : Text
title = codes " The  long\tway home "

-- Eight characters fit.
abbrev eight : Text → Bool
eight l = leb (length l) 8

wrapped_title : wrap_text eight title ≡ codes "The long" ∷ codes "way home" ∷ []
unfolding wrap_text wrap_words wrap_from split_words words_from
wrapped_title = refl

words_are_words : All IsWord (codes "way" ∷ codes "home" ∷ [])
unfolding ◌=?◌
words_are_words = ((refl, refl), ((refl, refl), tt))

split_words-wrap_text_example :
    split_words (join (wrap_text eight title) (codes " ")) ≡ split_words title
split_words-wrap_text_example = split_words-wrap_text eight title

wrap_text-lines_example :
    All
      (λ l. (eight l || has (unbreakable title (split_words title)) l) ≡ true)
      (wrap_text eight title)
wrap_text-lines_example = wrap_text-lines eight title

-- Every character is 100 pixels wide and 500 high.
abbrev fonts : Fonts
fonts = record {
  measure = λ face t. 100 * length t;
  height = λ face. 500;
  ascent = λ face. 400;
  to_runes = λ t. t;
  from_runes = λ t. t;
}

abbrev article : EpubArticle
article = record {
  html = [];
  title = codes "Home";
  source = record { url = []; byline = codes "A"; site_name = []; published_time = none };
}

draw_collage_cover-Collage_example :
    Collage fonts
      (codes "T")
      (article ∷ article ∷ [])
      (draw_collage_cover fonts (codes "T") (article ∷ article ∷ []))
draw_collage_cover-Collage_example =
    draw_collage_cover-Collage fonts (codes "T") (article ∷ article ∷ [])

draw_pattern-IsGray_example :
    (map centre (draw_pattern (λ i. 7 * i)) ≡ all_middles heights)
    × All IsGray (draw_pattern (λ i. 7 * i))
draw_pattern-IsGray_example = draw_pattern-IsGray (λ i. 7 * i)

disc : fill_circle (λ d. leb d 1) 1 0 5 ≡ (0, 4) ∷ (0, 5) ∷ (1, 5) ∷ (0, 6) ∷ []
unfolding fill_circle circle_rows circle_row
disc = refl

-- The distance 2 and less
abbrev radius_2 : ℕ → Bool
radius_2 d = leb d 4

fill_circle_lem_example : is_set (fill_circle radius_2 2 10 10) 11 9 ≡ (
    (ltb 11 1200 && ltb 9 1800)
    && radius_2 (distance 11 10 * distance 11 10 + distance 9 10 * distance 9 10))
fill_circle_lem_example = fill_circle_lem radius_2 2 10 10 11 9 (λ d h. ground arith)
