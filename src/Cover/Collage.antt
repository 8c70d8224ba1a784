-- ===== src/Cover/Collage.antt =====
-- `drawCollageCover`.
pub mod Room
use deckle.Base.{
  ℕ, zero, suc, ◌+◌, ◌*◌, ◌-◌, ltb, List, [], ◌∷◌, ◌++◌, Text, codes, ◌=?◌, join, length, take,
  trim_suffix, if◌then◌else◌,
}
use deckle.Base.Decimal.{decimal}
use deckle.Base.Int.{ℤ, pos}
use deckle.Cover.Drawing.{Face, bold, regular, small, Fonts, Ink, string, pixel, wrapped, rule}
use deckle.Document.Byline.{EpubArticle}

-- At most two lines, the second with "..." if there were more
abbrev pub two_lines : List Text → List Text
two_lines (a ∷ b ∷ c ∷ lines) = a ∷ (trim_suffix b (codes "...") ++ codes "...") ∷ []
two_lines lines = lines

-- `metaParts`
abbrev pub author_and_site : Text → Text → List Text
author_and_site byline site_name =
    (if byline =? [] then [] else byline ∷ []) ++ (if site_name =? [] then [] else site_name ∷ [])

module _ (fonts : Fonts) where
  abbrev pub body_height : ℕ
  body_height = fonts.height regular + 8

  abbrev pub meta_height : ℕ
  meta_height = fonts.height small + 8

  -- Lines at the left margin, the first at `y`
  unfoldable pub lines_at : Face → ℕ → ℕ → List Text → List Ink
  lines_at face line_height y [] = []
  lines_at face line_height y (line ∷ lines) =
      string line face (pos 80) (pos (y + fonts.ascent face))
      ∷ lines_at face line_height (y + line_height) lines

  -- The loop that cuts bytes off, for a text of this length
  unfoldable pub cut_bytes : ℕ → Text → Text
  cut_bytes zero t = t
  cut_bytes (suc n) t =
      let shorter = cut_bytes n (take n t) in
      if ltb 1040 (fonts.measure small (t ++ codes "...")) then shorter else t

  -- `metaStr`
  unfoldable pub fitted_meta : Text → Text
  fitted_meta meta =
      if ltb 1040 (fonts.measure small meta)
      then cut_bytes (length meta) meta ++ codes "..."
      else meta

  -- An em dash in UTF-8, and the parts
  abbrev pub meta_text : List Text → Text
  meta_text parts = (0xe2 ∷ 0x80 ∷ 0x94 ∷ 0x20 ∷ []) ++ join parts (codes ", ")

  unfoldable pub meta_lines : ℕ → List Text → List Ink
  meta_lines y [] = []
  meta_lines y (part ∷ parts) =
      string (fitted_meta (meta_text (part ∷ parts))) small (pos 80) (pos (y + fonts.ascent small))
      ∷ []

  abbrev pub meta_room : List Text → ℕ
  meta_room [] = 0
  meta_room (part ∷ parts) = meta_height

  -- The lines of the title of the article with this index
  unfoldable pub title_lines : ℕ → EpubArticle → List Text
  title_lines i a =
      let title = if a.title =? [] then codes "Article " ++ decimal (i + 1) else a.title in
      two_lines (wrapped fonts regular 1040 title)

  abbrev pub parts_of : EpubArticle → List Text
  parts_of a = author_and_site a.source.byline a.source.site_name

  -- What is drawn for an article, and where it ends
  unfoldable pub entry : ℕ → ℕ → EpubArticle → List Ink
  entry i y a =
      let titles = title_lines i a in
      lines_at regular body_height y titles
      ++ meta_lines (y + length titles * body_height) (parts_of a)

  unfoldable pub entry_end : ℕ → ℕ → EpubArticle → ℕ
  entry_end i y a = y + length (title_lines i a) * body_height + meta_room (parts_of a) + 30

  -- `entryHeight`
  unfoldable pub entry_height : ℕ → EpubArticle → ℕ
  entry_height i a = length (title_lines i a) * body_height + meta_height + 30

  abbrev pub more_text : ℕ → Text
  more_text n = codes "+ " ++ (decimal n ++ codes " more articles")

  abbrev pub more_line : ℕ → ℕ → List Ink
  more_line y zero = []
  more_line y (suc n) =
      string (more_text (suc n)) regular (pos 80) (pos (y + fonts.ascent regular)) ∷ []

  -- The loop over the articles, of which `shown` have been drawn
  unfoldable pub entries : ℕ → ℕ → ℕ → List EpubArticle → List Ink
  entries total shown y [] = []
  entries total shown y (a ∷ articles) =
      let rest = entries total (shown + 1) (entry_end shown y a) articles in
      if ltb 1460 (y + entry_height shown a)
      then more_line y (total - shown)
      else entry shown y a ++ rest

  -- `drawCollageCover`
  unfoldable pub draw_collage_cover : Text → List EpubArticle → List Ink
  draw_collage_cover title articles =
      let lines = wrapped fonts bold 1040 title in
      let line_height = fonts.height bold + 8 in
      let y = 120 + length lines * line_height + 40 in
      lines_at bold line_height 120 lines
      ++ (rule 1040 80
            (λ x. pixel x (pos y) 0 ∷ pixel x (pos (y + 1)) 0 ∷ pixel x (pos (y + 6)) 0 ∷ [])
          ++ entries (length articles) 0 (y + 60) articles)
