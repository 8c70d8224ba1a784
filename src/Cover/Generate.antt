-- ===== src/Cover/Generate.antt =====
-- `generateCover`: the choice of the style.
use deckle.Base.{ℕ, Option, ◌>>=◌, List, [], ◌∷◌, ◌++◌, Text, codes, ◌=?◌, length, if◌then◌else◌}
use deckle.Base.Int.{pos, minus}
use deckle.Cover.Collage.{draw_collage_cover}
use deckle.Cover.Drawing.{regular, Fonts, Ink, string}
use deckle.Cover.Pattern.{draw_pattern_cover}
use deckle.Cover.Typographic.{draw_typographic_cover}
use deckle.Document.Byline.{EpubArticle}

-- `loadFace` of the three faces, `sha256.Sum256` by index, `strings.ToUpper`, today as a date, and
-- `png.Encode` of a white picture with the drawing on it
pub record Studio : Type 0 where
  pub load_faces : Option Fonts
  pub sha_256 : Text → ℕ → ℕ
  pub to_upper : Text → Text
  pub date : Text
  pub encode_png : List Ink → Option Text

-- `drawLabel` at the right
unfoldable pub draw_label : Fonts → Text → Ink
draw_label fonts text = string text regular (minus 1160 (fonts.measure regular text)) (pos 1760)

module _ (studio : Studio) where
  unfoldable pub draw_style : Fonts → Text → List EpubArticle → Text → List Ink
  draw_style fonts title articles style =
      if style =? codes "pattern"
      then draw_pattern_cover studio.sha_256 fonts title (length articles)
      else if style =? codes "collage"
      then draw_collage_cover fonts title articles
      else draw_typographic_cover fonts studio.to_upper studio.date title (length articles)

  -- `generateCover`; `none` is an error
  unfoldable pub generate_cover : Text → List EpubArticle → Text → Option Text
  generate_cover title articles style = do
    fonts ← studio.load_faces
    studio.encode_png
        (draw_style fonts title articles style ++ draw_label fonts (codes "deckle") ∷ [])
