-- ===== src/Cover/Drawing.antt =====
-- What is drawn on a cover, as the calls that draw it. The cover is 1200 pixels wide and 1800 high.
use deckle.Base.{ℕ, suc, zero, List, [], ◌∷◌, ◌++◌, Text, codes, map, leb, ◌==◌, if◌then◌else◌}
use deckle.Base.Decimal.{decimal}
use deckle.Base.Int.{ℤ, minus, add, half}
use deckle.Cover.{wrap_text}

pub data Face : Type 0 where
  bold regular small : Face

-- The fonts: `MeasureString(…).Ceil()`, `Height.Ceil()` and `Ascent.Ceil()`; and the conversions
-- between a Go string and its runes.
pub record Fonts : Type 0 where
  pub measure : Face → Text → ℕ
  pub height : Face → ℕ
  pub ascent : Face → ℕ
  pub to_runes : Text → Text
  pub from_runes : Text → Text

-- `drawString`, `SetGray` and `fillCircle`, whose radius comes from a byte, and a white band
pub data Ink : Type 0 where
  string : Text → Face → ℤ → ℤ → Ink
  pixel : ℕ → ℤ → ℕ → Ink
  circle : ℕ → ℕ → ℕ → ℕ → Ink
  band : ℕ → ℕ → Ink

module _ (fonts : Fonts) where
  -- `wrapText`
  unfoldable pub wrapped : Face → ℕ → Text → List Text
  wrapped face max_width text = map fonts.from_runes (
      wrap_text (λ line. leb (fonts.measure face (fonts.from_runes line)) max_width)
        (fonts.to_runes text))

  -- `(coverWidth-w)/2`
  abbrev pub centred : ℕ → ℤ
  centred w = half (minus 1200 w)

  -- A line that is centred
  abbrev pub centred_string : Face → Text → ℤ → Ink
  centred_string face line y = string line face (centred (fonts.measure face line)) y

  -- Centred lines below one another, the first at `y`
  unfoldable pub centred_lines : Face → ℕ → ℤ → List Text → List Ink
  centred_lines face line_height y [] = []
  centred_lines face line_height y (line ∷ lines) =
      centred_string face line y ∷ centred_lines face line_height (add y line_height) lines

abbrev pub count_text : ℕ → Text
count_text n = if n == 1 then codes "1 article" else decimal n ++ codes " articles"

-- A loop over `n` columns of pixels from `x` on
unfoldable pub rule : ℕ → ℕ → (ℕ → List Ink) → List Ink
rule zero x at = []
rule (suc n) x at = at x ++ rule n (suc x) at
