-- ===== src/Cover/Typographic.antt =====
-- `drawTypographicCover` and `drawTitleBlock`. `strings.ToUpper` and the text of the date are
-- parameters.
use deckle.Base.{ℕ, ◌+◌, ◌*◌, ◌-◌, ◌/◌, ltb, List, [], ◌∷◌, ◌++◌, Text, length, max, if◌then◌else◌}
use deckle.Base.Int.{ℤ, pos, minus, add, subtract, half}
use deckle.Cover.Drawing.{
  bold, regular, Fonts, Ink, pixel, band, wrapped, centred_string, centred_lines, count_text, rule,
}

module _ (fonts : Fonts) where
  -- `titleW`
  unfoldable pub widest : List Text → ℕ
  widest [] = 0
  widest (line ∷ lines) = max (fonts.measure bold line) (widest lines)

  -- `ruleW`
  abbrev pub rule_width : List Text → ℕ
  rule_width lines = if ltb 960 (widest lines) then 960 else widest lines

  -- `startY`
  abbrev pub start_y : ℕ → ℤ
  start_y total_height = subtract (half (minus 1800 total_height)) 60

  -- The divider rule
  unfoldable pub divider : List Text → ℤ → List Ink
  divider lines y = rule (rule_width lines) ((1200 - rule_width lines) / 2) (λ x. pixel x y 0 ∷ [])

  -- What is below the divider rule
  unfoldable pub count_and_date : ℕ → Text → ℤ → List Ink
  count_and_date article_count date y =
      let meta_line_h = fonts.height regular + 12 in
      let ascent = fonts.ascent regular in
      centred_string fonts regular (count_text article_count) (add y ascent)
      ∷ centred_string fonts regular date (add (add y meta_line_h) ascent)
      ∷ []

  -- `drawTypographicCover`
  unfoldable pub draw_typographic_cover : (Text → Text) → Text → Text → ℕ → List Ink
  draw_typographic_cover to_upper date title article_count =
      let lines = wrapped fonts bold 960 (to_upper title) in
      let title_line_h = fonts.height bold + 8 in
      let meta_line_h = fonts.height regular + 12 in
      let total_height = length lines * title_line_h + 50 + 6 + 50 + meta_line_h + meta_line_h in
      let y = start_y total_height in
      let rule_y = add y (length lines * title_line_h + 50) in
      centred_lines fonts bold title_line_h (add y (fonts.ascent bold)) lines
      ++ (divider lines rule_y ++ count_and_date article_count date (add rule_y 50))

  -- `drawTitleBlock`
  unfoldable pub draw_title_block : Text → ℕ → List Ink
  draw_title_block title article_count =
      let lines = wrapped fonts bold 1040 title in
      let line_height = fonts.height bold + 8 in
      let total_height = length lines * line_height + (fonts.height regular + 16) in
      let y = add (add (half (minus 500 total_height)) 650) (fonts.ascent bold) in
      band 650 1150
      ∷ (rule 1040 80 (λ x. pixel x (pos 670) 0x99 ∷ pixel x (pos 1130) 0x99 ∷ [])
          ++ (centred_lines fonts bold line_height y lines
              ++ (centred_string fonts regular (count_text article_count)
                    (add y (length lines * line_height + 16))
                  ∷ [])))
