-- ===== src/Cover/Collage/Room.antt =====
-- Which articles a collage shows.
use deckle.Base.{
  All, refl, zero, ℕ, suc, ◌+◌, ◌*◌, ◌-◌, ◌≤◌, ◌<◌, ltb, Bool-cases, inl, inr, List, [], ◌∷◌, ◌++◌,
  ◌≡◌, arith, Text, length,
}
use deckle.Base.Int.{ℤ, pos}
use deckle.Cover.Collage.{
  entry, entry_end, entry_height, entries, more_text, parts_of, meta_room, draw_collage_cover,
  lines_at, meta_height,
}
use deckle.Cover.Drawing.{bold, regular, Fonts, Ink, string, pixel, circle, band, rule, wrapped}
use deckle.Document.Byline.{EpubArticle}

module _ (fonts : Fonts) where
  -- The drawing of articles from an index and a height on: entries that end above the limit, until
  -- there is no article left or no room for the next. Then a line says how many are left.
  pub data Entries : ℕ → ℕ → List EpubArticle → List Ink → Type 0 where
    all_shown : {i y : ℕ} → Entries i y [] []
    no_room :
        {i y : ℕ} {a : EpubArticle} {articles : List EpubArticle}
        → 1460 < y + entry_height fonts i a
        → Entries i y (a ∷ articles) (
            string
              (more_text fonts (length (a ∷ articles)))
              regular
              (pos 80)
              (pos (y + fonts.ascent regular))
            ∷ [])
    shown :
        {i y : ℕ} {a : EpubArticle} {articles : List EpubArticle} {rest : List Ink}
        → entry_end fonts i y a ≤ 1460
        → Entries (i + 1) (entry_end fonts i y a) articles rest
        → Entries i y (a ∷ articles) (entry fonts i y a ++ rest)

  meta_room-le : (parts : List Text) → meta_room fonts parts ≤ meta_height fonts
  meta_room-le [] = omega arith
  meta_room-le (part ∷ parts) = omega arith

  entry_end-le : (i y : ℕ) (a : EpubArticle) → entry_end fonts i y a ≤ y + entry_height fonts i a
  unfolding entry_end entry_height
  entry_end-le i y a = omega (arith, meta_room-le (parts_of fonts a))

  entries-Entries :
      (total i y : ℕ) (articles : List EpubArticle)
      → total ≡ i + length articles
      → Entries i y articles (entries fonts total i y articles)
  unfolding entries
  entries-Entries total i y [] h = all_shown
  entries-Entries total i y (a ∷ articles) h =
      elim (Bool-cases (ltb 1460 (y + entry_height fonts i a))) [
        | inl full ↦
            let left : total - i ≡ suc (length articles) = omega (arith, h) in
            rw (full, left) (no_room (ground (arith, full)))
        | inr fits ↦
            let room : y + entry_height fonts i a ≤ 1460 = ground (arith, fits) in
            rw fits (
              shown (omega (arith, room, entry_end-le i y a))
                (entries-Entries total (i + 1) (entry_end fonts i y a) articles (omega (arith, h))))
      ]

  -- A black pixel between the margins
  abbrev pub IsDivider : Ink → Type 0
  IsDivider (pixel x y shade) = (80 ≤ x) × (x < 1120) × (shade ≡ 0)
  IsDivider (string text face x y) = ⊥
  IsDivider (circle x y shade size) = ⊥
  IsDivider (band top bottom) = ⊥

  -- What a collage draws: the lines of the title from 120 down, a divider, and the articles.
  pub record Collage (title : Text) (articles : List EpubArticle) (drawn : List Ink) : Type 0 where
    pub separator : List Ink
    pub below : List Ink
    pub separator_is : (length separator ≡ 3120) × All IsDivider separator
    pub parts :
        drawn
        ≡ lines_at fonts bold (fonts.height bold + 8) 120 (wrapped fonts bold 1040 title)
          ++ (separator ++ below)
    pub articles_are :
        Entries 0
          (220 + length (wrapped fonts bold 1040 title) * (fonts.height bold + 8))
          articles
          below

  rule-IsDivider :
      (n x : ℕ) (a b d : ℤ)
      → 80 ≤ x
      → x + n ≤ 1120
      → (length (rule n x (λ k. pixel k a 0 ∷ pixel k b 0 ∷ pixel k d 0 ∷ [])) ≡ n * 3)
        × All IsDivider (rule n x (λ k. pixel k a 0 ∷ pixel k b 0 ∷ pixel k d 0 ∷ []))
  unfolding rule
  rule-IsDivider zero x a b d low high = (omega arith, tt)
  rule-IsDivider (suc n) x a b d low high =
      let (count, rest) =
        rule-IsDivider n (suc x) a b d (omega (arith, low)) (omega (arith, high)) in
      let here : (80 ≤ x) × (x < 1120) × (0 ≡ 0) = (low, omega (arith, high), refl) in
      (omega (arith, count), (here, (here, (here, rest))))

  -- A collage has the title, a divider, and then the first articles, in order, as long as their
  -- entries end above the limit; if there is no room for one, it says how many articles it does not
  -- show.
  pub draw_collage_cover-Collage :
      (title : Text) (articles : List EpubArticle)
      → Collage title articles (draw_collage_cover fonts title articles)
  unfolding draw_collage_cover
  draw_collage_cover-Collage title articles =
      let lines = wrapped fonts bold 1040 title in
      let y = 120 + length lines * (fonts.height bold + 8) + 40 in
      let top : y + 60 ≡ 220 + length lines * (fonts.height bold + 8) = omega arith in
      record {
        separator = _;
        below = entries fonts (length articles) 0 (y + 60) articles;
        separator_is =
            rule-IsDivider 1040 80 (pos y) (pos (y + 1)) (pos (y + 6)) (omega arith) (omega arith);
        parts = refl;
        articles_are =
            rw⁻¹ top (entries-Entries (length articles) 0 (y + 60) articles (omega arith));
      }
