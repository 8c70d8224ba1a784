-- ===== src/Cover/Pattern/Shades.antt =====
-- The circles of the pattern, and the pixels that they set.
use deckle.Base.{
  ℕ, zero, suc, ◌+◌, ◌*◌, ◌/◌, ◌%◌, ◌^◌, ◌≤◌, ◌<◌, leb, ◌&&◌, inl, inr, ◌≡◌, refl, arith, map, List,
  [], ◌∷◌, ◌++◌, All, All-append, Bool-cases,
}
use deckle.Cover.Drawing.{Ink, string, pixel, circle, band}
use deckle.Cover.Pattern.{xor, shade_of, cell, columns_from, rows_from, draw_pattern}

xor-lt : (bits a b : ℕ) → xor bits a b < 2 ^ bits
unfolding xor
xor-lt zero a b = omega arith
xor-lt (suc bits) a b = ground (arith, xor-lt bits (a / 2) (b / 2))

shade_of-range : (b : ℕ) → b < 256 → (48 ≤ shade_of b) × (shade_of b ≤ 208)
unfolding shade_of
shade_of-range b h = (omega arith, omega arith)

-- The centre of a circle
abbrev pub centre : Ink → ℕ × ℕ
centre (circle x y shade size) = (x, y)
centre _ = (0, 0)

-- The middles of the 12 cells of a row, the height of which is given
abbrev pub middles : ℕ → List (ℕ × ℕ)
middles y =
    (50, y)
    ∷ (150, y)
    ∷ (250, y)
    ∷ (350, y)
    ∷ (450, y)
    ∷ (550, y)
    ∷ (650, y)
    ∷ (750, y)
    ∷ (850, y)
    ∷ (950, y)
    ∷ (1050, y)
    ∷ (1150, y)
    ∷ []

abbrev pub all_middles : List ℕ → List (ℕ × ℕ)
all_middles [] = []
all_middles (y ∷ ys) = middles y ++ all_middles ys

-- The middles of the rows of cells, without the rows beside the title
abbrev pub heights : List ℕ
heights = 50 ∷ 150 ∷ 250 ∷ 350 ∷ 450 ∷ 550 ∷ 650 ∷ 1250 ∷ 1350 ∷ 1450 ∷ 1550 ∷ 1650 ∷ 1750 ∷ []

-- A circle in a shade of gray
abbrev pub IsGray : Ink → Type 0
IsGray (circle x y shade size) = (48 ≤ shade) × (shade ≤ 208) × (size < 256)
IsGray (string t face x y) = ⊥
IsGray (pixel x y shade) = ⊥
IsGray (band top bottom) = ⊥

columns_from-IsGray : (hash : ℕ → ℕ) (row n col : ℕ) → All IsGray (columns_from hash row n col)
unfolding columns_from cell
columns_from-IsGray hash row zero col = tt
columns_from-IsGray hash row (suc n) col =
    let byte = xor-lt 8 (hash ((row * 12 + col) % 32)) ((row * 17 + col * 31) % 256) in
    let (dark, light) = shade_of-range _ byte in
    ((dark, light, xor-lt 8 _ _), columns_from-IsGray hash row n (suc col))

rows_from-IsGray : (hash : ℕ → ℕ) (n row : ℕ) → All IsGray (rows_from hash n row)
unfolding rows_from
rows_from-IsGray hash zero row = tt
rows_from-IsGray hash (suc n) row =
    let rest = rows_from-IsGray hash n (suc row) in
    elim (Bool-cases (leb 7 row && leb row 11)) [
      | inl title ↦ rw title rest
      | inr free ↦ rw free (All-append IsGray _ _ (columns_from-IsGray hash row 12 0) rest)
    ]

circles_lem : (hash : ℕ → ℕ) → map centre (draw_pattern hash) ≡ all_middles heights
unfolding draw_pattern rows_from columns_from cell
circles_lem hash = refl

-- The pattern has one circle around the middle of each cell of 100 by 100, row by row and 12 in a
-- row, but none in the rows from 700 to 1200, beside the title. Each is in a shade from 0x30 to 0xD0.
pub draw_pattern-IsGray :
    (hash : ℕ → ℕ)
    → (map centre (draw_pattern hash) ≡ all_middles heights) × All IsGray (draw_pattern hash)
unfolding draw_pattern
draw_pattern-IsGray hash = (circles_lem hash, rows_from-IsGray hash 18 0)
