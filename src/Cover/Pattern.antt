-- ===== src/Cover/Pattern.antt =====
-- `drawPattern`, `fillCircle` and `drawPatternCover`. The hash of the title and the floating point
-- numbers of the radius are parameters.
pub mod Shades
pub mod Pixels
use deckle.Base.{
  ℕ, zero, suc, ◌+◌, ◌*◌, ◌-◌, ◌/◌, ◌%◌, ltb, leb, Bool, true, false, not, ◌&&◌, ◌||◌, ◌==◌, List,
  [], ◌∷◌, ◌++◌, Text, if◌then◌else◌,
}
use deckle.Cover.Drawing.{Fonts, Ink, circle}
use deckle.Cover.Typographic.{draw_title_block}

-- `a ^ b` on numbers of this many bits
unfoldable pub xor : ℕ → ℕ → ℕ → ℕ
xor zero a b = 0
xor (suc bits) a b =
    let rest = xor bits (a / 2) (b / 2) in (if a % 2 == b % 2 then 0 else 1) + 2 * rest

-- `shade`, from the byte of the hash for this place
unfoldable pub shade_of : ℕ → ℕ
shade_of b = 48 + b * 160 / 255

-- The circle of a cell. The last number is the byte `b2`, from which its radius follows.
unfoldable pub cell : (ℕ → ℕ) → ℕ → ℕ → Ink
cell hash row col =
    let i = (row * 12 + col) % 32 in
    let b = xor 8 (hash i) ((row * 17 + col * 31) % 256) in
    let b_2 = xor 8 (hash ((i + 7) % 32)) ((row * 13 + col * 41) % 256) in
    circle (col * 100 + 50) (row * 100 + 50) (shade_of b) b_2

-- The inner loop, from a column on
unfoldable pub columns_from : (ℕ → ℕ) → ℕ → ℕ → ℕ → List Ink
columns_from hash row zero col = []
columns_from hash row (suc n) col = cell hash row col ∷ columns_from hash row n (suc col)

-- The outer loop, from a row on
unfoldable pub rows_from : (ℕ → ℕ) → ℕ → ℕ → List Ink
rows_from hash zero row = []
rows_from hash (suc n) row =
    let rest = rows_from hash n (suc row) in
    if leb 7 row && leb row 11 then rest else columns_from hash row 12 0 ++ rest

-- `drawPattern`
unfoldable pub draw_pattern : (ℕ → ℕ) → List Ink
draw_pattern hash = rows_from hash 18 0

-- `drawPatternCover`
unfoldable pub draw_pattern_cover : (Text → ℕ → ℕ) → Fonts → Text → ℕ → List Ink
draw_pattern_cover sha_256 fonts title article_count =
    draw_pattern (sha_256 title) ++ draw_title_block fonts title article_count

-- The distance of `i` from `r`
abbrev pub distance : ℕ → ℕ → ℕ
distance i r = (i - r) + (r - i)

-- The pixels of a row of a circle around `cx`, for `dx` from `i - r` on; `is_within` is
-- `float64(…) <= r2`.
unfoldable pub circle_row : (ℕ → Bool) → ℕ → ℕ → ℕ → ℕ → ℕ → ℕ → List (ℕ × ℕ)
circle_row is_within r cx dy y zero i = []
circle_row is_within r cx dy y (suc n) i =
    let dx = distance i r in
    let rest = circle_row is_within r cx dy y n (suc i) in
    if is_within (dx * dx + dy * dy) && (leb r (cx + i) && ltb (cx + i - r) 1200)
    then (cx + i - r, y) ∷ rest
    else rest

-- The rows of a circle around `cy`, for `dy` from `j - r` on
unfoldable pub circle_rows : (ℕ → Bool) → ℕ → ℕ → ℕ → ℕ → ℕ → List (ℕ × ℕ)
circle_rows is_within r cx cy zero j = []
circle_rows is_within r cx cy (suc n) j =
    let rest = circle_rows is_within r cx cy n (suc j) in
    if leb r (cy + j) && ltb (cy + j - r) 1800
    then circle_row is_within r cx (distance j r) (cy + j - r) (2 * r + 1) 0 ++ rest
    else rest

-- `fillCircle`, for a radius that rounds up to `r`: the pixels that it sets
unfoldable pub fill_circle : (ℕ → Bool) → ℕ → ℕ → ℕ → List (ℕ × ℕ)
fill_circle is_within r cx cy = circle_rows is_within r cx cy (2 * r + 1) 0
