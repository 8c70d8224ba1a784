-- ===== src/Cover/Pattern/Pixels.antt =====
-- The pixels that `fillCircle` sets.
use native.Mathlib.Nat.{mul-le-mul_left}
use deckle.Base.{
  ℕ, zero, suc, ◌+◌, ◌*◌, ◌-◌, ◌≤◌, ltb, leb, ◌==◌, Bool, true, false, ◌&&◌, ◌||◌, List, [], ◌∷◌,
  ◌++◌, any, ◌≡◌, refl, ap, ◌∙◌, arith, Bool-cases, inl, inr, if◌then◌else◌,
}
use deckle.Cover.Pattern.{distance, circle_row, circle_rows, fill_circle}

-- The pixel is one of those that are set.
abbrev pub is_set : List (ℕ × ℕ) → ℕ → ℕ → Bool
is_set ps x y = any (λ p. p.0 == x && p.1 == y) ps

is_set-append :
    (ps qs : List (ℕ × ℕ)) (x y : ℕ) → is_set (ps ++ qs) x y ≡ (is_set ps x y || is_set qs x y)
is_set-append [] qs x y = refl
is_set-append (p ∷ ps) qs x y = ground (arith, is_set-append ps qs x y)

-- `z` is `i` steps behind `c - r`, for one of `n` numbers `i` from the given one on
abbrev in_steps : ℕ → ℕ → ℕ → ℕ → ℕ → Bool
in_steps r c n i z = leb (c + i) (z + r) && ltb (z + r) (c + (i + n))

-- One step of a row: the pixel at `c + i - r`, if it is in the circle and in the picture
set_step :
    (q : Bool) (r c i y_0 x y : ℕ) (rest : List (ℕ × ℕ))
    → is_set
        (if q && (leb r (c + i) && ltb (c + i - r) 1200) then (c + i - r, y_0) ∷ rest else rest)
        x
        y
      ≡ ((q && (x + r == c + i && (ltb x 1200 && y_0 == y))) || is_set rest x y)
set_step q r c i y_0 x y rest = ground arith

distance_here : (r c i x : ℕ) → (x + r == c + i) ≡ true → distance i r ≡ distance x c
distance_here r c i x h = let even : x + r ≡ c + i = ground arith in omega (arith, even)

merge_steps :
    (q a b : Bool) (r c n i x : ℕ)
    → ((x + r == c + i) ≡ true → q ≡ b)
    → ((q && (x + r == c + i && a)) || (in_steps r c n (suc i) x && (a && b)))
      ≡ (in_steps r c (suc n) i x && (a && b))
merge_steps q a b r c n i x h = ground (arith, h)

module _ (w : ℕ → Bool) (r cx : ℕ) where
  abbrev within : ℕ → ℕ → Bool
  within x dy = w (distance x cx * distance x cx + dy * dy)

  is_set-circle_row :
      (dy y_0 n i x y : ℕ)
      → is_set (circle_row w r cx dy y_0 n i) x y
        ≡ (in_steps r cx n i x && ((ltb x 1200 && y_0 == y) && within x dy))
  unfolding circle_row
  is_set-circle_row dy y_0 zero i x y = ground arith
  is_set-circle_row dy y_0 (suc n) i x y =
      let q = w (distance i r * distance i r + dy * dy) in
      set_step q r cx i y_0 x y (circle_row w r cx dy y_0 n (suc i))
      ∙ ap (λ rest. (q && (x + r == cx + i && (ltb x 1200 && y_0 == y))) || rest)
          (is_set-circle_row dy y_0 n (suc i) x y)
      ∙ merge_steps q (ltb x 1200 && y_0 == y) (within x dy) r cx n i x
          (λ here. ap (λ d. w (d * d + dy * dy)) (distance_here r cx i x here))

-- One step over the rows: the row at `c + j - r`, if it is in the picture
set_row :
    (row rest a q : Bool) (r c j y : ℕ)
    → row ≡ (a && (c + j - r == y && q))
    → (if leb r (c + j) && ltb (c + j - r) 1800 then row || rest else rest)
      ≡ ((q && (y + r == c + j && (a && ltb y 1800))) || rest)
set_row row rest a q r c j y h = ground arith

is_set-if :
    (t : Bool) (ps qs : List (ℕ × ℕ)) (x y : ℕ)
    → is_set (if t then ps ++ qs else qs) x y
      ≡ (if t then is_set ps x y || is_set qs x y else is_set qs x y)
is_set-if true ps qs x y = is_set-append ps qs x y
is_set-if false ps qs x y = refl

module _ (w : ℕ → Bool) (r cx cy : ℕ) where
  -- The columns of the circle, in the picture
  abbrev column : ℕ → Bool
  column x = in_steps r cx (2 * r + 1) 0 x && ltb x 1200

  is_set-circle_rows :
      (n j x y : ℕ)
      → is_set (circle_rows w r cx cy n j) x y
        ≡ (in_steps r cy n j y && ((column x && ltb y 1800) && within w r cx x (distance y cy)))
  unfolding circle_rows
  is_set-circle_rows zero j x y = ground arith
  is_set-circle_rows (suc n) j x y =
      let row = circle_row w r cx (distance j r) (cy + j - r) (2 * r + 1) 0 in
      let rest = circle_rows w r cx cy n (suc j) in
      let q = within w r cx x (distance j r) in
      is_set-if (leb r (cy + j) && ltb (cy + j - r) 1800) row rest x y
      ∙ set_row (is_set row x y) (is_set rest x y) (column x) q r cy j y
          (is_set-circle_row w r cx (distance j r) (cy + j - r) (2 * r + 1) 0 x y ∙ ground arith)
      ∙ ap (λ set. (q && (y + r == cy + j && (column x && ltb y 1800))) || set)
          (is_set-circle_rows n (suc j) x y)
      ∙ merge_steps q (column x && ltb y 1800) (within w r cx x (distance y cy)) r cy n j y
          (λ here. ap (within w r cx x) (distance_here r cy j y here))

square-le : (a b : ℕ) → a * a ≤ b * b → a ≤ b
square-le a b h = elim (Bool-cases (leb a b)) [
  | inl le ↦ ground arith
  | inr gt ↦
      let over : suc b ≤ a = ground arith in
      omega (arith, mul-le-mul_left (suc b) over, mul-le-mul_left a over, h)
]

in_steps_near :
    (r cx cy x y : ℕ)
    → distance x cx ≤ r
    → distance y cy ≤ r
    → (in_steps r cy (2 * r + 1) 0 y
        && (((in_steps r cx (2 * r + 1) 0 x && ltb x 1200) && ltb y 1800) && true))
      ≡ ((ltb x 1200 && ltb y 1800) && true)
in_steps_near r cx cy x y h g = ground (arith, h, g)

-- If nothing is within the radius that is more than `r` away, which is the radius rounded up, then
-- `fillCircle` sets exactly the pixels of the picture whose distance from the centre is within the
-- radius.
pub fill_circle_lem :
    (w : ℕ → Bool) (r cx cy x y : ℕ)
    → ((d : ℕ) → w d ≡ true → d ≤ r * r)
    → is_set (fill_circle w r cx cy) x y ≡ (
        (ltb x 1200 && ltb y 1800)
        && w (distance x cx * distance x cx + distance y cy * distance y cy))
unfolding fill_circle
fill_circle_lem w r cx cy x y rounded =
    is_set-circle_rows w r cx cy (2 * r + 1) 0 x y
    ∙ elim (Bool-cases (within w r cx x (distance y cy))) [
      | inr out ↦ ground (arith, out)
      | inl on ↦
          let dx = distance x cx in
          let dy = distance y cy in
          let total = rounded (dx * dx + dy * dy) on in
          let near_x = square-le dx r (omega (arith, total)) in
          let near_y = square-le dy r (omega (arith, total)) in
          rw on (in_steps_near r cx cy x y near_x near_y)
    ]
