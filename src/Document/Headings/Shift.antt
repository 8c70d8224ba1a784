-- ===== src/Document/Headings/Shift.antt =====
-- `shiftHeadings` on every heading of a text.
use mathlib.Core.List.{append_cancel_right}
use deckle.Base.{
  ℕ, ◌+◌, ◌-◌, ◌≤◌, ◌<◌, Bool, true, false, none, List, [], ◌∷◌, ◌++◌, ◌≡◌, ◌≢◌, refl, ap, arith,
  Text, codes, length, length-append, All, if◌then◌else◌, ltb, ◌=?◌, ◌⊎◌,
}
use deckle.Base.Decimal.{decimal, read_digits}
use deckle.Document.Headings.{
  heading_re, shift_heading, shift_headings, shifted_tag, shifted_match, shifted_level,
}
use deckle.Document.Headings.Tag.{
  heading_text, HeadingText, heading_inv, run-heading, slash_of, is_digit_1_6,
}
use deckle.Regex.{except, find, get_group}
use deckle.Regex.Covers.{Covers, Consumes, find_all-Covers}
use deckle.Regex.Leftmost.{taken-append, find-here}
use deckle.Regex.Pieces.{
  Piece, Pieces, find_all, find_all-Splits, replaced, whole_of, replace_all, IsMatch,
}

-- The tag one level down, from the number of the level: 6 stays 6.
abbrev pub shifted_text : Bool → ℕ → Text → Text
shifted_text closing level attrs =
    let shifted = decimal (if ltb level 6 then level + 1 else 6) in
    if closing
    then codes "</h" ++ (shifted ++ codes ">")
    else codes "<h" ++ (shifted ++ (attrs ++ codes ">"))

-- The piece is the tag of a heading, and what stands for it is that of the shifted heading.
pub record ShiftsTag (p : Piece) : Type 0 where
  pub closing : Bool
  pub letter : ℕ
  pub level : ℕ
  pub attrs : Text
  pub letter_is : (letter ≡ b'h') ⊎ (letter ≡ b'H')
  pub level_is : (1 ≤ level) × (level ≤ 6)
  pub attrs_are : All (λ c. c ≢ b'>') attrs
  pub whole : p.whole ≡ heading_text closing letter (level + b'0') attrs
  pub shifted : shift_heading p ≡ shifted_text closing level attrs

heading_re-Consumes : Consumes heading_re
heading_re-Consumes = record {
  consumes = λ {l} {m} {s} {t} {g} {h} d.
      let w = heading_inv d in
      omega (
        arith,
        ap length w.shape,
        length-append (heading_text w.closing w.letter w.digit w.attrs) t,
      );
}

whole_shape :
    (p : Piece) (after : Text) (w : HeadingText (p.whole ++ after) after)
    → p.whole ≡ heading_text w.closing w.letter w.digit w.attrs
whole_shape p after w = append_cancel_right _ _ after w.shape

shifted_level_lem :
    (digit : ℕ)
    → shifted_level (digit ∷ []) ≡ (if ltb (digit - b'0') 6 then digit - b'0' + 1 else 6)
unfolding read_digits
shifted_level_lem digit = ground arith

shifted_tag_lem :
    (closing : Bool) (digit : ℕ) (attrs : Text)
    → shifted_tag (slash_of closing) (digit ∷ []) attrs ≡ shifted_text closing (digit - b'0') attrs
unfolding ◌=?◌
shifted_tag_lem true digit attrs =
    ap (λ n. codes "</h" ++ (decimal n ++ codes ">")) (shifted_level_lem digit)
shifted_tag_lem false digit attrs =
    ap (λ n. codes "<h" ++ (decimal n ++ (attrs ++ codes ">"))) (shifted_level_lem digit)

shifted_text_lem :
    (closing : Bool) (letter digit : ℕ) (attrs : Text)
    → (letter ≡ b'h') ⊎ (letter ≡ b'H')
    → is_digit_1_6 digit ≡ true
    → All (λ c. except b'>' c ≡ true) attrs
    → (whole : Text) → whole ≡ heading_text closing letter digit attrs
    → shifted_match whole (find heading_re whole) ≡ shifted_text closing (digit - b'0') attrs
unfolding get_group read_digits
shifted_text_lem closing letter digit attrs l d a whole h =
    let found =
      find-here heading_re (heading_text closing letter digit attrs) _
        (run-heading closing letter digit attrs l d a) in
    rw
      (
        h,
        found,
        taken-append (slash_of closing) _,
        taken-append (digit ∷ []) _,
        taken-append attrs _,
      )
      (shifted_tag_lem closing digit attrs)

not_end : (c : ℕ) → except b'>' c ≡ true → c ≢ b'>'
not_end c h = ground arith

not_ends : (t : Text) → All (λ c. except b'>' c ≡ true) t → All (λ c. c ≢ b'>') t
not_ends [] a = tt
not_ends (c ∷ t) (h, a) = (not_end c h, not_ends t a)

IsMatch-ShiftsTag : (p : Piece) → IsMatch heading_re p → ShiftsTag p
unfolding shift_heading
IsMatch-ShiftsTag p i =
    let w = heading_inv i.matches in
    let range : (b'0' < w.digit) × (w.digit ≤ b'6') = ground (arith, w.digit_is) in
    let digit : w.digit - b'0' + b'0' ≡ w.digit = omega (arith, range) in
    record {
      closing = w.closing;
      letter = w.letter;
      level = w.digit - b'0';
      attrs = w.attrs;
      letter_is = w.letter_is;
      level_is = (omega (arith, range), omega (arith, range));
      attrs_are = not_ends w.attrs w.attrs_are;
      whole = rw digit (whole_shape p i.after w);
      shifted =
          shifted_text_lem w.closing w.letter w.digit w.attrs w.letter_is w.digit_is w.attrs_are
            p.whole (whole_shape p i.after w);
    }

-- Every heading of the text is shifted, and nothing else changes.
pub record Shifts (text out : Text) : Type 0 where
  pub headings : Pieces
  pub all : Covers heading_re none text headings
  pub tags : All ShiftsTag headings.pieces
  pub before : replaced whole_of headings.pieces headings.tail ≡ text
  pub behind : out ≡ replaced shift_heading headings.pieces headings.tail

All-ShiftsTag : (ps : List Piece) → All (IsMatch heading_re) ps → All ShiftsTag ps
All-ShiftsTag [] a = tt
All-ShiftsTag (p ∷ ps) (i, a) = (IsMatch-ShiftsTag p i, All-ShiftsTag ps a)

-- `shiftHeadings` cuts the text at the tags of headings from h1 to h6, found from left to right
-- until there is none. Each becomes the tag of the next level, where 6 stays 6; an opening tag keeps
-- its attributes. The text between the tags stays.
pub shift_headings-Shifts : (text : Text) → Shifts text (shift_headings text)
unfolding shift_headings replace_all
shift_headings-Shifts text =
    let split = find_all-Splits heading_re text in
    record {
      headings = find_all heading_re text;
      all = find_all-Covers heading_re text heading_re-Consumes;
      tags = All-ShiftsTag _ split.matches;
      before = split.together;
      behind = refl;
    }
