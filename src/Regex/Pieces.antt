-- ===== src/Regex/Pieces.antt =====
-- All matches of a text, from left to right, and the text with each replaced. No expression of the
-- program matches the empty text, so that the rules of Go for empty matches are left out.
use deckle.Base.{
  ℕ, zero, suc, subst, Option, none, some, List, [], ◌∷◌, ◌++◌, ◌≡◌, refl, sym, ap, ◌∙◌, Text,
  length, Option-cases, inl, inr, All,
}
use deckle.Regex.{Regex, Groups, Match, find_from, taken}
use deckle.Regex.Relation.{Matches}
use deckle.Regex.Leftmost.{Finds, nowhere, here, later, find_from-Finds, taken-rest}

-- A match with the text between it and the match before.
pub record Piece : Type 0 where
  pub gap : Text
  pub whole : Text
  pub groups : Groups

pub record Pieces : Type 0 where
  pub pieces : List Piece
  pub tail : Text

abbrev pub piece_of : Match → Piece
piece_of m = record { gap = m.before; whole = m.whole; groups = m.groups }

abbrev pub add_piece : Piece → Pieces → Pieces
add_piece p ps = record { pieces = p ∷ ps.pieces; tail = ps.tail }

-- `FindAll…`, with the text cut at the matches. There are no more matches than bytes.
unfoldable pub find_all_from : ℕ → Regex → Option ℕ → Text → Pieces
find_all_from zero r last s = record { pieces = []; tail = s }
find_all_from (suc f) r last s = elim (find_from r last s) [
  | none ↦ record { pieces = []; tail = s }
  | some m ↦ add_piece (piece_of m) (find_all_from f r m.last m.after)
]

unfoldable pub find_all : Regex → Text → Pieces
unfolding find_all_from find_from
find_all r s = find_all_from (length s) r none s

-- The text with each match replaced by what `f` gives for it.
unfoldable pub replaced : (Piece → Text) → List Piece → Text → Text
replaced f [] tail = tail
replaced f (p ∷ ps) tail = p.gap ++ (f p ++ replaced f ps tail)

-- `ReplaceAllFunc`
unfoldable pub replace_all : Regex → (Piece → Text) → Text → Text
unfolding replaced find_all
replace_all r f s = let ps = find_all r s in replaced f ps.pieces ps.tail

-- A match, cut into what is before, the match, and what is behind it, is the whole text.
pub record Cut (r : Regex) (s : Text) (m : Match) : Type 0 where
  pub parts : m.before ++ (m.whole ++ m.after) ≡ s
  pub start : Option ℕ
  pub matches : Matches r start (m.whole ++ m.after) [] m.last m.after m.groups

pub Finds-Cut :
    {r : Regex} {l : Option ℕ} {s : Text} {o : Option Match}
    → Finds r l s o
    → (m : Match) → o ≡ some m
    → Cut r s m
Finds-Cut (nowhere n) m h = cc
Finds-Cut {r} {l} {s} (here {m = last} {t} {h = g} d) m h =
    let e : record { before = []; whole = taken s t; groups = g; last = last; after = t } ≡ m =
      cc h in
    subst (Cut r s) e (record {
      parts = taken-rest d;
      start = l;
      matches = subst (λ x. Matches r l x [] last t g) (sym (taken-rest d)) d;
    })
Finds-Cut {r} {l} {s = c ∷ s} (later {o = none} n f) m h = cc
Finds-Cut {r} {l} {s = c ∷ s} (later {o = some k} n f) m h =
    let w = Finds-Cut f k refl in
    let e : record k { before = c ∷ k.before } ≡ m = cc h in
    subst (Cut r (c ∷ s)) e
      (record { parts = ap (◌∷◌ c) w.parts; start = w.start; matches = w.matches })

pub find_from-Cut :
    (r : Regex) (l : Option ℕ) (s : Text) (m : Match) → find_from r l s ≡ some m → Cut r s m
find_from-Cut r l s m h = Finds-Cut (find_from-Finds r l s) m h

-- The piece is a match of the expression.
pub record IsMatch (r : Regex) (p : Piece) : Type 0 where
  pub start : Option ℕ
  pub last : Option ℕ
  pub after : Text
  pub matches : Matches r start (p.whole ++ after) [] last after p.groups

abbrev pub whole_of : Piece → Text
whole_of p = p.whole

-- The pieces are matches, and put together they are the text.
pub record Splits (r : Regex) (s : Text) (ps : Pieces) : Type 0 where
  pub matches : All (IsMatch r) ps.pieces
  pub together : replaced whole_of ps.pieces ps.tail ≡ s

pub find_all_from-Splits :
    (f : ℕ) (r : Regex) (l : Option ℕ) (s : Text) → Splits r s (find_all_from f r l s)
unfolding find_all_from replaced
find_all_from-Splits zero r l s = record { matches = tt; together = refl }
find_all_from-Splits (suc f) r l s = elim (Option-cases (find_from r l s)) [
  | inl h ↦ rw (h, find_all_from) (record { matches = tt; together = refl })
  | inr (m, h) ↦
      let w = find_from-Cut r l s m h in
      let rest = find_all_from-Splits f r m.last m.after in
      rw (h, find_all_from)
        (record {
          matches = (
            record { start = w.start; last = m.last; after = m.after; matches = w.matches },
            rest.matches,
          );
          together = ap (λ t. m.before ++ (m.whole ++ t)) rest.together ∙ w.parts;
        })
]

pub find_all-Splits : (r : Regex) (s : Text) → Splits r s (find_all r s)
unfolding find_all
find_all-Splits r s = find_all_from-Splits (length s) r none s
