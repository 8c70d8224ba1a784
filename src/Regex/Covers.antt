-- ===== src/Regex/Covers.antt =====
-- What `FindAll…` promises: leftmost matches, one behind the other, until there is none.
use deckle.Base.{
  ℕ, zero, suc, ◌≤◌, ◌<◌, Option, none, some, [], ◌∷◌, ◌++◌, ◌≡◌, refl, ap, subst, arith, Text,
  length, length-append, Option-cases, inl, inr,
}
use deckle.Regex.{Regex, Groups, Match, find_from}
use deckle.Regex.Relation.{Matches}
use deckle.Regex.Leftmost.{Finds, find_from-Finds}
use deckle.Regex.Pieces.{Pieces, piece_of, add_piece, find_all_from, find_all, find_from-Cut}

pub data Covers (r : Regex) : Option ℕ → Text → Pieces → Type 0 where
  no_more :
      {l : Option ℕ} {s : Text} → Finds r l s none → Covers r l s (record { pieces = []; tail = s })
  match_more :
      {l : Option ℕ} {s : Text} {m : Match} {ps : Pieces}
      → Finds r l s (some m)
      → Covers r m.last m.after ps
      → Covers r l s (add_piece (piece_of m) ps)

-- No match is empty.
pub record Consumes (r : Regex) : Type 0 where
  pub consumes :
      {l m : Option ℕ} {s t : Text} {g h : Groups} → Matches r l s g m t h → length t < length s

after-shorter :
    (r : Regex) (l : Option ℕ) (s : Text) (m : Match)
    → Consumes r
    → find_from r l s ≡ some m
    → length m.after < length s
after-shorter r l s m c h =
    let w = find_from-Cut r l s m h in
    omega (
      arith,
      c.consumes w.matches,
      length-append m.whole m.after,
      length-append m.before (m.whole ++ m.after),
      ap length w.parts,
    )

nowhere_empty :
    (r : Regex) (l : Option ℕ)
    → Consumes r
    → (o : Option Match) → find_from r l [] ≡ o
    → Finds r l [] none
nowhere_empty r l c none h = subst (Finds r l []) h (find_from-Finds r l [])
nowhere_empty r l c (some m) h =
    let n : length m.after < 0 = after-shorter r l [] m c h in elim n [ ]

find_all_from-Covers :
    (f : ℕ) (r : Regex) (l : Option ℕ) (s : Text)
    → Consumes r
    → length s ≤ f
    → Covers r l s (find_all_from f r l s)
unfolding find_all_from
find_all_from-Covers zero r l [] c h = no_more (nowhere_empty r l c (find_from r l []) refl)
find_all_from-Covers zero r l (x ∷ s) c h = elim h [ ]
find_all_from-Covers (suc f) r l s c h = elim (Option-cases (find_from r l s)) [
  | inl e ↦ rw (e, find_all_from) (no_more (subst (Finds r l s) e (find_from-Finds r l s)))
  | inr (m, e) ↦
      let shorter = after-shorter r l s m c e in
      rw (e, find_all_from)
        (match_more (subst (Finds r l s) e (find_from-Finds r l s))
          (find_all_from-Covers f r m.last m.after c (omega arith)))
]

pub find_all-Covers : (r : Regex) (s : Text) → Consumes r → Covers r none s (find_all r s)
unfolding find_all
find_all-Covers r s c = find_all_from-Covers (length s) r none s c (omega arith)
