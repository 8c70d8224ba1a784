-- ===== src/Regex/Leftmost.antt =====
-- The search finds a match wherever there is one, and the leftmost.
use deckle.Base.{
  ℕ, ◌-◌, Bool, Option, none, some, [], ◌∷◌, ◌++◌, append_assoc, ◌≡◌, ◌≢◌, refl, sym, ap, ◌∙◌,
  arith, Text, length, length-append, take, take-length-append, Bool-cases, Option-cases, inl, inr,
}
use deckle.Regex.{
  Regex, Groups, Ending, Next, ◌orelse◌, taken, run_many, run_few, run, ended, Match, match_here,
  found_here, found_later, find_from, find,
}
use deckle.Regex.Relation.{
  Matches, no_text, byte, stop_many, more_many, stop_few, more_few, edge, both, alt_left, alt_right,
  present, absent, grouped, run-Leads,
}

orelse-ne-none : (a b : Option Ending) → a ≢ none → (a orelse b) ≢ none
orelse-ne-none none b h = λ e. h refl
orelse-ne-none (some x) b h = λ e. cc

orelse-ne-none_right : (a b : Option Ending) → b ≢ none → (a orelse b) ≢ none
orelse-ne-none_right none b h = h
orelse-ne-none_right (some x) b h = λ e. cc

run_many-stop :
    (p : ℕ → Bool) (l : Option ℕ) (s : Text) (g : Groups) (next : Next)
    → next l s g ≢ none
    → run_many p l s g next ≢ none
unfolding run_many
run_many-stop p l [] g next h = h
run_many-stop p l (c ∷ s) g next h = elim (Bool-cases (p c)) [
  | inl e ↦ rw e (orelse-ne-none_right _ _ h)
  | inr e ↦ rw e h
]

run_few-stop :
    (p : ℕ → Bool) (l : Option ℕ) (s : Text) (g : Groups) (next : Next)
    → next l s g ≢ none
    → run_few p l s g next ≢ none
unfolding run_few
run_few-stop p l [] g next h = h
run_few-stop p l (c ∷ s) g next h = elim (Bool-cases (p c)) [
  | inl e ↦ rw e (orelse-ne-none _ _ h)
  | inr e ↦ rw e h
]

-- Where the expression and what follows it can match, the search does not fail.
pub run-ne-none :
    {r : Regex} {l m : Option ℕ} {s t : Text} {g h : Groups} (next : Next)
    → Matches r l s g m t h
    → next m t h ≢ none
    → run r l s g next ≢ none
unfolding run run_many run_few
run-ne-none next no_text k = k
run-ne-none next (byte e) k = rw e k
run-ne-none {r} {l} {m} {s} {t} {g} {h} next stop_many k = run_many-stop _ l s g next k
run-ne-none next (more_many e d) k = rw e (orelse-ne-none _ _ (run-ne-none next d k))
run-ne-none {r} {l} {m} {s} {t} {g} {h} next stop_few k = run_few-stop _ l s g next k
run-ne-none next (more_few e d) k = rw e (orelse-ne-none_right _ _ (run-ne-none next d k))
run-ne-none next (edge e) k = rw e k
run-ne-none next (both d f) k = run-ne-none _ d (run-ne-none next f k)
run-ne-none next (alt_left d) k = orelse-ne-none _ _ (run-ne-none next d k)
run-ne-none next (alt_right d) k = orelse-ne-none_right _ _ (run-ne-none next d k)
run-ne-none next (present d) k = orelse-ne-none _ _ (run-ne-none next d k)
run-ne-none next absent k = orelse-ne-none_right _ _ k
run-ne-none next (grouped d) k = run-ne-none _ d k

-- A match takes the beginning of the text.
pub Matches-append :
    {r : Regex} {l m : Option ℕ} {s t : Text} {g h : Groups}
    → Matches r l s g m t h
    → (u : Text) × (s ≡ u ++ t)
Matches-append no_text = ([], refl)
Matches-append {s = c ∷ s} (byte e) = (c ∷ [], refl)
Matches-append stop_many = ([], refl)
Matches-append {s = c ∷ s} (more_many e d) = let (u, h) = Matches-append d in (c ∷ u, ap (◌∷◌ c) h)
Matches-append stop_few = ([], refl)
Matches-append {s = c ∷ s} (more_few e d) = let (u, h) = Matches-append d in (c ∷ u, ap (◌∷◌ c) h)
Matches-append (edge e) = ([], refl)
Matches-append {t} (both d f) =
    let (u, p) = Matches-append d in
    let (v, q) = Matches-append f in (u ++ v, p ∙ ap (◌++◌ u) q ∙ sym (append_assoc u v t))
Matches-append (alt_left d) = Matches-append d
Matches-append (alt_right d) = Matches-append d
Matches-append (present d) = Matches-append d
Matches-append absent = ([], refl)
Matches-append (grouped d) = Matches-append d

pub taken-append : (u t : Text) → taken (u ++ t) t ≡ u
taken-append u t =
    let lengths : length (u ++ t) - length t ≡ length u = omega (arith, length-append u t) in
    ap (λ n. take n (u ++ t)) lengths ∙ take-length-append u t

-- The match and what is behind it are the text.
pub taken-rest :
    {r : Regex} {l m : Option ℕ} {s t : Text} {g h : Groups}
    → Matches r l s g m t h
    → taken s t ++ t ≡ s
taken-rest {s} {t} d =
    let (u, e) = Matches-append d in
    ap (λ x. taken x t ++ t) e ∙ ap (λ v. v ++ t) (taken-append u t) ∙ sym e

-- The expression matches at the beginning of the text.
pub record CanMatch (r : Regex) (l : Option ℕ) (s : Text) : Type 0 where
  pub last : Option ℕ
  pub rest : Text
  pub groups : Groups
  pub matches : Matches r l s [] last rest groups

-- What a search may give: nothing, where the expression matches nowhere, or a match at the first
-- place where it matches.
pub data Finds (r : Regex) : Option ℕ → Text → Option Match → Type 0 where
  nowhere : {l : Option ℕ} → ¬ CanMatch r l [] → Finds r l [] none
  here :
      {l m : Option ℕ} {s t : Text} {h : Groups}
      → Matches r l s [] m t h
      → Finds r l s (some (match_here s (record { last = m; rest = t; groups = h })))
  later :
      {l : Option ℕ} {c : ℕ} {s : Text} {o : Option Match}
      → ¬ CanMatch r l (c ∷ s)
      → Finds r (some c) s o
      → Finds r l (c ∷ s) (found_later c o)

no_match : (r : Regex) (l : Option ℕ) (s : Text) → run r l s [] ended ≡ none → ¬ CanMatch r l s
no_match r l s h = λ w. run-ne-none ended w.matches (λ e. cc) h

found :
    (r : Regex) (l : Option ℕ) (s : Text) (e : Ending) (o : Option Match)
    → run r l s [] ended ≡ some e
    → Finds r l s (found_here s (run r l s [] ended) o)
found r l s e o h =
    let w = run-Leads r l s [] ended e h in
    let same : e ≡ record { last = w.last; rest = w.rest; groups = w.groups } = cc w.goes_on in
    rw h (rw same (here w.matches))

pub find_from-Finds : (r : Regex) (l : Option ℕ) (s : Text) → Finds r l s (find_from r l s)
unfolding find_from
find_from-Finds r l [] = elim (Option-cases (run r l [] [] ended)) [
  | inl h ↦ rw h (nowhere (no_match r l [] h))
  | inr (e, h) ↦ found r l [] e none h
]
find_from-Finds r l (c ∷ s) = elim (Option-cases (run r l (c ∷ s) [] ended)) [
  | inl h ↦ rw h (later (no_match r l (c ∷ s) h) (find_from-Finds r (some c) s))
  | inr (e, h) ↦ found r l (c ∷ s) e (found_later c (find_from r (some c) s)) h
]

-- A match at the beginning is the one that is found.
pub find-here :
    (r : Regex) (s : Text) (e : Ending)
    → run r none s [] ended ≡ some e
    → find r s ≡ some (match_here s e)
unfolding find find_from
find-here r [] e h = rw h refl
find-here r (c ∷ s) e h = rw h refl
