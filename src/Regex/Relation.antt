-- ===== src/Regex/Relation.antt =====
-- What it means for an expression to match, with no search order in it, and that the search finds a
-- match at the leftmost place where there is one.
use deckle.Base.{ℕ, Bool, true, Option, none, some, [], ◌∷◌, ◌≡◌, Text, Bool-cases, inl, inr, ◌⊎◌}
use deckle.Regex.{
  Regex, nothing, one, many, few, boundary, seq, alt, maybe, group, Groups, Ending, Next, ◌orelse◌,
  is_boundary, taken, run_many, run_few, run_one, run,
}

-- From the text `s` behind the byte `last`, the expression may lead to `t` behind `l`.
pub data Matches : Regex → Option ℕ → Text → Groups → Option ℕ → Text → Groups → Type 0 where
  no_text : {l : Option ℕ} {s : Text} {g : Groups} → Matches nothing l s g l s g
  byte :
      {p : ℕ → Bool} {l : Option ℕ} {c : ℕ} {s : Text} {g : Groups}
      → p c ≡ true
      → Matches (one p) l (c ∷ s) g (some c) s g
  stop_many : {p : ℕ → Bool} {l : Option ℕ} {s : Text} {g : Groups} → Matches (many p) l s g l s g
  more_many :
      {p : ℕ → Bool} {l m : Option ℕ} {c : ℕ} {s t : Text} {g h : Groups}
      → p c ≡ true
      → Matches (many p) (some c) s g m t h
      → Matches (many p) l (c ∷ s) g m t h
  stop_few : {p : ℕ → Bool} {l : Option ℕ} {s : Text} {g : Groups} → Matches (few p) l s g l s g
  more_few :
      {p : ℕ → Bool} {l m : Option ℕ} {c : ℕ} {s t : Text} {g h : Groups}
      → p c ≡ true
      → Matches (few p) (some c) s g m t h
      → Matches (few p) l (c ∷ s) g m t h
  edge :
      {l : Option ℕ} {s : Text} {g : Groups} → is_boundary l s ≡ true → Matches boundary l s g l s g
  both :
      {r q : Regex} {l m n : Option ℕ} {s t u : Text} {g h i : Groups}
      → Matches r l s g m t h
      → Matches q m t h n u i
      → Matches (seq r q) l s g n u i
  alt_left :
      {r q : Regex} {l m : Option ℕ} {s t : Text} {g h : Groups}
      → Matches r l s g m t h
      → Matches (alt r q) l s g m t h
  alt_right :
      {r q : Regex} {l m : Option ℕ} {s t : Text} {g h : Groups}
      → Matches q l s g m t h
      → Matches (alt r q) l s g m t h
  present :
      {r : Regex} {l m : Option ℕ} {s t : Text} {g h : Groups}
      → Matches r l s g m t h
      → Matches (maybe r) l s g m t h
  absent : {r : Regex} {l : Option ℕ} {s : Text} {g : Groups} → Matches (maybe r) l s g l s g
  grouped :
      {n : ℕ} {r : Regex} {l m : Option ℕ} {s t : Text} {g h : Groups}
      → Matches r l s g m t h
      → Matches (group n r) l s g m t ((n, taken s t) ∷ h)

-- The search found an ending by way of a match.
pub record Leads (r : Regex) (l : Option ℕ) (s : Text) (g : Groups) (next : Next) (e : Ending)
    : Type 0 where
  pub last : Option ℕ
  pub rest : Text
  pub groups : Groups
  pub matches : Matches r l s g last rest groups
  pub goes_on : next last rest groups ≡ some e

orelse_some :
    (a b : Option Ending) (e : Ending) → (a orelse b) ≡ some e → (a ≡ some e) ⊎ (b ≡ some e)
orelse_some none b e h = inr h
orelse_some (some x) b e h = inl h

-- The search is right.
run_many-Leads :
    (p : ℕ → Bool) (l : Option ℕ) (s : Text) (g : Groups) (next : Next) (e : Ending)
    → run_many p l s g next ≡ some e
    → Leads (many p) l s g next e
unfolding run_many
run_many-Leads p l [] g next e h = record {
  last = l;
  rest = [];
  groups = g;
  matches = stop_many;
  goes_on = h;
}
run_many-Leads p l (c ∷ s) g next e h = elim (Bool-cases (p c)) [
  | inr no_more ↦ record {
    last = l;
    rest = c ∷ s;
    groups = g;
    matches = stop_many;
    goes_on = rw no_more at h;
  }
  | inl takes ↦ elim (orelse_some _ _ e (rw takes at h)) [
    | inr stop ↦ record { last = l; rest = c ∷ s; groups = g; matches = stop_many; goes_on = stop }
    | inl more ↦
        let w = run_many-Leads p (some c) s g next e more in
        record {
          last = w.last;
          rest = w.rest;
          groups = w.groups;
          matches = more_many takes w.matches;
          goes_on = w.goes_on;
        }
  ]
]

run_few-Leads :
    (p : ℕ → Bool) (l : Option ℕ) (s : Text) (g : Groups) (next : Next) (e : Ending)
    → run_few p l s g next ≡ some e
    → Leads (few p) l s g next e
unfolding run_few
run_few-Leads p l [] g next e h = record {
  last = l;
  rest = [];
  groups = g;
  matches = stop_few;
  goes_on = h;
}
run_few-Leads p l (c ∷ s) g next e h = elim (Bool-cases (p c)) [
  | inr no_more ↦ record {
    last = l;
    rest = c ∷ s;
    groups = g;
    matches = stop_few;
    goes_on = rw no_more at h;
  }
  | inl takes ↦ elim (orelse_some _ _ e (rw takes at h)) [
    | inl stop ↦ record { last = l; rest = c ∷ s; groups = g; matches = stop_few; goes_on = stop }
    | inr more ↦
        let w = run_few-Leads p (some c) s g next e more in
        record {
          last = w.last;
          rest = w.rest;
          groups = w.groups;
          matches = more_few takes w.matches;
          goes_on = w.goes_on;
        }
  ]
]

run_one-Leads :
    (p : ℕ → Bool) (l : Option ℕ) (s : Text) (g : Groups) (next : Next) (e : Ending)
    → run_one p s g next ≡ some e
    → Leads (one p) l s g next e
run_one-Leads p l [] g next e h = cc
run_one-Leads p l (c ∷ s) g next e h = elim (Bool-cases (p c)) [
  | inl takes ↦ record {
    last = some c;
    rest = s;
    groups = g;
    matches = byte takes;
    goes_on = rw takes at h;
  }
  | inr fails ↦ cc (rw fails at h)
]

pub run-Leads :
    (r : Regex) (l : Option ℕ) (s : Text) (g : Groups) (next : Next) (e : Ending)
    → run r l s g next ≡ some e
    → Leads r l s g next e
unfolding run
run-Leads nothing l s g next e h = record {
  last = l;
  rest = s;
  groups = g;
  matches = no_text;
  goes_on = h;
}
run-Leads (one p) l s g next e h = run_one-Leads p l s g next e h
run-Leads (many p) l s g next e h = run_many-Leads p l s g next e h
run-Leads (few p) l s g next e h = run_few-Leads p l s g next e h
run-Leads boundary l s g next e h = elim (Bool-cases (is_boundary l s)) [
  | inl is ↦ record { last = l; rest = s; groups = g; matches = edge is; goes_on = rw is at h }
  | inr fails ↦ cc (rw fails at h)
]
run-Leads (seq r q) l s g next e h =
    let w = run-Leads r l s g _ e h in
    let v = run-Leads q w.last w.rest w.groups next e w.goes_on in
    record {
      last = v.last;
      rest = v.rest;
      groups = v.groups;
      matches = both w.matches v.matches;
      goes_on = v.goes_on;
    }
run-Leads (alt r q) l s g next e h = elim (orelse_some (run r l s g next) _ e h) [
  | inl left ↦
      let w = run-Leads r l s g next e left in
      record {
        last = w.last;
        rest = w.rest;
        groups = w.groups;
        matches = alt_left w.matches;
        goes_on = w.goes_on;
      }
  | inr right ↦
      let w = run-Leads q l s g next e right in
      record {
        last = w.last;
        rest = w.rest;
        groups = w.groups;
        matches = alt_right w.matches;
        goes_on = w.goes_on;
      }
]
run-Leads (maybe r) l s g next e h = elim (orelse_some (run r l s g next) _ e h) [
  | inl takes ↦
      let w = run-Leads r l s g next e takes in
      record {
        last = w.last;
        rest = w.rest;
        groups = w.groups;
        matches = present w.matches;
        goes_on = w.goes_on;
      }
  | inr skips ↦ record { last = l; rest = s; groups = g; matches = absent; goes_on = skips }
]
run-Leads (group n r) l s g next e h =
    let w = run-Leads r l s g _ e h in
    record {
      last = w.last;
      rest = w.rest;
      groups = (n, taken s w.rest) ∷ w.groups;
      matches = grouped w.matches;
      goes_on = w.goes_on;
    }
