-- ===== src/Regex.antt =====
-- The regular expressions of Go's `regexp`, as far as the program writes them: classes, their
-- greedy and lazy repetition, word boundaries, alternatives, options and groups. A match is the
-- leftmost one, and there the one that a backtracking search finds first. Texts are bytes; a class
-- of the program that names a character outside ASCII is an alternative of byte sequences.
pub mod Relation
pub mod Leftmost
pub mod Pieces
pub mod Covers
mod Tests
use deckle.Base.{
  ℕ, zero, suc, ◌+◌, ◌-◌, Bool, true, false, not, ◌&&◌, ◌||◌, Option, none, some, List, [], ◌∷◌,
  ◌++◌, Text, codes, ◌==◌, leb, length, take, any, if◌then◌else◌,
}

pub data Regex : Type 0 where
  nothing : Regex
  one : (ℕ → Bool) → Regex
  -- `[…]*` and `[…]*?`
  many few : (ℕ → Bool) → Regex
  -- `\b`
  boundary : Regex
  seq alt : Regex → Regex → Regex
  -- `(…)?`
  maybe : Regex → Regex
  -- `(…)`, with its number
  group : ℕ → Regex → Regex

abbrev pub Groups : Type 0
Groups = List (ℕ × Text)

-- Where a match ends: the byte before it, the text from there on, and what the groups took.
pub record Ending : Type 0 where
  pub last : Option ℕ
  pub rest : Text
  pub groups : Groups

abbrev pub Next : Type 0
Next = Option ℕ → Text → Groups → Option Ending

-- The first of two attempts that succeeds.
infixl 20 ◌orelse◌
abbrev pub ◌orelse◌ : Option Ending → Option Ending → Option Ending
some e orelse o = some e
none orelse o = o

-- `[0-9A-Za-z_]`
abbrev pub is_word : ℕ → Bool
is_word c =
    (leb b'0' c && leb c b'9')
    || ((leb b'A' c && leb c b'Z') || ((leb b'a' c && leb c b'z') || c == b'_'))

abbrev pub is_word_at : Option ℕ → Bool
is_word_at none = false
is_word_at (some c) = is_word c

abbrev pub head_of : Text → Option ℕ
head_of [] = none
head_of (c ∷ s) = some c

abbrev pub differ : Bool → Bool → Bool
differ true b = not b
differ false b = b

abbrev pub is_boundary : Option ℕ → Text → Bool
is_boundary last s = differ (is_word_at last) (is_word_at (head_of s))

-- What lies before `t` in `s`, of which `t` is an end.
abbrev pub taken : Text → Text → Text
taken s t = take (length s - length t) s

unfoldable pub run_many : (ℕ → Bool) → Option ℕ → Text → Groups → Next → Option Ending
run_many p last [] g next = next last [] g
run_many p last (c ∷ s) g next =
    let more = run_many p (some c) s g next in
    let stop = next last (c ∷ s) g in if p c then more orelse stop else stop

unfoldable pub run_few : (ℕ → Bool) → Option ℕ → Text → Groups → Next → Option Ending
run_few p last [] g next = next last [] g
run_few p last (c ∷ s) g next =
    let more = run_few p (some c) s g next in
    let stop = next last (c ∷ s) g in if p c then stop orelse more else stop

abbrev pub run_one : (ℕ → Bool) → Text → Groups → Next → Option Ending
run_one p [] g next = none
run_one p (c ∷ s) g next = if p c then next (some c) s g else none

-- The backtracking search: `next` is what has to match behind the expression.
unfoldable pub run : Regex → Option ℕ → Text → Groups → Next → Option Ending
unfolding run_many run_few
run nothing last s g next = next last s g
run (one p) last s g next = run_one p s g next
run (many p) last s g next = run_many p last s g next
run (few p) last s g next = run_few p last s g next
run boundary last s g next = if is_boundary last s then next last s g else none
run (seq r q) last s g next = run r last s g (λ last' s' g'. run q last' s' g' next)
run (alt r q) last s g next = run r last s g next orelse run q last s g next
run (maybe r) last s g next = run r last s g next orelse next last s g
run (group n r) last s g next = run r last s g (λ last' s' g'. next last' s' ((n, taken s s') ∷ g'))

abbrev pub ended : Next
ended last s g = some (record { last = last; rest = s; groups = g })

-- A match in a text: what is before it, the match, its groups, and what is behind it.
pub record Match : Type 0 where
  pub before : Text
  pub whole : Text
  pub groups : Groups
  pub last : Option ℕ
  pub after : Text

abbrev pub match_here : Text → Ending → Match
match_here s e = record {
  before = [];
  whole = taken s e.rest;
  groups = e.groups;
  last = e.last;
  after = e.rest;
}

abbrev pub found_here : Text → Option Ending → Option Match → Option Match
found_here s none later = later
found_here s (some e) later = some (match_here s e)

abbrev pub found_later : ℕ → Option Match → Option Match
found_later c none = none
found_later c (some m) = some (record m { before = c ∷ m.before })

-- The leftmost match in `s`, where `last` is the byte before `s`.
unfoldable pub find_from : Regex → Option ℕ → Text → Option Match
unfolding run
find_from r last [] = found_here [] (run r last [] [] ended) none
find_from r last (c ∷ s) =
    let later = found_later c (find_from r (some c) s) in
    found_here (c ∷ s) (run r last (c ∷ s) [] ended) later

-- `FindStringSubmatch` and its kin
unfoldable pub find : Regex → Text → Option Match
unfolding find_from
find r s = find_from r none s

-- The text of a group, "" if it took no part in the match.
unfoldable pub get_group : ℕ → Groups → Text
get_group n [] = []
get_group n ((k, t) ∷ g) = if k == n then t else get_group n g

-- Notation.
abbrev pub chain : List Regex → Regex
chain [] = nothing
chain (r ∷ rs) = seq r (chain rs)

abbrev pub literal : Text → Regex
literal [] = nothing
literal (c ∷ t) = seq (one (λ x. x == c)) (literal t)

-- `(?i)` for a lower-case ASCII text that holds neither k nor s
abbrev pub any_case : Text → Regex
any_case [] = nothing
any_case (c ∷ t) =
    seq (one (λ x. x == c || (leb b'a' c && (leb c b'z' && x + 32 == c)))) (any_case t)

abbrev pub except : ℕ → ℕ → Bool
except c x = not (x == c)

-- `\s`
abbrev pub is_blank_byte : ℕ → Bool
is_blank_byte c = any (λ s. c == s) (b'\t' ∷ b'\n' ∷ 12 ∷ b'\r' ∷ b' ' ∷ [])

-- `[…]+`
abbrev pub some_of : (ℕ → Bool) → Regex
some_of p = seq (one p) (many p)
