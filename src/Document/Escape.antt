-- ===== src/Document/Escape.antt =====
-- `html.EscapeString` of the standard library.
use deckle.Base.{
  ℕ, Bool, true, not, ◌&&◌, List, [], ◌∷◌, ◌++◌, ◌≡◌, refl, arith, Text, codes, ◌==◌, all,
  if◌then◌else◌,
}

unfoldable pub escape_byte : ℕ → Text
escape_byte c =
    if c == b'&'
    then codes "&amp;"
    else if c == b'\''
    then codes "&#39;"
    else if c == b'<'
    then codes "&lt;"
    else if c == b'>'
    then codes "&gt;"
    else if c == b'"'
    then codes "&#34;"
    else c ∷ []

unfoldable pub escape_string : Text → Text
escape_string [] = []
escape_string (c ∷ s) = escape_byte c ++ escape_string s

-- Neither markup nor a quote.
abbrev pub is_plain : ℕ → Bool
is_plain c = not (c == b'<') && (not (c == b'>') && (not (c == b'"') && not (c == b'\'')))

all-append {ℓ} :
    {A : Type ℓ} (p : A → Bool) (xs ys : List A) → all p (xs ++ ys) ≡ (all p xs && all p ys)
all-append p [] ys = refl
all-append p (x ∷ xs) ys = ground (arith, all-append p xs ys)

escape_byte-plain : (c : ℕ) → all is_plain (escape_byte c) ≡ true
unfolding escape_byte
escape_byte-plain c = ground arith

-- Escaped text holds no markup and no quote.
pub escape_string-plain : (s : Text) → all is_plain (escape_string s) ≡ true
unfolding escape_string
escape_string-plain [] = refl
escape_string-plain (c ∷ s) = ground (
  arith,
  all-append is_plain (escape_byte c) (escape_string s),
  escape_byte-plain c,
  escape_string-plain s,
)
