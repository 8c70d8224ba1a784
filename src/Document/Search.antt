-- ===== src/Document/Search.antt =====
-- Where `strings.Index` finds its pattern in a text that is put together from pieces.
use deckle.Base.{
  ℕ, suc, ◌+◌, Bool, true, false, not, ◌&&◌, ◌||◌, Option, none, some, [], ◌∷◌, ◌++◌, ◌≡◌, refl, ap,
  arith, Text, ◌==◌, length, all, index, has_prefix, contains,
}
use mathlib.Core.Option

-- The two texts differ at a place that both have.
unfoldable pub mismatch : Text → Text → Bool
mismatch (x ∷ s) (y ∷ p) = not (x == y) || mismatch s p
mismatch _ _ = false

-- The pattern does not begin in the text, whatever follows the text.
unfoldable pub skips : Text → Text → Bool
skips p [] = true
skips p (c ∷ s) = mismatch (c ∷ s) p && skips p s

mismatch-has_prefix : (s p rest : Text) → mismatch s p ≡ true → has_prefix (s ++ rest) p ≡ false
unfolding mismatch has_prefix
mismatch-has_prefix [] p rest h = cc
mismatch-has_prefix (x ∷ s) [] rest h = cc
mismatch-has_prefix (x ∷ s) (y ∷ p) rest h = ground (arith, mismatch-has_prefix s p rest)

mismatch-append : (s t p : Text) → mismatch s p ≡ true → mismatch (s ++ t) p ≡ true
unfolding mismatch
mismatch-append [] t p h = cc
mismatch-append (x ∷ s) t [] h = cc
mismatch-append (x ∷ s) t (y ∷ p) h = ground (arith, mismatch-append s t p)

pub skips-append : (p s t : Text) → skips p s ≡ true → skips p t ≡ true → skips p (s ++ t) ≡ true
unfolding skips
skips-append p [] t h g = g
skips-append p (c ∷ s) t h g = ground (arith, mismatch-append (c ∷ s) t p, skips-append p s t)

abbrev pub shift : ℕ → Option ℕ → Option ℕ
shift n none = none
shift n (some i) = some (n + i)

shift-suc : (n : ℕ) (o : Option ℕ) → Option.map suc (shift n o) ≡ shift (suc n) o
shift-suc n none = refl
shift-suc n (some i) = ap some (omega arith)

shift_zero : (o : Option ℕ) → o ≡ shift 0 o
shift_zero none = refl
shift_zero (some i) = ap some (omega arith)

-- The search goes on behind a text in which the pattern does not begin.
pub index-skips :
    (p s rest : Text) → skips p s ≡ true → index (s ++ rest) p ≡ shift (length s) (index rest p)
unfolding index skips
index-skips p [] rest h = shift_zero (index rest p)
index-skips p (c ∷ s) rest h =
    rw (mismatch-has_prefix (c ∷ s) p rest (ground arith))
      (rw (index-skips p s rest (ground arith)) (shift-suc (length s) (index rest p)))

-- A text without the first byte of the pattern is skipped.
pub lacks-skips : (y : ℕ) (p s : Text) → all (λ c. not (c == y)) s ≡ true → skips (y ∷ p) s ≡ true
unfolding skips mismatch
lacks-skips y p [] h = refl
lacks-skips y p (c ∷ s) h = ground (arith, lacks-skips y p s)

-- So is a text that does not contain the pattern, with a byte behind it that the pattern lacks.
prefix-end :
    (s p : Text) (e : ℕ)
    → has_prefix s p ≡ false
    → all (λ c. not (c == e)) p ≡ true
    → mismatch (s ++ (e ∷ [])) p ≡ true
unfolding mismatch has_prefix
prefix-end [] [] e h g = cc
prefix-end [] (y ∷ p) e h g = ground arith
prefix-end (x ∷ s) [] e h g = cc
prefix-end (x ∷ s) (y ∷ p) e h g = ground (arith, prefix-end s p e)

pub contains-skips :
    (p s : Text) (e : ℕ)
    → contains s p ≡ false
    → all (λ c. not (c == e)) p ≡ true
    → skips p (s ++ (e ∷ [])) ≡ true
unfolding contains skips
contains-skips p [] e h g = ground (arith, prefix-end [] p e)
contains-skips p (c ∷ s) e h g = ground (arith, prefix-end (c ∷ s) p e, contains-skips p s e)
