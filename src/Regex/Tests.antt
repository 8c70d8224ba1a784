-- ===== src/Regex/Tests.antt =====
-- Searches in small texts.
use deckle.Base.{true, some, [], ◌∷◌, ◌≡◌, refl, codes}
use mathlib.Core.Option
use deckle.Regex.{Regex, many, few, group, chain, literal, any_case, except, some_of, find, Match}
use deckle.Regex.Pieces.{replace_all}

-- (?i)<h1[^>]*>(.*?)</h1>
abbrev h1 : Regex
h1 = chain (
    any_case (codes "<h1")
    ∷ many (except b'>')
    ∷ literal (codes ">")
    ∷ group 1 (few (λ c. true))
    ∷ any_case (codes "</h1>")
    ∷ [])

lazy_group :
    Option.map (λ (m : Match). m.groups) (find h1 (codes "a<H1 x>b</h1>c</h1>"))
    ≡ some ((1, codes "b") ∷ [])
unfolding find
lazy_group = refl

tags_removed :
    replace_all
      (chain (literal (codes "<") ∷ some_of (except b'>') ∷ literal (codes ">") ∷ []))
      (λ p. [])
      (codes "a<b>c</b><>d")
    ≡ codes "ac<>d"
unfolding replace_all
tags_removed = refl
