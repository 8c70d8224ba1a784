-- ===== src/Cover/Wrap.antt =====
-- `wrapText`: what its lines are made of.
use deckle.Base.{
  Bool, true, ◌||◌, List, [], ◌∷◌, ◌++◌, append_assoc, ◌≡◌, refl, ap, subst, ◌∙◌, arith, Text,
  codes, =?_refl, has, All, join, Bool-cases, inl, inr,
}
use deckle.Cover.{split_words, wrap_from, wrap_words, wrap_text}
use deckle.Cover.Words.{IsWord, split_words_lem, split_words-join}

-- A blank between two parts may as well stand within the first.
join-glue :
    (u v : Text) (ws : List Text)
    → join ((u ++ (b' ' ∷ v)) ∷ ws) (codes " ") ≡ join (u ∷ v ∷ ws) (codes " ")
unfolding join
join-glue u v [] = refl
join-glue u v (w ∷ ws) = append_assoc u (b' ' ∷ v) (codes " " ++ join (w ∷ ws) (codes " "))

-- The words of a line and of the lines behind it, all joined.
wrap_from-join :
    (fits : Text → Bool) (current : Text) (ws : List Text)
    → (v : Text) × (vs : List Text) × (wrap_from fits current ws ≡ v ∷ vs)
      × (join (v ∷ vs) (codes " ") ≡ join (current ∷ ws) (codes " "))
unfolding wrap_from join
wrap_from-join fits current [] = (current, [], refl, refl)
wrap_from-join fits current (w ∷ ws) = elim (Bool-cases (fits (current ++ (b' ' ∷ w)))) [
  | inl e ↦
      let (v, vs, is, joined) = wrap_from-join fits (current ++ (b' ' ∷ w)) ws in
      (v, vs, rw e is, joined ∙ join-glue current w ws)
  | inr e ↦
      let (v, vs, is, joined) = wrap_from-join fits w ws in
      (current, v ∷ vs, rw e (ap (◌∷◌ current) is), ap (λ t. current ++ (b' ' ∷ t)) joined)
]

wrap_words-join :
    (fits : Text → Bool) (text w : Text) (ws : List Text)
    → join (wrap_words fits text (w ∷ ws)) (codes " ") ≡ join (w ∷ ws) (codes " ")
unfolding wrap_words
wrap_words-join fits text w ws =
    let (v, vs, is, joined) = wrap_from-join fits w ws in ap (λ ls. join ls (codes " ")) is ∙ joined

-- `wrapText` keeps the words of the text in their order.
pub split_words-wrap_text :
    (fits : Text → Bool) (text : Text)
    → split_words (join (wrap_text fits text) (codes " ")) ≡ split_words text
unfolding wrap_text wrap_words join
split_words-wrap_text fits text = keeps (split_words text) refl
  where
    keeps :
        (ws : List Text)
        → split_words text ≡ ws
        → split_words (join (wrap_words fits text ws) (codes " ")) ≡ ws
    keeps [] e = e
    keeps (w ∷ ws) e =
        ap split_words (wrap_words-join fits text w ws)
        ∙ split_words-join (w ∷ ws) (subst (All IsWord) e (split_words_lem text).0)

-- The words, or the whole text where it has none.
abbrev pub unbreakable : Text → List Text → List Text
unbreakable text [] = text ∷ []
unbreakable text (w ∷ ws) = w ∷ ws

module _ (P : Text → Type 0) where
  wrap_from-All :
      (fits : Text → Bool)
      → ((l : Text) → fits l ≡ true → P l)
      → (current : Text) (ws : List Text) → P current
      → All P ws
      → All P (wrap_from fits current ws)
  unfolding wrap_from
  wrap_from-All fits f current [] h a = (h, tt)
  wrap_from-All fits f current (w ∷ ws) h a = elim (Bool-cases (fits (current ++ (b' ' ∷ w)))) [
    | inl e ↦ rw e (wrap_from-All fits f (current ++ (b' ' ∷ w)) ws (f _ e) a.1)
    | inr e ↦ rw e (h, wrap_from-All fits f w ws a.0 a.1)
  ]

  All-weaken : (Q : Text → Type 0) (ws : List Text) → ((l : Text) → P l → Q l) → All P ws → All Q ws
  All-weaken Q [] f a = tt
  All-weaken Q (w ∷ ws) f a = (f w a.0, All-weaken Q ws f a.1)

All-has : (ws : List Text) → All (λ w. has ws w ≡ true) ws
unfolding has
All-has [] = tt
All-has (w ∷ ws) = (
  ground (arith, =?_refl w),
  All-weaken (λ v. has ws v ≡ true) (λ v. has (w ∷ ws) v ≡ true) ws (λ v h. ground arith)
      (All-has ws),
)

-- Each line of `wrapText` fits, or is one word (or the whole text, where it has no words).
pub wrap_text-lines :
    (fits : Text → Bool) (text : Text)
    → All
        (λ l. (fits l || has (unbreakable text (split_words text)) l) ≡ true)
        (wrap_text fits text)
unfolding wrap_text wrap_words
wrap_text-lines fits text = lines (split_words text)
  where
    lines :
        (ws : List Text)
        → All (λ l. (fits l || has (unbreakable text ws) l) ≡ true) (wrap_words fits text ws)
    lines [] = (ground (arith, (All-has (text ∷ [])).0), tt)
    lines (w ∷ ws) =
        let words = All-has (w ∷ ws) in
        let P : Text → Type 0 = λ l. (fits l || has (w ∷ ws) l) ≡ true in
        wrap_from-All P fits (λ l e. ground arith) w ws (ground (arith, words.0))
          (All-weaken (λ l. has (w ∷ ws) l ≡ true) P ws (λ l e. ground arith) words.1)
