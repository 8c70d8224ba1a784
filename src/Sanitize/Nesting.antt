-- ===== src/Sanitize/Nesting.antt =====
-- What `fixNesting` achieves, and what it does not.
use deckle.Base.{
  ℕ, ◌≤◌, none, Bool, true, false, not, ◌&&◌, ◌||◌, Option, List, ◌≡◌, refl, arith, Text, Yields,
  Yields-bind, Bool-cases, inl, inr,
}
use deckle.Sanitize.Attrs.{Floats}
use deckle.Sanitize.Clean.{Cleaned, clean, unnest, fix_nesting}
use deckle.Sanitize.Cost.{costs, costs-cons}
use deckle.Sanitize.Dl.{any_child}
use deckle.Sanitize.Dom.{Attribute, Node, node, Forest, nil, cons, element, ◌+++◌, is_element}
use deckle.Sanitize.Tags.{is_phrasing_element, is_structural_block, is_block_element}
use deckle.Sanitize.Total.{EndsBelow, clean-ends}

abbrev pub is_block : Node → Bool
is_block (node k d attrs cs) = is_element k && is_block_element d

-- Each block child that is unwrapped, not moved out, has no block for a child itself.
unfoldable pub is_flat : Bool → Forest → Bool
is_flat has_parent nil = true
is_flat has_parent (cons (node k d attrs cs) ns) =
    (not (is_block (node k d attrs cs))
      || ((is_structural_block d && has_parent) || not (any_child is_block cs)))
    && is_flat has_parent ns

blocks-append :
    (xs ys : Forest)
    → any_child is_block (xs +++ ys) ≡ (any_child is_block xs || any_child is_block ys)
unfolding any_child
blocks-append nil ys = refl
blocks-append (cons c xs) ys = ground (arith, blocks-append xs ys)

module _ (b : ℕ) (cr : List Text → Node → Option Cleaned) (ends : EndsBelow b cr) where
  unnest-blocks :
      (hp : Bool) (u : List Text) (cs : Forest)
      → is_flat hp cs ≡ true
      → costs cs ≤ b
      → Yields (λ r. any_child is_block r.kept ≡ false) (unnest cr hp u cs)
  unfolding unnest is_flat any_child
  unnest-blocks hp u nil h le = refl
  unnest-blocks hp u (cons (node k d attrs cs) ns) h le =
      let small : costs ns ≤ b = omega (arith, costs-cons (node k d attrs cs) ns) in
      let flat : is_flat hp ns ≡ true = ground arith in
      elim (Bool-cases (is_element k && is_block_element d)) [
        | inr e ↦ rw e (
            Yields-bind (λ r. any_child is_block r.kept ≡ false) _ (unnest cr hp u ns) _
              (unnest-blocks hp u ns flat small) (λ rest g. ground arith))
        | inl e ↦ rw e (elim (Bool-cases (is_structural_block d && hp)) [
          | inr e' ↦ rw e' (
              Yields-bind (λ r. any_child is_block r.kept ≡ false) _ (unnest cr hp u ns) _
                (unnest-blocks hp u ns flat small)
                (λ rest g. ground (arith, blocks-append cs rest.kept)))
          | inl e' ↦ rw e' (
              Yields-bind (λ r. Unit {0}) _ (cr u (node k d attrs cs)) _
                (ends u (node k d attrs cs) (omega (arith, costs-cons (node k d attrs cs) ns)))
                (λ r _.
                  Yields-bind (λ r. any_child is_block r.kept ≡ false) _ (unnest cr hp r.used ns) _
                    (unnest-blocks hp r.used ns flat small) (λ rest g. g)))
        ])
      ]

-- Where no block that is to be unwrapped has a block for a child, `fixNesting` with the program's
-- `clean` for the blocks that it moves out gives a result, as soon as the fuel is at least what the
-- children cost, and no block is left among the children of a phrasing element.
pub fix_nesting-blocks :
    (fl : Floats) (ids : List Text) (f : ℕ) (hp : Bool) (d : Text) (u : List Text) (cs : Forest)
    → is_phrasing_element d ≡ true
    → is_flat hp cs ≡ true
    → costs cs ≤ f
    → Yields (λ r. any_child is_block r.kept ≡ false) (fix_nesting (clean fl ids f none) hp d u cs)
unfolding fix_nesting
fix_nesting-blocks fl ids f hp d u cs ph flat le =
    rw ph (unnest-blocks f (clean fl ids f none) (clean-ends fl ids f none) hp u cs flat le)

-- A block inside an unwrapped block stays: whatever the phrasing element and the two blocks are, the
-- inner one becomes a child of the phrasing element.
pub fix_nesting_nested :
    (cr : List Text → Node → Option Cleaned) (hp : Bool) (u : List Text) (d outer inner : Text)
    (attrs bs : List Attribute) (cs : Forest)
    → is_phrasing_element d ≡ true
    → is_block_element outer ≡ true
    → is_structural_block outer ≡ false
    → is_block_element inner ≡ true
    → Yields
        (λ r. any_child is_block r.kept ≡ true)
        (fix_nesting cr hp d u (cons (element outer attrs (cons (element inner bs cs) nil)) nil))
unfolding fix_nesting unnest any_child
fix_nesting_nested cr hp u d outer inner attrs bs cs ph bo so bi = rw (ph, bo, so, bi) refl
