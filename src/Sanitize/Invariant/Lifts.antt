-- ===== src/Sanitize/Invariant/Lifts.antt =====
-- What `fixNesting` moves out has been cleaned, and what it leaves is known as before.
use deckle.Base.{
  Bool, true, ◌&&◌, Option, none, some, &&-eq-true, List, ◌≡◌, ◌≢◌, refl, ◌∙◌, arith, Text,
  Bool-cases, inl, inr, Ensures, Ensures-bind, Ensures-both,
}
use deckle.Sanitize.Attrs.{Floats}
use deckle.Sanitize.Clean.{Cleaned, Children, unnest, fix_nesting}
use deckle.Sanitize.Dom.{
  Attribute, element_node, Node, node, Forest, nil, cons, element, ◌+++◌, from_option,
}
use deckle.Sanitize.Fits.{fits, fits_in, fits-append}
use deckle.Sanitize.Tags.{is_structural_block, is_phrasing_element, is_block_element}
use deckle.Sanitize.Invariant.{Invariant, Emits, AllEmit}

-- A detached structural block is kept.
abbrev pub KeepsBlocks : (List Text → Node → Option Cleaned) → Type 0
KeepsBlocks cr =
    (u : List Text) (d : Text) (attrs : List Attribute) (cs : Forest)
    → is_structural_block d ≡ true
    → Ensures (λ r. r.result ≢ none) (cr u (element d attrs cs))

module _ (fl : Floats) (ids : List Text) (inv : Invariant fl ids) where
  open inv use {fit, plain, Good, empty, append, leave_out, other, kept}

  -- What `fixNesting` moves out has been cleaned; what it leaves has not.
  abbrev pub Lifts : List Text → Children → Type 0
  Lifts u r = Good u r.lifted r.used × (fits_in fit r.kept ≡ true)

  moved-Lifts :
      (u : List Text) (c : Node) (r : Cleaned) (rest : Children)
      → (v : Option Node) → v ≢ none
      → Good u (r.lifted +++ from_option v) r.used
      → Lifts r.used rest
      → Lifts u (record rest { lifted = cons (elim v [ none ↦ c | some n ↦ n ]) rest.lifted })
  moved-Lifts u c r rest none ne g g' = absurd (ne refl)
  moved-Lifts u c r rest (some n) ne g g' = (
    append u r.used rest.used (cons n nil) rest.lifted (leave_out u r.used r.lifted (cons n nil) g)
        g'.0,
    g'.1,
  )

  left-Lifts :
      (u : List Text) (cs : Forest) (rest : Children)
      → fits_in fit cs ≡ true
      → Lifts u rest
      → Lifts u (record rest { kept = cs +++ rest.kept })
  left-Lifts u cs rest ft g = (g.0, fits-append fit cs rest.kept ∙ ground (arith, g.1))

  unnest-Lifts :
      (cr : List Text → Node → Option Cleaned)
      → AllEmit fl ids inv cr
      → KeepsBlocks cr
      → (hp : Bool) (u : List Text) (cs : Forest) → fits_in fit cs ≡ true
      → Ensures (Lifts u) (unnest cr hp u cs)
  unfolding unnest fits
  unnest-Lifts cr h k hp u nil ft = (empty u, refl)
  unnest-Lifts cr h k hp u (cons (node element_node d attrs cs) ns) ft =
      let c = element d attrs cs in
      let here : fits fit c ≡ true = ground arith in
      let inside : fits_in fit cs ≡ true = ground arith in
      let later : fits_in fit ns ≡ true = ground arith in
      let rest_Lifts = unnest-Lifts cr h k hp u ns later in
      elim (Bool-cases (is_block_element d)) [
        | inr e ↦ rw e (
            Ensures-bind (Lifts u) (Lifts u) (unnest cr hp u ns) _ rest_Lifts
              (λ rest g. left-Lifts u (cons c nil) rest (ground arith) g))
        | inl e ↦ rw e (elim (Bool-cases (is_structural_block d && hp)) [
          | inr e' ↦ rw e' (
              Ensures-bind (Lifts u) (Lifts u) (unnest cr hp u ns) _ rest_Lifts
                (λ rest g. left-Lifts u cs rest inside g))
          | inl e' ↦ rw e' (
              Ensures-bind (λ r. Emits fl ids inv u r × (r.result ≢ none)) (Lifts u) (cr u c) _
                (Ensures-both (Emits fl ids inv u) (λ r. r.result ≢ none) _ (h u c here)
                  (k u d attrs cs (&&-eq-true (is_structural_block d) hp e').0))
                (λ r g.
                  Ensures-bind (Lifts r.used) (Lifts u) (unnest cr hp r.used ns) _
                    (unnest-Lifts cr h k hp r.used ns later)
                    (λ rest g'. moved-Lifts u c r rest r.result g.1 g.0 g')))
        ])
      ]
  unnest-Lifts cr h k hp u (cons (node kind d attrs cs) ns) ft =
      Ensures-bind (Lifts u) (Lifts u) (unnest cr hp u ns) _
        (unnest-Lifts cr h k hp u ns (ground arith))
        (λ rest g. left-Lifts u (cons (node kind d attrs cs) nil) rest (ground arith) g)

  pub fix_nesting-Lifts :
      (cr : List Text → Node → Option Cleaned)
      → AllEmit fl ids inv cr
      → KeepsBlocks cr
      → (hp : Bool) (d : Text) (u : List Text) (cs : Forest) → fits_in fit cs ≡ true
      → Ensures (Lifts u) (fix_nesting cr hp d u cs)
  unfolding fix_nesting
  fix_nesting-Lifts cr h k hp d u cs ft = elim (Bool-cases (is_phrasing_element d)) [
    | inl e ↦ rw e (unnest-Lifts cr h k hp u cs ft)
    | inr e ↦ rw e (empty u, ft)
  ]
