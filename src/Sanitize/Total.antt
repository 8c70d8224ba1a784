-- ===== src/Sanitize/Total.antt =====
-- The recursion of `clean` ends: twice the height of the tree is fuel enough.
use deckle.Base.{
  ℕ, zero, suc, ◌+◌, ◌*◌, ◌≤◌, Bool, false, ◌&&◌, ◌||◌, Option, none, some, List, [], ◌≡◌, refl,
  arith, Text, codes, ◌=?◌, Yields, Yields-bind, Ensures, =?_iff, Bool-cases, inl, inr,
  if◌then◌else◌,
}
use deckle.Sanitize.Attrs.{Floats}
use deckle.Sanitize.Clean.{
  Cleaned, Verdict, remove, keep, replace, first_img, collapse_picture, transform_element, unnest,
  fix_nesting, clean_children, clean_kept, clean, is_some,
}
use deckle.Sanitize.Dl.{fix_dl_content, is_tag}
use deckle.Sanitize.Dom.{
  Attribute, NodeType, element_node, Node, node, Forest, nil, cons, is_element, height,
}
use deckle.Sanitize.Tags.{is_phrasing_element, is_structural_block, is_block_element}
use deckle.Sanitize.Cost.{
  cost, costs, weight, one-le-weight, costs-append, costs-cons, costs-fix_dl_content, cost-le,
}
use deckle.Sanitize.Xhtml.{clean_document, collect_ids}

-- The call gives a result for each tree that costs at most `b`.
abbrev pub EndsBelow : ℕ → (List Text → Node → Option Cleaned) → Type 0
EndsBelow b cr = (u : List Text) (n : Node) → cost n ≤ b → Yields (λ r. Unit {0}) (cr u n)

cost-node :
    (k : NodeType) (d : Text) (attrs : List Attribute) (cs : Forest)
    → cost (node k d attrs cs) ≡ weight d + costs cs
unfolding cost
cost-node k d attrs cs = refl

first_img-cost : (b : ℕ) (cs : Forest) → costs cs ≤ b → Ensures (λ n. cost n ≤ b) (first_img cs)
unfolding first_img
first_img-cost b nil le = tt
first_img-cost b (cons c cs) le = elim (Bool-cases (is_tag (codes "img") c)) [
  | inl e ↦ rw e (omega (arith, costs-cons c cs))
  | inr e ↦ rw e (first_img-cost b cs (omega (arith, costs-cons c cs)))
]

clean_children-ends :
    (b : ℕ) (cr : List Text → Node → Option Cleaned)
    → EndsBelow b cr
    → (ph : Bool) (u : List Text) (cs : Forest) → costs cs ≤ b
    → Yields (λ r. Unit {0}) (clean_children cr ph u cs)
unfolding clean_children
clean_children-ends b cr h ph u nil le = tt
clean_children-ends b cr h ph u (cons c cs) le =
    Yields-bind (λ r. Unit {0}) (λ r. Unit {0}) (cr u c) _ (h u c (omega (arith, costs-cons c cs)))
      (λ r _.
        Yields-bind (λ r. Unit {0}) (λ r. Unit {0}) (clean_children cr ph r.used cs) _
          (clean_children-ends b cr h ph r.used cs (omega (arith, costs-cons c cs))) (λ rest _. tt))

module _ (b : ℕ) (cr : List Text → Node → Option Cleaned) (h : EndsBelow b cr) where
  -- The loop ends, and what it leaves costs no more.
  unnest-ends :
      (hp : Bool) (u : List Text) (cs : Forest)
      → costs cs ≤ b
      → Yields (λ r. costs r.kept ≤ costs cs) (unnest cr hp u cs)
  unfolding unnest
  unnest-ends hp u nil le = omega arith
  unnest-ends hp u (cons (node k d attrs cs) ns) le =
      let c = node k d attrs cs in
      let small : costs ns ≤ b = omega (arith, costs-cons c ns) in
      let rest_ends = unnest-ends hp u ns small in
      elim (Bool-cases (is_element k && is_block_element d)) [
        | inr e ↦ rw e (
            Yields-bind (λ r. costs r.kept ≤ costs ns) _ (unnest cr hp u ns) _ rest_ends
              (λ rest g. omega (arith, costs-cons c ns, costs-cons c rest.kept)))
        | inl e ↦ rw e (elim (Bool-cases (is_structural_block d && hp)) [
          | inr e' ↦ rw e' (
              Yields-bind (λ r. costs r.kept ≤ costs ns) _ (unnest cr hp u ns) _ rest_ends
                (λ rest g.
                  omega
                    (arith, costs-cons c ns, costs-append cs rest.kept, cost-node k d attrs cs)))
          | inl e' ↦ rw e' (
              Yields-bind (λ r. Unit {0}) _ (cr u c) _ (h u c (omega (arith, costs-cons c ns)))
                (λ r _.
                  Yields-bind (λ r. costs r.kept ≤ costs ns) _ (unnest cr hp r.used ns) _
                    (unnest-ends hp r.used ns small) (λ rest g. omega (arith, costs-cons c ns))))
        ])
      ]

  fix_nesting-ends :
      (hp : Bool) (d : Text) (u : List Text) (cs : Forest)
      → costs cs ≤ b
      → Yields (λ r. costs r.kept ≤ costs cs) (fix_nesting cr hp d u cs)
  unfolding fix_nesting
  fix_nesting-ends hp d u cs le = elim (Bool-cases (is_phrasing_element d)) [
    | inl e ↦ rw e (unnest-ends hp u cs le)
    | inr e ↦ rw e (omega arith)
  ]

  collapse_picture-ends :
      (u : List Text) (img : Option Node)
      → Ensures (λ n. cost n ≤ b) img
      → Yields (λ r. Unit {0}) (collapse_picture cr u img)
  unfolding collapse_picture
  collapse_picture-ends u none le = tt
  collapse_picture-ends u (some c) le =
      Yields-bind (λ r. Unit {0}) (λ r. Unit {0}) (cr u c) _ (h u c le) (λ r _. tt)

  transform_element-ends :
      (u : List Text) (d : Text) (attrs : List Attribute) (cs : Forest)
      → costs cs ≤ b
      → Yields (λ r. Unit {0}) (transform_element cr u d attrs cs)
  unfolding transform_element
  transform_element-ends u d attrs cs le =
      let picture = collapse_picture-ends u (first_img cs) (first_img-cost b cs le) in
      elim (Bool-cases (d =? codes "video" || d =? codes "audio")) [
        | inl e ↦ rw e tt
        | inr e ↦ rw e (elim (Bool-cases (d =? codes "source")) [
          | inl e' ↦ rw e' tt
          | inr e' ↦ rw e' (elim (Bool-cases (d =? codes "picture")) [
            | inl e'' ↦ rw e'' picture
            | inr e'' ↦ rw e'' tt
          ])
        ])
      ]

-- After `fixDLContent`, the children of a node still cost less than the node.
costs_content :
    (d : Text) (cs kept : Forest)
    → costs kept ≤ costs cs
    → costs (if d =? codes "dl" then fix_dl_content kept else kept) + 1 ≤ weight d + costs cs
unfolding ◌=?◌
costs_content d cs kept le = elim (Bool-cases (d =? codes "dl")) [
  | inl e ↦ rw e (
      let is_dl = (=?_iff d (codes "dl")).0 e in
      rw is_dl (omega (arith, costs-fix_dl_content kept)))
  | inr e ↦ rw e (omega (arith, one-le-weight d))
]

module _ (fl : Floats) (ids : List Text) where
  clean_kept-ends :
      (b : ℕ) (ci : Option Text → List Text → Node → Option Cleaned)
      → ((p : Option Text) → EndsBelow b (ci p))
      → (p : Option Text) (u : List Text) (d : Text) (attrs : List Attribute) (cs : Forest)
      → weight d + costs cs ≤ suc b
      → Yields (λ r. Unit {0}) (clean_kept fl ids ci p u d attrs cs)
  unfolding clean_kept
  clean_kept-ends b ci h p u d attrs cs le =
      Yields-bind (λ r. costs r.kept ≤ costs cs) (λ r. Unit {0})
        (fix_nesting (ci none) (is_some p) d _ cs) _
        (fix_nesting-ends b (ci none) (h none) (is_some p) d _ cs (omega (arith, one-le-weight d)))
        (λ nested g.
          Yields-bind (λ r. Unit {0}) (λ r. Unit {0}) (clean_children _ _ nested.used _) _
            (clean_children-ends b _ (h _) _ nested.used _
              (omega (arith, costs_content d cs nested.kept g)))
            (λ inner _. tt))

  verdict-ends :
      (u : List Text) (v : Verdict) (rest : Option Cleaned)
      → Yields (λ r. Unit {0}) rest
      → Yields {A = Cleaned}
          (λ r. Unit {0})
          (elim v [
            | remove ↦ some (record { used = u; lifted = nil; result = none })
            | replace m ↦ some (record { used = u; lifted = nil; result = some m })
            | keep ↦ rest
          ])
  verdict-ends u remove rest h = tt
  verdict-ends u keep rest h = h
  verdict-ends u (replace m) rest h = tt

  pub clean-ends : (f : ℕ) (p : Option Text) → EndsBelow f (clean fl ids f p)
  unfolding clean
  clean-ends zero p u (node k d attrs cs) le =
      absurd (omega (arith, cost-node k d attrs cs, one-le-weight d))
  clean-ends (suc f) p u (node element_node d attrs cs) le =
      let fits : weight d + costs cs ≤ suc f = omega (arith, cost-node element_node d attrs cs) in
      Yields-bind (λ r. Unit {0}) (λ r. Unit {0})
        (transform_element (clean fl ids f none) u d attrs cs) _
        (transform_element-ends f (clean fl ids f none) (clean-ends f none) u d attrs cs
          (omega (arith, one-le-weight d)))
        (λ r _.
          verdict-ends r.0 r.1 _
            (clean_kept-ends f (clean fl ids f) (clean-ends f) p r.0 d attrs cs fits))
  clean-ends (suc f) p u (node k d attrs cs) le =
      Yields-bind (λ r. Unit {0}) (λ r. Unit {0})
        (clean_children (clean fl ids f (some d)) false u cs) _
        (clean_children-ends f (clean fl ids f (some d)) (clean-ends f (some d)) false u cs
          (omega (arith, cost-node k d attrs cs, one-le-weight d)))
        (λ inner _. tt)

-- `clean` of a document gives a result: its fuel is enough.
pub clean_document-ends :
    (fl : Floats) (doc : Node) → Yields (λ r. Unit {0}) (clean_document fl doc)
unfolding clean_document
clean_document-ends fl doc =
    clean-ends fl (collect_ids doc) (2 * height doc) none [] doc (cost-le doc)
