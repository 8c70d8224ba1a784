-- ===== src/Sanitize/Invariant/Induction.antt =====
-- The induction over `clean`: what satisfies the interface holds of all that `clean` returns.
use deckle.Base.{
  ℕ, zero, suc, Bool, true, false, Option, none, some, &&-eq-true, List, [], ◌∷◌, ◌≡◌, ◌≢◌, refl,
  arith, Text, codes, ◌=?◌, Bool-cases, inl, inr, if◌then◌else◌, one_of-elim, one_of, Ensures,
  Ensures-bind, Ensures-any,
}
use deckle.Sanitize.Attrs.{Floats, filter_attributes}
use deckle.Sanitize.Clean.{
  Cleaned, Children, Verdict, remove, keep, replace, transform_media, is_kept_element,
  transform_element, fix_nesting, clean_children, clean_kept, clean, fix_figcaption, is_some,
}
use deckle.Sanitize.Dom.{
  Attribute, element_node, Node, node, Forest, nil, element, ◌+++◌, +++_assoc,
}
use deckle.Sanitize.Dl.{fix_dl_content}
use deckle.Sanitize.Fits.{fits, fits_in, fits-fix_dl_content}
use deckle.Sanitize.Tags.{is_structural_block, is_allowed_tag}
use deckle.Sanitize.Invariant.Lifts.{KeepsBlocks, Lifts, fix_nesting-Lifts}
use deckle.Sanitize.Invariant.{
  Invariant, Emits, EmitsAll, AllEmit, Decides, Justifies, transform_element-Decides,
  clean_children-EmitsAll,
}

-- A structural block always passes `transformElement`.
structural-keep :
    (cr : List Text → Node → Option Cleaned) (used : List Text) (d : Text) (attrs : List Attribute)
    (cs : Forest)
    → is_structural_block d ≡ true
    → transform_element cr used d attrs cs ≡ some (used, keep)
unfolding is_structural_block transform_element transform_media is_kept_element is_allowed_tag
    one_of ◌=?◌
structural-keep cr used d attrs cs h =
    one_of-elim (λ t. transform_element cr used t attrs cs ≡ some (used, keep)) d
      ("table" ∷ "pre" ∷ "ul" ∷ "ol" ∷ "dl" ∷ "blockquote" ∷ "figure" ∷ [])
      (refl, (refl, (refl, (refl, (refl, (refl, (refl, tt))))))) h

module _ (fl : Floats) (ids : List Text) where
  clean_kept-ne-none :
      (ci : Option Text → List Text → Node → Option Cleaned) (p : Option Text) (u : List Text)
      (d : Text) (attrs : List Attribute) (cs : Forest)
      → Ensures (λ r. r.result ≢ none) (clean_kept fl ids ci p u d attrs cs)
  unfolding clean_kept
  clean_kept-ne-none ci p u d attrs cs =
      Ensures-bind (λ r. Unit {0}) (λ r. r.result ≢ none) (fix_nesting (ci none) (is_some p) d _ cs)
        _ (Ensures-any _)
        (λ nested _.
          Ensures-bind (λ r. Unit {0}) (λ r. r.result ≢ none) (clean_children _ _ _ _) _
            (Ensures-any _) (λ inner _ e. cc))

  clean-KeepsBlocks : (f : ℕ) (p : Option Text) → KeepsBlocks (clean fl ids f p)
  unfolding clean
  clean-KeepsBlocks zero p u d attrs cs h = tt
  clean-KeepsBlocks (suc f) p u d attrs cs h =
      rw (structural-keep (clean fl ids f none) u d attrs cs h)
        (clean_kept-ne-none (clean fl ids f) p u d attrs cs)

module _ (fl : Floats) (ids : List Text) (inv : Invariant fl ids) where
  open inv use {fit, plain, Good, empty, append, leave_out, other, kept}

  -- The element with all that has been lifted out of it, or without if it is detached.
  close-Emits :
      (p : Option Text) (u : List Text) (d : Text) (attrs : List Attribute)
      (nested inner : Children)
      → is_kept_element d attrs ≡ true
      → fit element_node d attrs ≡ true
      → Good (filter_attributes fl ids d u attrs).used nested.lifted nested.used
      → EmitsAll fl ids inv nested.used inner
      → Emits fl ids inv u (record {
        used = inner.used;
        lifted = if is_some p then nested.lifted +++ inner.lifted else nil;
        result =
            some
              (element (fix_figcaption p d) (filter_attributes fl ids d u attrs).attrs inner.kept);
      })
  close-Emits p u d attrs nested inner ok ft g g' =
      let filtered = filter_attributes fl ids d u attrs in
      let up = nested.lifted +++ inner.lifted in
      let both = rw (← +++_assoc nested.lifted inner.lifted inner.kept) at (
        append filtered.used nested.used inner.used nested.lifted (inner.lifted +++ inner.kept) g
          g') in
      let whole = kept u inner.used p d attrs up inner.kept ok ft both in
      elim (Bool-cases (is_some p)) [
        | inl e ↦ rw e whole
        | inr e ↦ rw e (leave_out u inner.used up _ whole)
      ]

  fits_content :
      (d : Text) (cs : Forest)
      → fits_in fit cs ≡ true
      → fits_in fit (if d =? codes "dl" then fix_dl_content cs else cs) ≡ true
  fits_content d cs ft = ground (arith, fits-fix_dl_content fit plain cs ft)

  clean_kept-Emits :
      (ci : Option Text → List Text → Node → Option Cleaned)
      → ((p : Option Text) → AllEmit fl ids inv (ci p))
      → KeepsBlocks (ci none)
      → (p : Option Text) (u : List Text) (d : Text) (attrs : List Attribute) (cs : Forest)
      → is_kept_element d attrs ≡ true
      → fit element_node d attrs ≡ true
      → fits_in fit cs ≡ true
      → Ensures (Emits fl ids inv u) (clean_kept fl ids ci p u d attrs cs)
  unfolding clean_kept
  clean_kept-Emits ci h k p u d attrs cs ok own ft =
      let filtered = filter_attributes fl ids d u attrs in
      Ensures-bind (Lifts fl ids inv filtered.used) (Emits fl ids inv u)
        (fix_nesting (ci none) (is_some p) d filtered.used cs) _
        (fix_nesting-Lifts fl ids inv (ci none) (h none) k (is_some p) d filtered.used cs ft)
        (λ nested g.
          Ensures-bind (EmitsAll fl ids inv nested.used) (Emits fl ids inv u)
            (clean_children _ _ _ _) _
            (clean_children-EmitsAll fl ids inv _ (h _) _ nested.used _
              (fits_content d nested.kept g.1))
            (λ inner g'. close-Emits p u d attrs nested inner ok own g.0 g'))

  verdict-Emits :
      (u u' : List Text) (ok : Bool) (v : Verdict) (rest : Option Cleaned)
      → Justifies fl ids inv u ok u' v
      → (u' ≡ u → ok ≡ true → Ensures (Emits fl ids inv u) rest)
      → Ensures (Emits fl ids inv u) (elim v [
        | remove ↦ some (record { used = u'; lifted = nil; result = none })
        | replace m ↦ some (record { used = u'; lifted = nil; result = some m })
        | keep ↦ rest
      ])
  verdict-Emits u u' ok remove rest j h = j
  verdict-Emits u u' ok keep rest j h = h j.0 j.1
  verdict-Emits u u' ok (replace m) rest j h = j

  pub clean-Emits : (f : ℕ) (p : Option Text) → AllEmit fl ids inv (clean fl ids f p)
  unfolding clean fits
  clean-Emits zero p u n ft = tt
  clean-Emits (suc f) p u (node element_node d attrs cs) ft =
      let (own, inside) = &&-eq-true (fit element_node d attrs) (fits_in fit cs) ft in
      Ensures-bind (Decides fl ids inv u (is_kept_element d attrs)) (Emits fl ids inv u)
        (transform_element (clean fl ids f none) u d attrs cs) _
        (transform_element-Decides fl ids inv _ (clean-Emits f none) u d attrs cs inside)
        (λ r g. verdict-Emits u r.0 (is_kept_element d attrs) r.1 _ g (λ same ok. rw same (
          clean_kept-Emits (clean fl ids f) (clean-Emits f) (clean-KeepsBlocks fl ids f none) p u d
            attrs cs ok own inside)))
  clean-Emits (suc f) p u (node k d attrs cs) ft =
      let (own, inside) = &&-eq-true (fit k d attrs) (fits_in fit cs) ft in
      Ensures-bind (EmitsAll fl ids inv u) (Emits fl ids inv u)
        (clean_children (clean fl ids f (some d)) false u cs) _
        (clean_children-EmitsAll fl ids inv (clean fl ids f (some d)) (clean-Emits f (some d)) false
          u cs inside)
        (λ inner g.
          other u inner.used k d attrs inner.kept refl own
            (leave_out u inner.used inner.lifted inner.kept g))
