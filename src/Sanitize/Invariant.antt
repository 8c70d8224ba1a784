-- ===== src/Sanitize/Invariant.antt =====
-- What a property of the emitted trees must satisfy to hold of all that `clean` returns: the
-- interface, and the steps of `clean` that lead to another element or to the children.
pub mod Lifts
pub mod Induction
use deckle.Base.{
  ℕ, zero, suc, Bool, true, false, not, ◌&&◌, ◌||◌, Option, none, some, ◌>>=◌, >>=-eq-some,
  &&-eq-true, List, [], ◌∷◌, ◌≡◌, ◌≢◌, refl, sym, arith, Text, codes, ◌=?◌, has_prefix, trim_space,
  is_space, Bool-cases, Option-cases, inl, inr, if◌then◌else◌, one_of-elim, one_of, Ensures,
  Ensures-bind,
}
use deckle.Sanitize.Attrs.{Floats, Filtered, filter_attributes}
use deckle.Sanitize.Clean.{
  Cleaned, Children, Verdict, remove, keep, replace, media_link, source_src, transform_media,
  first_img, is_embedded_image, is_kept_element, transform_element, unnest, fix_nesting,
  clean_children, clean_kept, clean, fix_figcaption, src_of, is_some, collapse_picture,
}
use deckle.Sanitize.Dl.{fix_dl_content}
use deckle.Sanitize.Dom.{
  Attribute, NodeType, error_node, text_node, document_node, element_node, comment_node,
  doctype_node, raw_node, Node, node, Forest, nil, cons, element, ◌+++◌, +++_assoc, from_option,
  is_element,
}
use deckle.Sanitize.Fits.{fits, fits_in, fits-first_img}
use deckle.Sanitize.Tags.{
  is_structural_block, is_allowed_tag, is_phrasing_element, is_block_element,
}

-- `Good used f used'`: the trees `f` may be emitted between these two states of the used IDs.
-- The order of the trees does not count, and trees may be left out. `fit` is what the nodes of the
-- document are known to pass before it is cleaned.
pub record Invariant (fl : Floats) (ids : List Text) : Type 1 where
  pub fit : NodeType → Text → List Attribute → Bool
  pub plain : (d : Text) → fit element_node d [] ≡ true
  pub Good : List Text → Forest → List Text → Type 0
  pub empty : (u : List Text) → Good u nil u
  pub append :
      (u v w : List Text) (xs ys : Forest) → Good u xs v → Good v ys w → Good u (xs +++ ys) w
  pub exchange :
      (u w : List Text) (a b c d : Forest)
      → Good u ((a +++ b) +++ (c +++ d)) w
      → Good u ((a +++ c) +++ (b +++ d)) w
  pub leave_out : (u w : List Text) (a b : Forest) → Good u (a +++ b) w → Good u b w
  pub link : (u : List Text) (src : Text) → Good u (cons (media_link src) nil) u
  pub other :
      (u w : List Text) (k : NodeType) (d : Text) (attrs : List Attribute) (cs : Forest)
      → is_element k ≡ false
      → fit k d attrs ≡ true
      → Good u cs w
      → Good u (cons (node k d attrs cs) nil) w
  pub kept :
      (u w : List Text) (parent : Option Text) (d : Text) (attrs : List Attribute) (up cs : Forest)
      → is_kept_element d attrs ≡ true
      → fit element_node d attrs ≡ true
      → Good (filter_attributes fl ids d u attrs).used (up +++ cs) w
      → Good u
          (up
            +++ cons
                (element (fix_figcaption parent d) (filter_attributes fl ids d u attrs).attrs cs)
                nil)
          w

module _ (fl : Floats) (ids : List Text) (inv : Invariant fl ids) where
  open inv use {fit, Good, empty, append, exchange, leave_out, link, other, kept}

  abbrev pub Emits : List Text → Cleaned → Type 0
  Emits u r = Good u (r.lifted +++ from_option r.result) r.used

  abbrev pub EmitsAll : List Text → Children → Type 0
  EmitsAll u r = Good u (r.lifted +++ r.kept) r.used

  -- What a verdict is worth; the verdict `keep` is that of the whitelist and of the image test.
  abbrev pub Justifies : List Text → Bool → List Text → Verdict → Type 0
  Justifies u ok u' remove = Good u nil u'
  Justifies u ok u' keep = (u' ≡ u) × (ok ≡ true)
  Justifies u ok u' (replace n) = Good u (cons n nil) u'

  abbrev pub Decides : List Text → Bool → (List Text × Verdict) → Type 0
  Decides u ok r = Justifies u ok r.0 r.1

  -- What the recursive calls do.
  abbrev pub AllEmit : (List Text → Node → Option Cleaned) → Type 0
  AllEmit cr = (u : List Text) (n : Node) → fits fit n ≡ true → Ensures (Emits u) (cr u n)

  transform_media-Justifies :
      (u : List Text) (ok : Bool) (attrs : List Attribute) (cs : Forest)
      → Justifies u ok u (transform_media attrs cs)
  unfolding transform_media
  transform_media-Justifies u ok attrs cs =
      let own = src_of attrs in
      let src = if own =? [] then source_src cs else own in
      elim (Bool-cases (src =? [])) [ inl e ↦ rw e (empty u) | inr e ↦ rw e (link u src) ]

  img-Justifies :
      (u : List Text) (ok : Bool) (r : Cleaned) (v : Option Node)
      → Good u (r.lifted +++ from_option v) r.used
      → Justifies u ok r.used (elim v [ none ↦ remove | some n ↦ replace n ])
  img-Justifies u ok r none h = leave_out u r.used r.lifted nil h
  img-Justifies u ok r (some n) h = leave_out u r.used r.lifted (cons n nil) h

  collapse_picture-Decides :
      (cr : List Text → Node → Option Cleaned)
      → AllEmit cr
      → (u : List Text) (ok : Bool) (img : Option Node) → Ensures (λ n. fits fit n ≡ true) img
      → Ensures (Decides u ok) (collapse_picture cr u img)
  unfolding collapse_picture
  collapse_picture-Decides cr h u ok none ft = empty u
  collapse_picture-Decides cr h u ok (some c) ft =
      Ensures-bind (Emits u) (Decides u ok) (cr u c)
        (λ r. some (r.used, elim (r.result) [ none ↦ remove | some n ↦ replace n ])) (h u c ft)
        (λ r g. img-Justifies u ok r r.result g)

  pub transform_element-Decides :
      (cr : List Text → Node → Option Cleaned)
      → AllEmit cr
      → (u : List Text) (d : Text) (attrs : List Attribute) (cs : Forest) → fits_in fit cs ≡ true
      → Ensures (Decides u (is_kept_element d attrs)) (transform_element cr u d attrs cs)
  unfolding transform_element
  transform_element-Decides cr h u d attrs cs ft =
      elim (Bool-cases (d =? codes "video" || d =? codes "audio")) [
        | inl e ↦ rw e (transform_media-Justifies u (is_kept_element d attrs) attrs cs)
        | inr e ↦ rw e (elim (Bool-cases (d =? codes "source")) [
          | inl e' ↦ rw e' (empty u)
          | inr e' ↦ rw e' (elim (Bool-cases (d =? codes "picture")) [
            | inl e'' ↦ rw e'' (
                collapse_picture-Decides cr h u (is_kept_element d attrs) (first_img cs)
                  (fits-first_img fit cs ft))
            | inr e'' ↦ rw e'' (elim (Bool-cases (is_kept_element d attrs)) [
              | inl k ↦ rw k (refl, refl)
              | inr k ↦ rw k (empty u)
            ])
          ])
        ])
      ]

  -- A child's outcome in front of that of its siblings.
  step-EmitsAll :
      (ph : Bool) (u : List Text) (r : Cleaned) (rest : Children)
      → Emits u r
      → EmitsAll r.used rest
      → EmitsAll u (
          if ph
          then record rest {
            lifted = r.lifted +++ rest.lifted;
            kept = from_option r.result +++ rest.kept;
          }
          else record rest {
            lifted = nil;
            kept = r.lifted +++ (from_option r.result +++ rest.kept);
          })
  step-EmitsAll true u r rest g g' =
      exchange u rest.used r.lifted (from_option r.result) rest.lifted rest.kept
        (append u r.used rest.used _ _ g g')
  step-EmitsAll false u r rest g g' =
      let front = r.lifted +++ from_option r.result in
      let moved =
        exchange u rest.used nil front rest.lifted rest.kept
          (append u r.used rest.used front (rest.lifted +++ rest.kept) g g') in
      rw (← +++_assoc r.lifted (from_option r.result) rest.kept)
        (leave_out u rest.used rest.lifted (front +++ rest.kept) moved)

  pub clean_children-EmitsAll :
      (cr : List Text → Node → Option Cleaned)
      → AllEmit cr
      → (ph : Bool) (u : List Text) (cs : Forest) → fits_in fit cs ≡ true
      → Ensures (EmitsAll u) (clean_children cr ph u cs)
  unfolding clean_children fits
  clean_children-EmitsAll cr h ph u nil ft = empty u
  clean_children-EmitsAll cr h ph u (cons c cs) ft =
      let (here, later) = &&-eq-true (fits fit c) (fits_in fit cs) ft in
      Ensures-bind (Emits u) (EmitsAll u) (cr u c) _ (h u c here) (λ r g.
        Ensures-bind (EmitsAll r.used) (EmitsAll u) (clean_children cr ph r.used cs) _
          (clean_children-EmitsAll cr h ph r.used cs later)
          (λ rest g'. step-EmitsAll ph u r rest g g'))
