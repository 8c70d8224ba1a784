-- ===== src/Sanitize/Fits.antt =====
-- A test of the nodes of a parsed document, by their type, data and attributes, holds of each tree that
-- sanitize.go makes of them without cleaning it.
use deckle.Base.{
  Bool, true, false, ◌&&◌, ◌≡◌, refl, arith, List, [], Text, codes, Bool-cases, inl, inr, Ensures,
}
use deckle.Sanitize.Clean.{first_img}
use deckle.Sanitize.Dl.{
  is_tag, dt, dd, wrap_child, wrap_children, open_groups, close_last_group, ensure_pair,
  fix_dl_content,
}
use deckle.Sanitize.Dom.{
  Attribute, NodeType, element_node, text_node, Node, node, Forest, nil, cons, ◌+++◌,
}

-- Each node passes the test.
unfoldable mutual
  pub fits : (NodeType → Text → List Attribute → Bool) → Node → Bool
  fits p (node k d attrs cs) = p k d attrs && fits_in p cs

  pub fits_in : (NodeType → Text → List Attribute → Bool) → Forest → Bool
  fits_in p nil = true
  fits_in p (cons n ns) = fits p n && fits_in p ns

mutual
  unfolding fits

  pub fits_any : (n : Node) → fits (λ k d attrs. true) n ≡ true
  fits_any (node k d attrs cs) = fits_in_any cs

  pub fits_in_any : (cs : Forest) → fits_in (λ k d attrs. true) cs ≡ true
  fits_in_any nil = refl
  fits_in_any (cons n ns) = ground (arith, fits_any n, fits_in_any ns)

module _ (p : NodeType → Text → List Attribute → Bool) where
  pub fits-append : (xs ys : Forest) → fits_in p (xs +++ ys) ≡ (fits_in p xs && fits_in p ys)
  unfolding fits
  fits-append nil ys = refl
  fits-append (cons n ns) ys = ground (arith, fits-append ns ys)

  pub fits-first_img :
      (cs : Forest) → fits_in p cs ≡ true → Ensures (λ n. fits p n ≡ true) (first_img cs)
  unfolding fits first_img
  fits-first_img nil h = tt
  fits-first_img (cons c cs) h = elim (Bool-cases (is_tag (codes "img") c)) [
    | inl e ↦ rw e (ground arith)
    | inr e ↦ rw e (fits-first_img cs (ground arith))
  ]

  module _ (plain : (d : Text) → p element_node d [] ≡ true) where
    fits-wrap_child : (n : Node) → fits p n ≡ true → fits p (wrap_child n) ≡ true
    unfolding fits wrap_child
    fits-wrap_child (node text_node d attrs cs) h = ground (arith, plain (codes "dt"))
    fits-wrap_child (node element_node d attrs cs) h = ground (arith, plain (codes "dd"))
    fits-wrap_child (node _ d attrs cs) h = h

    fits-wrap_children : (cs : Forest) → fits_in p cs ≡ true → fits_in p (wrap_children cs) ≡ true
    unfolding fits wrap_children
    fits-wrap_children nil h = refl
    fits-wrap_children (cons c cs) h = ground (arith, fits-wrap_child c, fits-wrap_children cs)

    fits-open_groups :
        (seen : Bool) (cs : Forest) → fits_in p cs ≡ true → fits_in p (open_groups seen cs) ≡ true
    unfolding fits open_groups
    fits-open_groups seen nil h = refl
    fits-open_groups seen (cons c cs) h =
        ground (arith, plain (codes "dt"), fits-open_groups true cs, fits-open_groups seen cs)

    fits-close_last_group :
        (cs : Forest) → fits_in p cs ≡ true → fits_in p (close_last_group cs) ≡ true
    unfolding fits close_last_group
    fits-close_last_group nil h = refl
    fits-close_last_group (cons c cs) h =
        ground (arith, plain (codes "dd"), fits-close_last_group cs)

    fits-ensure_pair : (cs : Forest) → fits_in p cs ≡ true → fits_in p (ensure_pair cs) ≡ true
    unfolding fits ensure_pair
    fits-ensure_pair cs h = ground (
      arith,
      plain (codes "dt"),
      plain (codes "dd"),
      fits-append cs (cons (dd nil) nil),
      fits-append (cons (dt nil) cs) (cons (dd nil) nil),
    )

    pub fits-fix_dl_content :
        (cs : Forest) → fits_in p cs ≡ true → fits_in p (fix_dl_content cs) ≡ true
    unfolding fix_dl_content
    fits-fix_dl_content cs h =
        fits-ensure_pair _
          (fits-close_last_group _ (fits-open_groups false _ (fits-wrap_children cs h)))
