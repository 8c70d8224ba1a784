-- ===== src/Sanitize/Every.antt =====
-- A test that holds of each node that `clean` emits holds of each node that it leaves.
use deckle.Base.{
  ◌*◌, Bool, true, false, not, ◌||◌, Option, none, List, [], ◌∷◌, ◌≡◌, refl, arith, Text, codes,
  Yields, Yields-Ensures,
}
use deckle.Sanitize.Attrs.{Floats, filter_attributes}
use deckle.Sanitize.Clean.{media_link, is_kept_element, fix_figcaption}
use deckle.Sanitize.Dom.{
  Attribute, NodeType, element_node, Node, node, Forest, nil, cons, ◌+++◌, from_option, is_element,
  height,
}
use deckle.Sanitize.Fits.{fits, fits_in, fits_any, fits-append}
use deckle.Sanitize.Invariant.{Invariant, Emits}
use deckle.Sanitize.Invariant.Induction.{clean-Emits}
use deckle.Sanitize.Total.{clean_document-ends}
use deckle.Sanitize.Xhtml.{clean_document, collect_ids}

module _ (fl : Floats) (q p : NodeType → Text → List Attribute → Bool) where
  -- What the tests have to hold of, `q` before and `p` after: the elements without attributes that
  -- `fixDLContent` adds, the link for a <video>, a node that is no element, and a kept element after
  -- its attributes are filtered.
  pub record Preserves : Type 0 where
    pub plain : (d : Text) → q element_node d [] ≡ true
    pub media : (src : Text) → fits_in p (cons (media_link src) nil) ≡ true
    pub other :
        (k : NodeType) (d : Text) (attrs : List Attribute)
        → is_element k ≡ false
        → q k d attrs ≡ true
        → p k d attrs ≡ true
    pub kept :
        (ids u : List Text) (parent : Option Text) (d : Text) (attrs : List Attribute)
        → is_kept_element d attrs ≡ true
        → q element_node d attrs ≡ true
        → p element_node (fix_figcaption parent d) (filter_attributes fl ids d u attrs).attrs ≡ true

  fits-node :
      (k : NodeType) (d : Text) (attrs : List Attribute) (up cs : Forest)
      → p k d attrs ≡ true
      → fits_in p (up +++ cs) ≡ true
      → fits_in p (up +++ cons (node k d attrs cs) nil) ≡ true
  unfolding fits
  fits-node k d attrs up cs h g =
      ground (arith, fits-append p up cs, fits-append p up (cons (node k d attrs cs) nil))

  preserved_Invariant : (ids : List Text) → Preserves → Invariant fl ids
  unfolding fits
  preserved_Invariant ids passes = record {
    fit = q;
    plain = passes.plain;
    Good = λ u f w. fits_in p f ≡ true;
    empty = λ u. refl;
    append = λ u v w xs ys g h. ground (arith, fits-append p xs ys);
    exchange = λ u w a b c d g. ground (
      arith,
      fits-append p (a +++ b) (c +++ d),
      fits-append p a b,
      fits-append p c d,
      fits-append p (a +++ c) (b +++ d),
      fits-append p a c,
      fits-append p b d,
    );
    leave_out = λ u w a b g. ground (arith, fits-append p a b);
    link = λ u src. passes.media src;
    other = λ u w k d attrs cs h ft g. fits-node k d attrs nil cs (passes.other k d attrs h ft) g;
    kept = λ u w parent d attrs up cs h ft g.
        fits-node element_node (fix_figcaption parent d) _ up cs
          (passes.kept ids u parent d attrs h ft) g;
  }

  -- The test holds of each node of the document that `clean` leaves.
  pub fits-clean_document :
      (doc : Node)
      → Preserves
      → fits q doc ≡ true
      → Yields (λ r. fits_in p (from_option r.result) ≡ true) (clean_document fl doc)
  unfolding clean_document preserved_Invariant
  fits-clean_document doc passes ft =
      let ids = collect_ids doc in
      let inv = preserved_Invariant ids passes in
      Yields-Ensures (λ r. Unit {0}) (Emits fl ids inv [])
        (λ r. fits_in p (from_option r.result) ≡ true) (clean_document fl doc)
        (clean_document-ends fl doc) (clean-Emits fl ids inv (2 * height doc) none [] doc ft)
        (λ r _ g. inv.leave_out [] r.used r.lifted (from_option r.result) g)

-- A test of the tag and the attributes of an element, as a test of nodes
abbrev pub on_elements : (Text → List Attribute → Bool) → NodeType → Text → List Attribute → Bool
on_elements p k d attrs = not (is_element k) || p d attrs

-- Each element of the trees passes the test of its tag and attributes.
unfoldable pub every_in : (Text → List Attribute → Bool) → Forest → Bool
every_in p f = fits_in (on_elements p) f

module _ (p : Text → List Attribute → Bool) where
  -- What a test of elements has to hold of: the link for a <video>, and a kept element after its
  -- attributes are filtered.
  pub record Passes (fl : Floats) : Type 0 where
    pub link : (src : Text) → p (codes "a") (record { key = codes "href"; val = src } ∷ []) ≡ true
    pub kept :
        (ids u : List Text) (parent : Option Text) (d : Text) (attrs : List Attribute)
        → is_kept_element d attrs ≡ true
        → p (fix_figcaption parent d) (filter_attributes fl ids d u attrs).attrs ≡ true

  passes-Preserves : (fl : Floats) → Passes fl → Preserves fl (λ k d attrs. true) (on_elements p)
  unfolding fits
  passes-Preserves fl passes = record {
    plain = λ d. refl;
    media = λ src. ground (arith, passes.link src);
    other = λ k d attrs h q. ground arith;
    kept = λ ids u parent d attrs h q. passes.kept ids u parent d attrs h;
  }

  -- The test holds of each element of the document that `clean` leaves.
  pub every-clean_document :
      (fl : Floats) (doc : Node)
      → Passes fl
      → Yields (λ r. every_in p (from_option r.result) ≡ true) (clean_document fl doc)
  unfolding every_in
  every-clean_document fl doc passes =
      fits-clean_document fl (λ k d attrs. true) (on_elements p) doc (passes-Preserves fl passes)
        (fits_any doc)
