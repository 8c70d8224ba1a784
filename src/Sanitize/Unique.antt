-- ===== src/Sanitize/Unique.antt =====
-- No ID occurs twice in the tree that `clean` leaves.
use deckle.Base.{
  ◌+◌, ◌≤◌, none, List, [], ◌≡◌, refl, arith, Text, has, bit, Yields, Yields-Ensures, Bool, true,
  ◌*◌, false, ◌=?◌,
}
use deckle.Sanitize.Attrs.{Floats}
use deckle.Sanitize.Clean.{media_link}
use deckle.Sanitize.Dom.{
  Attribute, NodeType, element_node, Node, node, Forest, nil, cons, element, from_option,
  is_element, height,
}
use deckle.Sanitize.Fits.{fits_any}
use deckle.Sanitize.Ids.{
  id_count, id_counts, attr_id_count, Fresh, id_counts-append, filter_attributes-Fresh,
}
use deckle.Sanitize.Total.{clean_document-ends}
use deckle.Sanitize.Xhtml.{clean_document, collect_ids}
use deckle.Sanitize.Invariant.{Invariant, Emits}
use deckle.Sanitize.Invariant.Induction.{clean-Emits}

module _ (x : Text) where
  other_count :
      (k : NodeType) (d : Text) (attrs : List Attribute) (cs : Forest)
      → is_element k ≡ false
      → id_count x (node k d attrs cs) ≡ id_counts x cs
  unfolding id_count
  other_count element_node d attrs cs h = cc
  other_count _ d attrs cs h = refl

  count_other :
      (k : NodeType) (d : Text) (attrs : List Attribute) (cs : Forest)
      → is_element k ≡ false
      → id_counts x (cons (node k d attrs cs) nil) ≡ id_counts x cs
  unfolding id_count
  count_other k d attrs cs h = omega (arith, other_count k d attrs cs h)

  count_element :
      (d : Text) (attrs : List Attribute) (cs : Forest)
      → id_counts x (cons (element d attrs cs) nil) ≡ attr_id_count x attrs + id_counts x cs
  unfolding id_count
  count_element d attrs cs = omega arith

  count_link : (src : Text) → id_counts x (cons (media_link src) nil) ≡ 0
  unfolding id_count ◌=?◌
  count_link src = refl

  count_nil : id_counts x nil ≡ 0
  unfolding id_count
  count_nil = refl

  -- Every occurrence of `x` as an ID uses `x` up.
  ids_Invariant : (fl : Floats) (ids : List Text) → Invariant fl ids
  ids_Invariant fl ids = record {
    fit = λ k d attrs. true;
    plain = λ d. refl;
    Good = λ u f w. Fresh x u (id_counts x f) w;
    empty = λ u. omega (arith, count_nil);
    append = λ u v w xs ys g h. omega (arith, id_counts-append x xs ys, g, h);
    exchange = λ u w a b c d g. omega (arith, id_counts-append x, g);
    leave_out = λ u w a b g. omega (arith, id_counts-append x a b, g);
    link = λ u src. omega (arith, count_link src);
    other = λ u w k d attrs cs h ft g. omega (arith, count_other k d attrs cs h, g);
    kept = λ u w p d attrs up cs h ft g.
        omega
          (arith, id_counts-append x, count_element, filter_attributes-Fresh x fl ids d u attrs, g);
  }

bit-le : (b : Bool) → bit b ≤ 1
bit-le true = omega arith
bit-le false = omega arith

-- `clean` ends on every document, and no value stands twice among the `id` attributes of the
-- elements that it leaves.
pub ids_unique :
    (fl : Floats) (doc : Node) (x : Text)
    → Yields (λ r. id_counts x (from_option r.result) ≤ 1) (clean_document fl doc)
unfolding clean_document ids_Invariant
ids_unique fl doc x =
    Yields-Ensures (λ r. Unit {0})
      (Emits fl (collect_ids doc) (ids_Invariant x fl (collect_ids doc)) [])
      (λ r. id_counts x (from_option r.result) ≤ 1) (clean_document fl doc)
      (clean_document-ends fl doc)
      (clean-Emits fl (collect_ids doc) (ids_Invariant x fl (collect_ids doc)) (2 * height doc) none
        [] doc (fits_any doc))
      (λ r _ g.
        omega (arith, id_counts-append x r.lifted (from_option r.result), bit-le (has r.used x), g))
