-- ===== src/Sanitize/Frame/Kept.antt =====
-- `clean` keeps the frame of a page.
use deckle.Base.{
  ℕ, suc, ◌*◌, ◌-◌, ◌≤◌, true, false, Option, none, some, ◌>>=◌, List, [], ◌≡◌, refl, arith, Text,
  codes, ◌=?◌, one_of, one_of-elim, Ensures, Ensures-bind, Ensures-any,
}
use deckle.Sanitize.Attrs.{Floats, filter_attributes}
use deckle.Sanitize.Clean.{
  Cleaned, Children, clean, clean_kept, clean_children, transform_element, is_kept_element,
  fix_nesting, fix_figcaption,
}
use deckle.Sanitize.Dom.{
  Attribute, text_node, comment_node, element_node, Node, node, Forest, nil, cons, element, ◌+++◌,
  +++-nil, from_option, height,
}
use deckle.Sanitize.Frame.{
  html_page, metadata, is_metadata, is_head_node, is_head_content, is_text_only, text_only-append,
}
use deckle.Sanitize.Tags.{is_allowed_tag, is_phrasing_element}
use deckle.Sanitize.Xhtml.{clean_document, collect_ids}

-- Nothing is lifted, and what stays of the node or of the children has the property.
abbrev Leaves : (Forest → Type 0) → Cleaned → Type 0
Leaves P r = (r.lifted ≡ nil) × P (from_option r.result)

abbrev Keeps : (Forest → Type 0) → Children → Type 0
Keeps P c = (c.lifted ≡ nil) × P c.kept

abbrev IsTextOnly : Forest → Type 0
IsTextOnly f = is_text_only f ≡ true

-- The element `d` without attributes, with children of which `Q` holds
abbrev Framed : Text → (Forest → Type 0) → Forest → Type 0
Framed d Q f = (kept : Forest) × (f ≡ cons (element d [] kept) nil) × Q kept

close-Framed :
    (d : Text) (Q : Forest → Type 0) (m : Option Children)
    → Ensures (Keeps Q) m
    → Ensures (Leaves (Framed d Q)) (
        m >>= (λ c. some (record {
          used = c.used;
          lifted = nil +++ c.lifted;
          result = some (element d [] c.kept);
        })))
close-Framed d Q none h = tt
close-Framed d Q (some c) h = (h.0, (c.kept, refl, h.1))

-- What a pass over the children leaves under an element that is not a phrasing element
module _ (cr : List Text → Node → Option Cleaned) where
  pass-nothing_lifted :
      (u : List Text) (cs : Forest) → Ensures (Keeps (λ f. Unit {0})) (clean_children cr false u cs)
  unfolding clean_children
  pass-nothing_lifted u nil = (refl, tt)
  pass-nothing_lifted u (cons c cs) =
      Ensures-bind (λ r. Unit {0}) (Keeps (λ f. Unit {0})) (cr u c) _ (Ensures-any (cr u c))
        (λ r _.
          Ensures-bind (λ r. Unit {0}) (Keeps (λ f. Unit {0})) (clean_children cr false r.used cs) _
            (Ensures-any _) (λ rest _. (refl, tt)))

  pass-cons :
      (P Q R : Forest → Type 0) (u : List Text) (c : Node) (cs : Forest)
      → Ensures (Leaves P) (cr u c)
      → ((u : List Text) → Ensures (Keeps Q) (clean_children cr false u cs))
      → ((xs ys : Forest) → P xs → Q ys → R (xs +++ ys))
      → Ensures (Keeps R) (clean_children cr false u (cons c cs))
  unfolding clean_children
  pass-cons P Q R u c cs hc hcs put = Ensures-bind (Leaves P) (Keeps R) (cr u c) _ hc (λ r g.
      Ensures-bind (Keeps Q) (Keeps R) (clean_children cr false r.used cs) _ (hcs r.used)
        (λ rest g'. (refl, rw g.0 (put (from_option r.result) rest.kept g.1 g'.1))))

  pass-one :
      (P : Forest → Type 0) (u : List Text) (c : Node)
      → Ensures (Leaves P) (cr u c)
      → Ensures (Keeps P) (clean_children cr false u (cons c nil))
  unfolding clean_children
  pass-one P u c hc =
      pass-cons P (λ f. f ≡ nil) P u c nil hc (λ u. (refl, refl))
        (λ xs ys h e. rw (e, +++-nil xs) h)

-- The head with texts only, and the body
abbrev IsContents : Forest → Type 0
IsContents f =
    (ws : Forest) × (kept : Forest) × (f
      ≡ cons (element (codes "head") [] ws) (cons (element (codes "body") [] kept) nil))
    × (is_text_only ws ≡ true)

contents :
    (xs ys : Forest)
    → Framed (codes "head") IsTextOnly xs
    → Framed (codes "body") (λ f. Unit {0}) ys
    → IsContents (xs +++ ys)
contents xs ys (ws, is_head, texts) (kept, is_body, _) =
    (ws, kept, rw (is_head, is_body) refl, texts)

-- A page again, with texts only in its head
abbrev pub IsPage : Cleaned → Type 0
IsPage r =
    (ws : Forest) × (kept : Forest) × (r.result ≡ some (html_page ws kept))
    × (is_text_only ws ≡ true)

module _ (fl : Floats) (ids : List Text) where
  metadata_removed :
      (f : ℕ) (p : Option Text) (u : List Text) (d : Text) (attrs : List Attribute) (cs : Forest)
      → is_metadata d ≡ true
      → clean fl ids (suc f) p u (element d attrs cs)
        ≡ some (record { used = u; lifted = nil; result = none })
  unfolding is_metadata clean transform_element is_kept_element is_allowed_tag one_of ◌=?◌
  metadata_removed f p u d attrs cs h =
      one_of-elim
        (λ t.
          clean fl ids (suc f) p u (element t attrs cs)
          ≡ some (record { used = u; lifted = nil; result = none }))
        d metadata
        (refl, (refl, (refl, (refl, (refl, (refl, (refl, (refl, (refl, (refl, (refl, tt))))))))))) h

  head_node-IsTextOnly :
      (f : ℕ) (p : Option Text) (u : List Text) (n : Node)
      → is_head_node n ≡ true
      → Ensures (Leaves IsTextOnly) (clean fl ids (suc f) p u n)
  unfolding clean clean_children is_text_only
  head_node-IsTextOnly f p u (node element_node d attrs cs) h =
      rw (metadata_removed f p u d attrs cs h) (refl, refl)
  head_node-IsTextOnly f p u (node text_node d attrs nil) h = (refl, refl)
  head_node-IsTextOnly f p u (node comment_node d attrs nil) h = (refl, refl)
  head_node-IsTextOnly f p u (node _ d attrs cs) h = cc

  clean_head_content :
      (f : ℕ) (p : Option Text) (u : List Text) (hs : Forest)
      → is_head_content hs ≡ true
      → Ensures (Keeps IsTextOnly) (clean_children (clean fl ids (suc f) p) false u hs)
  unfolding is_head_content is_text_only clean_children
  clean_head_content f p u nil h = (refl, refl)
  clean_head_content f p u (cons n ns) h =
      pass-cons (clean fl ids (suc f) p) IsTextOnly IsTextOnly IsTextOnly u n ns
        (head_node-IsTextOnly f p u n (ground arith))
        (λ u. clean_head_content f p u ns (ground arith)) text_only-append

  clean_head :
      (f : ℕ) (p : Text) (u : List Text) (hs : Forest)
      → is_head_content hs ≡ true
      → Ensures
          (Leaves (Framed (codes "head") IsTextOnly))
          (clean fl ids (suc (suc f)) (some p) u (element (codes "head") [] hs))
  unfolding clean clean_kept transform_element is_kept_element fix_nesting fix_figcaption
      filter_attributes is_allowed_tag is_phrasing_element one_of ◌=?◌
  clean_head f p u hs h =
      close-Framed (codes "head") IsTextOnly _ (clean_head_content f (some (codes "head")) u hs h)

  clean_body :
      (f : ℕ) (p : Text) (u : List Text) (bs : Forest)
      → Ensures
          (Leaves (Framed (codes "body") (λ f. Unit {0})))
          (clean fl ids (suc f) (some p) u (element (codes "body") [] bs))
  unfolding clean clean_kept transform_element is_kept_element fix_nesting fix_figcaption
      filter_attributes is_allowed_tag is_phrasing_element one_of ◌=?◌
  clean_body f p u bs = close-Framed (codes "body") (λ f. Unit {0}) _ (pass-nothing_lifted _ u bs)

  clean_html :
      (f : ℕ) (p : Text) (u : List Text) (hs bs : Forest)
      → is_head_content hs ≡ true
      → Ensures (Leaves (Framed (codes "html") IsContents)) (
          clean fl ids (suc (suc (suc f))) (some p) u (
            element
              (codes "html")
              []
              (cons (element (codes "head") [] hs) (cons (element (codes "body") [] bs) nil))))
  unfolding clean clean_kept transform_element is_kept_element fix_nesting fix_figcaption
      filter_attributes is_allowed_tag is_phrasing_element one_of ◌=?◌
  clean_html f p u hs bs h =
      let cr = clean fl ids (suc (suc f)) (some (codes "html")) in
      close-Framed (codes "html") IsContents _ (
        pass-cons cr (Framed (codes "head") IsTextOnly) (Framed (codes "body") (λ f. Unit {0}))
          IsContents u (element (codes "head") [] hs) (cons (element (codes "body") [] bs) nil)
          (clean_head f (codes "html") u hs h)
          (λ u.
            pass-one cr (Framed (codes "body") (λ f. Unit {0})) u (element (codes "body") [] bs)
              (clean_body (suc f) (codes "html") u bs))
          contents)

  clean-html_page :
      (f : ℕ) (u : List Text) (hs bs : Forest)
      → is_head_content hs ≡ true
      → Ensures IsPage (clean fl ids (suc (suc (suc (suc f)))) none u (html_page hs bs))
  unfolding clean
  clean-html_page f u hs bs h =
      let cr = clean fl ids (suc (suc (suc f))) (some []) in
      let html =
        element (codes "html") []
          (cons (element (codes "head") [] hs) (cons (element (codes "body") [] bs) nil)) in
      Ensures-bind (Keeps (Framed (codes "html") IsContents)) IsPage
        (clean_children cr false u (cons html nil)) _
        (pass-one cr (Framed (codes "html") IsContents) u html (clean_html f [] u hs bs h))
        (λ c g.
          let (nothing_lifted, framed) = g in
          let (inner, shape, parts) = framed in
          let (ws, kept, same, texts) = parts in (ws, kept, rw (shape, same) refl, texts))

height-html_page : (hs bs : Forest) → 4 ≤ 2 * height (html_page hs bs)
unfolding height
height-html_page hs bs = omega arith

-- What `clean` leaves of a page is a page, with nothing but texts and comments in its head.
pub clean_document-IsPage :
    (fl : Floats) (hs bs : Forest)
    → is_head_content hs ≡ true
    → Ensures IsPage (clean_document fl (html_page hs bs))
unfolding clean_document
clean_document-IsPage fl hs bs h =
    let n = 2 * height (html_page hs bs) in
    let enough : n ≡ suc (suc (suc (suc (n - 4)))) = omega (arith, height-html_page hs bs) in
    rw enough (clean-html_page fl (collect_ids (html_page hs bs)) (n - 4) [] hs bs h)
