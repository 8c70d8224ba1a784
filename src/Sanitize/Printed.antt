-- ===== src/Sanitize/Printed.antt =====
-- What `renderXHTML` prints is well-formed.
use deckle.Base.{
  true, ◌&&◌, List, [], ◌∷◌, append-nil, ◌≡◌, refl, arith, Text, all, has, Bool-cases, inl, inr,
  map,
}
use deckle.Sanitize.Dom.{
  Attribute, error_node, text_node, document_node, element_node, comment_node, doctype_node,
  raw_node, Node, node, Forest, nil, cons,
}
use deckle.Sanitize.Fits.{fits, fits_in}
use deckle.Sanitize.Grammar.{
  is_name, is_char_data, Attributes, no_more, attribute, Content, nothing, char_data, empty_element,
  tags, Content-append,
}
use deckle.Sanitize.Sound.{has_key, are_distinct, is_sound}
use deckle.Sanitize.Tags.{is_void_element}
use deckle.Sanitize.Xhtml.{render_attrs, is_nil, render_xhtml, render_children}

has-keys : (attrs : List Attribute) (k : Text) → has (map (λ a. a.key) attrs) k ≡ has_key attrs k
unfolding has has_key
has-keys [] k = refl
has-keys (a ∷ attrs) k = ground (arith, has-keys attrs k)

-- `html.EscapeString` of golang.org/x/net/html, with its promise: the text has no markup
module _ (escape : Text → Text) (safe : (t : Text) → is_char_data (escape t) ≡ true) where
  render_attrs-Attributes :
      (attrs : List Attribute)
      → all (λ a. is_name a.key) attrs ≡ true
      → are_distinct attrs ≡ true
      → Attributes (map (λ a. a.key) attrs) (render_attrs escape attrs)
  unfolding render_attrs are_distinct
  render_attrs-Attributes [] h d = no_more
  render_attrs-Attributes (a ∷ attrs) h d =
      attribute a.key (escape a.val) (map (λ a. a.key) attrs) (render_attrs escape attrs)
        (ground arith) (ground (arith, has-keys attrs a.key)) (safe a.val)
        (render_attrs-Attributes attrs (ground arith) (ground arith))

  mutual
    unfolding fits render_xhtml is_sound

    pub render_xhtml-Content : (n : Node) → fits is_sound n ≡ true → Content (render_xhtml escape n)
    render_xhtml-Content (node text_node d attrs cs) h =
        rw (← append-nil (escape d)) (char_data (escape d) [] (safe d) nothing)
    render_xhtml-Content (node element_node d attrs cs) h =
        let written = render_attrs-Attributes attrs (ground arith) (ground arith) in
        let name : is_name d ≡ true = ground arith in
        elim (Bool-cases (is_void_element d && is_nil escape cs)) [
          | inl e ↦ rw e (empty_element d (render_attrs escape attrs) [] _ name written nothing)
          | inr e ↦ rw e (
              tags d (render_attrs escape attrs) (render_children escape cs) [] _ name written
                (render_children-Content cs (ground arith)) nothing)
        ]
    render_xhtml-Content (node document_node d attrs cs) h = render_children-Content cs h
    render_xhtml-Content (node raw_node d attrs cs) h = cc
    render_xhtml-Content (node error_node d attrs cs) h = nothing
    render_xhtml-Content (node comment_node d attrs cs) h = nothing
    render_xhtml-Content (node doctype_node d attrs cs) h = nothing

    pub render_children-Content :
        (cs : Forest) → fits_in is_sound cs ≡ true → Content (render_children escape cs)
    render_children-Content nil h = nothing
    render_children-Content (cons n ns) h =
        Content-append (render_xhtml escape n) (render_children escape ns)
          (render_xhtml-Content n (ground arith)) (render_children-Content ns (ground arith))
