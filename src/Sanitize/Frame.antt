-- ===== src/Sanitize/Frame.antt =====
-- The document that the parser makes of the content of a page: the elements html, head and body
-- stand around it.
pub mod Kept
use Prim.Native.String.{String}
use deckle.Base.{
  ℕ, zero, suc, ◌*◌, ◌+◌, ◌-◌, ◌≤◌, Bool, true, false, not, ◌&&◌, ◌||◌, Option, none, some, ◌>>=◌,
  List, [], ◌∷◌, ◌≡◌, refl, arith, Text, codes, ◌=?◌, one_of, one_of-elim, Yields, Yields-Ensures,
  Ensures, Ensures-bind, Ensures-any, if◌then◌else◌, max,
}
use deckle.Sanitize.Attrs.{Floats, filter_attributes}
use deckle.Sanitize.Clean.{
  Cleaned, Children, clean, clean_kept, clean_children, transform_element, is_kept_element,
  fix_nesting, fix_figcaption,
}
use deckle.Sanitize.Dom.{
  Attribute, text_node, document_node, comment_node, element_node, Node, node, Forest, nil, cons,
  element, ◌+++◌, +++-nil, from_option, height,
}
use deckle.Sanitize.Tags.{is_allowed_tag, is_phrasing_element}
use deckle.Sanitize.Total.{clean_document-ends}
use deckle.Sanitize.Xhtml.{clean_document, collect_ids}

-- The document of a page with these children of its head and its body, and no attributes on them
abbrev pub html_page : Forest → Forest → Node
html_page hs bs = node document_node [] [] (
    cons
      (element (codes "html") []
        (cons (element (codes "head") [] hs) (cons (element (codes "body") [] bs) nil)))
      nil)

-- The elements that the parser puts into the head
abbrev pub metadata : List String
metadata =
    "base" ∷ "basefont" ∷ "bgsound" ∷ "link" ∷ "meta" ∷ "title" ∷ "noscript" ∷ "noframes" ∷ "style"
    ∷ "script" ∷ "template" ∷ []

unfoldable pub is_metadata : Text → Bool
unfolding one_of
is_metadata d = one_of d metadata

-- What the parser puts into the head: those elements, texts and comments
abbrev pub is_head_node : Node → Bool
is_head_node (node element_node d attrs cs) = is_metadata d
is_head_node (node text_node d attrs nil) = true
is_head_node (node comment_node d attrs nil) = true
is_head_node _ = false

unfoldable pub is_head_content : Forest → Bool
is_head_content nil = true
is_head_content (cons n ns) = is_head_node n && is_head_content ns

-- Texts and comments
abbrev is_text : Node → Bool
is_text (node text_node d attrs nil) = true
is_text (node comment_node d attrs nil) = true
is_text _ = false

unfoldable pub is_text_only : Forest → Bool
is_text_only nil = true
is_text_only (cons n ns) = is_text n && is_text_only ns

pub text_only-append :
    (xs ys : Forest)
    → is_text_only xs ≡ true
    → is_text_only ys ≡ true
    → is_text_only (xs +++ ys) ≡ true
unfolding is_text_only
text_only-append nil ys h g = g
text_only-append (cons n ns) ys h g = ground (arith, text_only-append ns ys)
