-- ===== src/Sanitize/Tests.antt =====
-- Runs of the sanitizer on small trees.
use Prim.Native.String.{String}
use deckle.Base.Int.{pos}
use deckle.Base.{
  ℕ, ◌≤◌, true, false, Option, none, some, List, [], ◌∷◌, ◌≡◌, refl, Text, codes, has, ◌=?◌,
  trim_space, is_space, Yields, has_prefix, ◌==◌, ◌++◌, if◌then◌else◌, one_of, arith,
}
use deckle.Sanitize.Attrs.{
  Floats, sanitize_id, unique_id, filter_attributes, filter_attribute, filter_id, find_free,
  is_broken_fragment,
}
use deckle.Sanitize.Clean.{
  Cleaned, clean, clean_kept, clean_children, transform_element, is_kept_element, fix_nesting,
  unnest, fix_figcaption,
}
use deckle.Sanitize.Tags.{
  is_allowed_tag, is_allowed_key, is_phrasing_element, is_block_element, is_structural_block,
}
use deckle.Base.Decimal.{decimal}
use deckle.Sanitize.Allowed.{is_allowed, elements_allowed}
use deckle.Sanitize.Cost.{costs}
use deckle.Sanitize.Dl.{any_child, fix_dl_content}
use deckle.Sanitize.DlContent.{IsDlContent, fix_dl_content-IsDlContent}
use deckle.Sanitize.Dom.{
  Attribute, Node, node, document_node, Forest, nil, cons, element, text, from_option,
}
use deckle.Sanitize.Every.{every_in}
use deckle.Sanitize.Fits.{fits}
use deckle.Sanitize.Frame.{html_page, is_head_content, is_metadata}
use deckle.Sanitize.Grammar.{is_char_data}
use deckle.Sanitize.Ids.{id_counts}
use deckle.Sanitize.Images.{is_valid_image, images_embedded}
use deckle.Sanitize.Nesting.{is_block, is_flat, fix_nesting-blocks, fix_nesting_nested}
use deckle.Sanitize.Output.{sanitize_for_xhtml-ends}
use deckle.Sanitize.Result.{IsXhtml, sanitize_for_xhtml-IsXhtml}
use deckle.Sanitize.Sound.{is_parsed, are_distinct, has_key}
use deckle.Sanitize.Unique.{ids_unique}
use deckle.Sanitize.Xhtml.{clean_document, sanitize_for_xhtml}

abbrev floats : Floats
floats = record {
  Float = ℕ;
  parse_float = λ t. some 7;
  is_negative = λ f. false;
  round_to_int = pos;
}

abbrev attr : String → String → Attribute
attr k v = record { key = codes k; val = codes v }

abbrev el : String → List Attribute → Forest → Node
el tag = element (codes tag)

abbrev one : Node → Forest
one n = cons n nil

abbrev cleaned_to : Node → List Text → Forest → Node → Option Cleaned
cleaned_to n used lifted m = some (record { used = used; lifted = lifted; result = some m })

-- A list in a span in a paragraph moves in front of the paragraph, and a second ID is renamed.
lift_list :
    clean floats [] 9 (some (codes "body")) [] (
      el "div" [] (
        one (
          el "p" (attr "id" "a b" ∷ []) (
            one (
              el "span"
                (attr "id" "a b" ∷ [])
                (cons (text (codes "x")) (one (el "ul" (attr "onclick" "f" ∷ []) nil))))))))
    ≡ some (record {
      used = codes "a-b-2" ∷ codes "a-b" ∷ [];
      lifted = nil;
      result = some (
          el "div" [] (
            cons (el "ul" [] nil) (
              one (
                el "p"
                  (attr "id" "a-b" ∷ [])
                  (one (el "span" (attr "id" "a-b-2" ∷ []) (one (text (codes "x")))))))));
    })
unfolding clean clean_kept clean_children transform_element is_kept_element fix_nesting unnest
    fix_figcaption filter_attributes filter_attribute filter_id sanitize_id unique_id find_free has
    trim_space is_broken_fragment ◌=?◌ is_allowed_tag is_allowed_key is_phrasing_element
    is_block_element is_structural_block decimal is_space
lift_list = refl

-- The inner of two nested blocks stays in the span.
nested_blocks :
    clean floats [] 9
      (some (codes "body"))
      []
      (el "span" [] (one (el "div" [] (one (el "div" [] nil)))))
    ≡ some
        (record { used = []; lifted = nil; result = some (el "span" [] (one (el "div" [] nil))) })
unfolding clean clean_kept clean_children transform_element is_kept_element fix_nesting unnest
    fix_figcaption filter_attributes filter_attribute filter_id sanitize_id unique_id find_free has
    trim_space is_broken_fragment ◌=?◌ is_allowed_tag is_allowed_key is_phrasing_element
    is_block_element is_structural_block decimal is_space
nested_blocks = refl

-- A page with a repeated ID, an external image, an embedded one, a script, and a loose term in a
-- definition list.
abbrev page : Node
page = node document_node [] [] (
    one (
      el "body" (attr "id" "a b" ∷ attr "onload" "f" ∷ []) (
        cons
          (el "p" (attr "id" "a b" ∷ []) (one (el "img" (attr "src" "https://x/y.png" ∷ []) nil)))
          (cons (el "script" [] nil) (
            cons (el "img" (attr "src" "data:image/png;base64,AA" ∷ []) nil)
              (one (el "dl" [] (one (text (codes "term"))))))))))

ids_unique_example :
    Yields (λ r. id_counts (codes "a-b") (from_option r.result) ≤ 1) (clean_document floats page)
ids_unique_example = ids_unique floats page (codes "a-b")

elements_allowed_example :
    Yields (λ r. every_in is_allowed (from_option r.result) ≡ true) (clean_document floats page)
elements_allowed_example = elements_allowed floats page

images_embedded_example :
    Yields (λ r. every_in is_valid_image (from_option r.result) ≡ true) (clean_document floats page)
images_embedded_example = images_embedded floats page

fix_dl_content-IsDlContent_example : IsDlContent (fix_dl_content (one (text (codes "term"))))
fix_dl_content-IsDlContent_example = fix_dl_content-IsDlContent (one (text (codes "term")))

sanitize_for_xhtml-ends_example :
    Yields (λ t. Unit {0}) (sanitize_for_xhtml floats (λ t. some page) (λ t. t) (codes "<p>"))
sanitize_for_xhtml-ends_example =
    sanitize_for_xhtml-ends floats (λ t. some page) (λ t. t) (codes "<p>")

-- A cleaning that leaves every node as it is.
abbrev unchanged : List Text → Node → Option Cleaned
unchanged u n = some (record { used = u; lifted = nil; result = some n })

span_is_phrasing : is_phrasing_element (codes "span") ≡ true
unfolding is_phrasing_element ◌=?◌
span_is_phrasing = refl

div_is_block : (is_block_element (codes "div") ≡ true) × (is_structural_block (codes "div") ≡ false)
unfolding is_block_element is_structural_block ◌=?◌
div_is_block = (refl, refl)

abbrev list_and_text : Forest
list_and_text = cons (el "ul" [] nil) (one (el "div" [] (one (text (codes "x")))))

list_and_text-flat : is_flat true list_and_text ≡ true
unfolding is_flat is_block_element is_structural_block any_child ◌=?◌
list_and_text-flat = refl

list_and_text-costs : costs list_and_text ≤ 4
unfolding costs ◌=?◌
list_and_text-costs = omega arith

fix_nesting-blocks_example :
    Yields
      (λ r. any_child is_block r.kept ≡ false)
      (fix_nesting (clean floats [] 4 none) true (codes "span") [] list_and_text)
fix_nesting-blocks_example =
    fix_nesting-blocks floats [] 4 true (codes "span") [] list_and_text span_is_phrasing
      list_and_text-flat list_and_text-costs

fix_nesting_nested_example :
    Yields
      (λ r. any_child is_block r.kept ≡ true)
      (fix_nesting unchanged true (codes "span") [] (one (el "div" [] (one (el "div" [] nil)))))
fix_nesting_nested_example =
    fix_nesting_nested unchanged true [] (codes "span") (codes "div") (codes "div") [] [] nil
      span_is_phrasing div_is_block.0 div_is_block.1 div_is_block.0

-- `html.EscapeString` for the characters that have a reference
abbrev reference : ℕ → Text
reference c =
    if c == b'&'
    then codes "&amp;"
    else if c == b'<'
    then codes "&lt;"
    else if c == b'>'
    then codes "&gt;"
    else if c == b'"'
    then codes "&#34;"
    else if c == 39
    then codes "&#39;"
    else if c == 13
    then codes "&#13;"
    else c ∷ []

abbrev escape_string : Text → Text
escape_string [] = []
escape_string (c ∷ t) = reference c ++ escape_string t

escape_string-is_char_data : (t : Text) → is_char_data (escape_string t) ≡ true
unfolding is_char_data has_prefix
escape_string-is_char_data [] = refl
escape_string-is_char_data (c ∷ t) = ground (arith, escape_string-is_char_data t)

-- A title in the head, and in the body an image, a loose term and a comment
abbrev body_content : Forest
body_content =
    cons (el "p" (attr "id" "a" ∷ attr "onclick" "f" ∷ []) (one (text (codes "x < y")))) (
      cons (el "img" (attr "src" "https://x/y.png" ∷ []) nil)
        (cons (el "hr" [] nil) (one (el "dl" [] (one (text (codes "term")))))))

abbrev head_content : Forest
head_content = cons (text (codes " ")) (one (el "title" [] (one (text (codes "t")))))

head_content_fits : is_head_content head_content ≡ true
unfolding is_head_content is_metadata one_of ◌=?◌
head_content_fits = refl

page_fits : fits is_parsed (html_page head_content body_content) ≡ true
unfolding fits is_parsed are_distinct has_key ◌=?◌
page_fits = refl

sanitize_for_xhtml-IsXhtml_example :
    Yields (IsXhtml floats escape_string (html_page head_content body_content)) (
      sanitize_for_xhtml floats
        (λ t. some (html_page head_content body_content))
        escape_string
        (codes "<title>t</title><p id=a onclick=f>x < y</p>"))
sanitize_for_xhtml-IsXhtml_example =
    sanitize_for_xhtml-IsXhtml floats escape_string escape_string-is_char_data
      (λ t. some (html_page head_content body_content))
      (codes "<title>t</title><p id=a onclick=f>x < y</p>") head_content body_content refl
      head_content_fits page_fits
