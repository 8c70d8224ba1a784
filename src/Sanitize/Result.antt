-- ===== src/Sanitize/Result.antt =====
-- What `sanitizeForXHTML` gives for the content of a page, from the parser's tree to the text.
use deckle.Base.{
  ◌≤◌, Bool, true, Option, some, List, ◌≡◌, refl, arith, Text, Yields, Yields-eq-some,
}
use deckle.Sanitize.Allowed.{is_allowed, elements_allowed}
use deckle.Sanitize.Attrs.{Floats}
use deckle.Sanitize.Clean.{Cleaned}
use deckle.Sanitize.Cut.{body_of-html_page}
use deckle.Sanitize.Dom.{Attribute, NodeType, Node, Forest, nil, cons, from_option}
use deckle.Sanitize.Every.{every_in}
use deckle.Sanitize.Fits.{fits, fits_in}
use deckle.Sanitize.Frame.{html_page, is_head_content}
use deckle.Sanitize.Frame.Kept.{clean_document-IsPage}
use deckle.Sanitize.Grammar.{is_char_data, Content}
use deckle.Sanitize.Ids.{id_count, id_counts}
use deckle.Sanitize.Images.{is_valid_image, images_embedded}
use deckle.Sanitize.Printed.{render_children-Content}
use deckle.Sanitize.Sound.{is_parsed, is_sound, clean_document_sound}
use deckle.Sanitize.Unique.{ids_unique}
use deckle.Sanitize.Xhtml.{
  strip_invalid_xml_chars, render_children, clean_document, sanitize_for_xhtml,
}

-- The text is the print of what `clean` leaves in the body of the document, without the frame: trees
-- with whitelisted elements and attributes, embedded images and different IDs. Its markup is
-- well-formed. Which characters XML allows is not asked here.
pub record IsXhtml (fl : Floats) (escape : Text → Text) (doc : Node) (t : Text) : Type 0 where
  pub ws : Forest
  pub kept : Forest
  pub cleaned : Cleaned
  pub cleans : clean_document fl doc ≡ some cleaned
  pub page : cleaned.result ≡ some (html_page ws kept)
  pub prints : t ≡ render_children escape kept
  pub allowed : every_in is_allowed kept ≡ true
  pub images : every_in is_valid_image kept ≡ true
  pub ids : (x : Text) → id_counts x kept ≤ 1
  pub content : Content t

fits_in-html_page :
    (p : NodeType → Text → List Attribute → Bool) (ws kept : Forest)
    → fits_in p (cons (html_page ws kept) nil) ≡ true
    → fits_in p kept ≡ true
unfolding fits
fits_in-html_page p ws kept h = ground arith

every_in-html_page :
    (p : Text → List Attribute → Bool) (ws kept : Forest)
    → every_in p (cons (html_page ws kept) nil) ≡ true
    → every_in p kept ≡ true
unfolding every_in
every_in-html_page p ws kept h = fits_in-html_page _ ws kept h

id_counts-html_page :
    (x : Text) (ws kept : Forest) → id_counts x kept ≤ id_counts x (cons (html_page ws kept) nil)
unfolding id_count
id_counts-html_page x ws kept = omega arith

module _ (fl : Floats) (escape : Text → Text)
    (safe : (t : Text) → is_char_data (escape t) ≡ true) where
  -- The print of a cleaned page, cut
  html_page-IsXhtml :
      (doc : Node) (cleaned : Cleaned) (ws kept : Forest)
      → clean_document fl doc ≡ some cleaned
      → cleaned.result ≡ some (html_page ws kept)
      → every_in is_allowed (cons (html_page ws kept) nil) ≡ true
      → every_in is_valid_image (cons (html_page ws kept) nil) ≡ true
      → ((x : Text) → id_counts x (cons (html_page ws kept) nil) ≤ 1)
      → fits_in is_sound (cons (html_page ws kept) nil) ≡ true
      → IsXhtml fl escape doc (render_children escape kept)
  html_page-IsXhtml doc cleaned ws kept cleans page allowed images ids sound = record {
    ws = ws;
    kept = kept;
    cleaned = cleaned;
    cleans = cleans;
    page = page;
    prints = refl;
    allowed = every_in-html_page is_allowed ws kept allowed;
    images = every_in-html_page is_valid_image ws kept images;
    ids = λ x. omega (arith, id_counts-html_page x ws kept, ids x);
    content = render_children-Content escape safe kept (fits_in-html_page is_sound ws kept sound);
  }

  -- If the parser makes a page of the text, with no raw node and no attribute twice on an element,
  -- and the escaping leaves no markup, then `sanitizeForXHTML` gives a text, and its markup is
  -- well-formed: it is the print of the children of the body of the cleaned page, without the elements
  -- html, head and body around them, and these children have whitelisted elements and attributes,
  -- embedded images and different IDs.
  pub sanitize_for_xhtml-IsXhtml :
      (parse : Text → Option Node) (html : Text) (hs bs : Forest)
      → parse (strip_invalid_xml_chars html) ≡ some (html_page hs bs)
      → is_head_content hs ≡ true
      → fits is_parsed (html_page hs bs) ≡ true
      → Yields (IsXhtml fl escape (html_page hs bs)) (sanitize_for_xhtml fl parse escape html)
  unfolding sanitize_for_xhtml
  sanitize_for_xhtml-IsXhtml parse html hs bs parsed head_content fit =
      let doc = html_page hs bs in
      let (r, cleaned, sound) =
        Yields-eq-some (λ r. fits_in is_sound (from_option r.result) ≡ true) (clean_document fl doc)
          (clean_document_sound fl doc fit) in
      let framed = rw cleaned at (clean_document-IsPage fl hs bs head_content) in
      let (ws, kept, result, texts) = framed in
      let printed =
        html_page-IsXhtml doc r ws kept cleaned result
          (rw (cleaned, result) at (elements_allowed fl doc))
          (rw (cleaned, result) at (images_embedded fl doc))
          (λ x. rw (cleaned, result) at (ids_unique fl doc x)) (rw result at sound) in
      rw (parsed, Yields, cleaned, result, body_of-html_page escape safe ws kept texts) printed
