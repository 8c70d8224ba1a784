-- ===== src/Document/Rendered.antt =====
-- The content of <body> of a rendered article is the fragment that was rendered.
use deckle.Base.{
  true, false, not, Option, none, some, [], ◌∷◌, ◌++◌, append_assoc, ◌≡◌, refl, sym, ap, ◌∙◌, arith,
  Text, codes, ◌=?◌, ◌==◌, all, contains, Bool-cases, inl, inr,
}
use mathlib.Core.List.{map-append}
use deckle.Document.Body.{
  lower_byte, extract_body_content, render_full_html, head_extra, page_start, page_style, page_head,
  page_end, byline_meta, date_meta,
}
use deckle.Document.Byline.{SourceInfo, PublishedTime}
use deckle.Document.Escape.{escape_string, escape_string-plain, is_plain}
use deckle.Document.RoundTrip.{lower, page, extract_body_content_lem}
use deckle.Document.Search.{skips, mismatch, skips-append, lacks-skips, contains-skips}

-- The date of the article prints without markup.
abbrev pub IsDatePlain : Option PublishedTime → Type 0
IsDatePlain none = Unit
IsDatePlain (some t) = all is_plain t.rfc_3339 ≡ true

lower-lacks : (t : Text) → all is_plain t ≡ true → all (λ c. not (c == b'<')) (lower t) ≡ true
unfolding lower_byte
lower-lacks [] h = refl
lower-lacks (c ∷ t) h = ground (arith, lower-lacks t)

-- No "<body" begins in the text, in either case.
abbrev NoBody : Text → Type 0
NoBody t = skips (codes "<body") (lower t) ≡ true

NoBody-append : (s t : Text) → NoBody s → NoBody t → NoBody (s ++ t)
NoBody-append s t h g =
    rw (map-append lower_byte s t) (skips-append (codes "<body") (lower s) (lower t) h g)

plain-NoBody : (t : Text) → all is_plain t ≡ true → NoBody t
plain-NoBody t h = lacks-skips b'<' (codes "body") (lower t) (lower-lacks t h)

escaped-NoBody : (t : Text) → NoBody (escape_string t)
escaped-NoBody t = plain-NoBody (escape_string t) (escape_string-plain t)

page_start-NoBody : NoBody page_start
unfolding skips mismatch lower_byte
page_start-NoBody = refl

page_style-NoBody : NoBody (codes "</title>\n") × NoBody page_style × NoBody (codes "\">\n")
unfolding skips mismatch lower_byte
page_style-NoBody = (refl, refl, refl)

meta-NoBody :
    NoBody (codes "\t<meta name=\"author\" content=\"")
    × NoBody (codes "\t<meta name=\"date\" content=\"")
unfolding skips mismatch lower_byte
meta-NoBody = (refl, refl)

nil-NoBody : NoBody []
unfolding skips
nil-NoBody = refl

byline_meta-NoBody : (b : Text) → NoBody (byline_meta b)
byline_meta-NoBody b = elim (Bool-cases (b =? [])) [
  | inl e ↦ rw e nil-NoBody
  | inr e ↦ rw e (
      NoBody-append (codes "\t<meta name=\"author\" content=\"") (escape_string b ++ codes "\">\n")
        meta-NoBody.0
        (NoBody-append (escape_string b) (codes "\">\n") (escaped-NoBody b) page_style-NoBody.2))
]

date_meta-NoBody : (d : Option PublishedTime) → IsDatePlain d → NoBody (date_meta d)
date_meta-NoBody none h = nil-NoBody
date_meta-NoBody (some t) h =
    NoBody-append (codes "\t<meta name=\"date\" content=\"") (t.rfc_3339 ++ codes "\">\n")
      meta-NoBody.1
      (NoBody-append t.rfc_3339 (codes "\">\n") (plain-NoBody t.rfc_3339 h) page_style-NoBody.2)

page_head-NoBody :
    (title : Text) (src : SourceInfo)
    → IsDatePlain src.published_time
    → NoBody (page_head title src)
unfolding head_extra
page_head-NoBody title src h = NoBody-append page_start _ page_start-NoBody (
    NoBody-append (escape_string title) _ (escaped-NoBody title) (
      NoBody-append (codes "</title>\n") _ page_style-NoBody.0 (
        NoBody-append (head_extra src) page_style
          (NoBody-append (byline_meta src.byline) (date_meta src.published_time)
            (byline_meta-NoBody src.byline) (date_meta-NoBody src.published_time h))
          page_style-NoBody.1)))

module _ (to_lower : Text → Text) (fragment title : Text) (src : SourceInfo) where
  abbrev content : Text
  content = codes "\n" ++ (fragment ++ codes "\n")

  content_skips :
      contains (lower fragment) (codes "</body>") ≡ false
      → skips (codes "</body>") (lower content) ≡ true
  unfolding lower_byte
  content_skips h = rw (map-append lower_byte fragment (codes "\n")) (
      skips-append (codes "</body>") (codes "\n") (lower fragment ++ codes "\n")
        (unfold skips mismatch in refl)
        (contains-skips (codes "</body>") (lower fragment) b'\n' h refl))

  abbrev rendered : Text
  rendered = page_head title src ++ (codes "<body>\n" ++ (fragment ++ page_end))

  is_a_page : page (page_head title src) [] content (codes "\n</html>\n") ≡ rendered
  is_a_page =
      ap (λ t. page_head title src ++ (codes "<body>\n" ++ t))
        (append_assoc fragment (codes "\n") (codes "</body>\n</html>\n"))

  render_full_html_lem :
      contains (to_lower fragment) (codes "<html") ≡ false
      → contains (to_lower fragment) (codes "<!doctype") ≡ false
      → contains (to_lower fragment) (codes "<body") ≡ false
      → render_full_html to_lower fragment title src ≡ rendered
  unfolding render_full_html
  render_full_html_lem h d b = rw (h, d, b) refl

  -- Rendering a fragment and taking the content of the body gives the fragment back between two
  -- newlines, if the fragment is no document itself and has no end tag of a body, the date prints
  -- without markup, and `strings.ToLower` lowers the result byte by byte.
  pub extract_body_content-render_full_html :
      contains (to_lower fragment) (codes "<html") ≡ false
      → contains (to_lower fragment) (codes "<!doctype") ≡ false
      → contains (to_lower fragment) (codes "<body") ≡ false
      → contains (lower fragment) (codes "</body>") ≡ false
      → IsDatePlain src.published_time
      → to_lower (render_full_html to_lower fragment title src)
        ≡ lower (render_full_html to_lower fragment title src)
      → extract_body_content to_lower (render_full_html to_lower fragment title src)
        ≡ some (codes "\n" ++ (fragment ++ codes "\n"))
  extract_body_content-render_full_html h d b e date bytewise =
      let is_page : render_full_html to_lower fragment title src
          ≡ page (page_head title src) [] content (codes "\n</html>\n") =
        render_full_html_lem h d b ∙ sym is_a_page in
      ap (extract_body_content to_lower) is_page
      ∙ extract_body_content_lem (page_head title src) [] content (codes "\n</html>\n") to_lower
          (ap to_lower (sym is_page) ∙ bytewise ∙ ap lower is_page)
          (page_head-NoBody title src date) refl (content_skips e)
