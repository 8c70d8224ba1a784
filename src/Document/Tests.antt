-- ===== src/Document/Tests.antt =====
-- A small article, rendered and cut up again.
use deckle.Base.{
  true, false, none, some, [], ◌++◌, ◌≡◌, refl, Text, codes, contains, has_prefix, index, ◌=?◌,
}
use deckle.Base.Decimal.{decimal, read_digits}
use deckle.Document.Body.{
  extract_body_content, body_from, after_tag, cut_body, cut_at, slice, slice_from, lower_byte,
  render_full_html,
}
use deckle.Document.Byline.{SourceInfo}
use deckle.Document.Headings.{shift_heading, shift_headings}
use deckle.Document.Headings.Shift.{Shifts, shift_headings-Shifts}
use deckle.Document.Rendered.{extract_body_content-render_full_html}
use deckle.Document.RoundTrip.{lower, page, extract_body_content_lem}
use deckle.Regex.{find, find_from, run, run_many, get_group}
use deckle.Regex.Pieces.{replace_all, replaced, find_all, find_all_from}
use deckle.Document.Total.{extract_body_content_total}
use deckle.Document.Toc.{article_file}
use deckle.Document.Search.{skips, mismatch}

abbrev source : SourceInfo
source = record {
  url = codes "https://example.org/";
  byline = codes "A <B>";
  site_name = [];
  published_time = none;
}

abbrev fragment : Text
fragment = codes "<H1>Title</H1>"

cut_page :
    extract_body_content lower (codes "<HTML><Body class=x>abc</BODY></HTML>") ≡ some (codes "abc")
unfolding extract_body_content body_from after_tag cut_body cut_at slice slice_from lower_byte index
    has_prefix
cut_page = refl

before_skips : skips (codes "<body") (lower (codes "<html>")) ≡ true
unfolding skips mismatch lower_byte
before_skips = refl

content_skips : skips (codes "</body>") (lower (codes "<p>x</p>")) ≡ true
unfolding skips mismatch lower_byte
content_skips = refl

extract_body_content_lem_example :
    extract_body_content lower
      (page (codes "<html>") (codes " id=b") (codes "<p>x</p>") (codes "</html>"))
    ≡ some (codes "<p>x</p>")
extract_body_content_lem_example =
    extract_body_content_lem (codes "<html>") (codes " id=b") (codes "<p>x</p>") (codes "</html>")
      lower refl before_skips refl content_skips

no_markup :
    (contains (lower fragment) (codes "<html") ≡ false)
    × (contains (lower fragment) (codes "<!doctype") ≡ false)
    × (contains (lower fragment) (codes "<body") ≡ false)
    × (contains (lower fragment) (codes "</body>") ≡ false)
unfolding contains has_prefix lower_byte
no_markup = (refl, refl, refl, refl)

extract_body_content-render_full_html_example :
    extract_body_content lower (render_full_html lower fragment (codes "Title") source)
    ≡ some (codes "\n" ++ (fragment ++ codes "\n"))
extract_body_content-render_full_html_example =
    extract_body_content-render_full_html lower fragment (codes "Title") source no_markup.0
      no_markup.1 no_markup.2 no_markup.3 tt refl

first_file : article_file 7 ≡ codes "article007.xhtml"
unfolding decimal
first_file = refl

abbrev headings : Text
headings = codes "a<H2 id=x>b</h6>c<h7>"

shifted_headings : shift_headings headings ≡ codes "a<h3 id=x>b</h6>c<h7>"
unfolding shift_headings shift_heading replace_all replaced find_all find_all_from find_from find
    run run_many get_group decimal read_digits ◌=?◌
shifted_headings = refl

shift_headings-Shifts_example : Shifts headings (shift_headings headings)
shift_headings-Shifts_example = shift_headings-Shifts headings

extract_body_content_total_example :
    (body : Text) × (extract_body_content lower (codes "<body x</body>") ≡ some body)
unfolding lower_byte
extract_body_content_total_example = extract_body_content_total lower (codes "<body x</body>") refl
