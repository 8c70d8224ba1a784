-- ===== src/Document/Headings.antt =====
-- The title and the headings of an article: `extractTitle`, `cleanTitle`, `shiftHeadings` and
-- `normalizeHeadings` of headings.go, and `extractH1Title` of epub.go. `html.UnescapeString` is a
-- parameter.
pub mod Tag
pub mod Shift
use deckle.Base.{
  ℕ, ◌+◌, ltb, leb, Bool, true, false, not, ◌&&◌, Option, none, some, [], ◌∷◌, ◌++◌, Text, codes,
  ◌=?◌, if◌then◌else◌,
}
use deckle.Base.Decimal.{decimal, read_digits}
use deckle.Base.Utf8.{trim_bytes}
use deckle.Document.Body.{render_full_html}
use deckle.Document.Byline.{SourceInfo, format_byline}
use deckle.Document.Escape.{escape_string}
use deckle.Regex.{
  Regex, one, many, few, maybe, alt, group, chain, literal, any_case, except, is_blank_byte,
  some_of, Match, find, get_group,
}
use deckle.Regex.Pieces.{Piece, replace_all}

-- `(?i)<title>([^<]+)</title>`
abbrev pub title_tag_re : Regex
title_tag_re = chain (
    any_case (codes "<title>") ∷ group 1 (some_of (except b'<')) ∷ any_case (codes "</title>") ∷ [])

-- `(?is)<h1[^>]*>(.*?)</h1>`, which epub.go declares too
abbrev pub first_h_1_re : Regex
first_h_1_re = chain (
    any_case (codes "<h1")
    ∷ many (except b'>')
    ∷ literal (codes ">")
    ∷ group 1 (few (λ c. true))
    ∷ any_case (codes "</h1>")
    ∷ [])

-- `<[^>]+>`
abbrev pub html_tag_re : Regex
html_tag_re = chain (literal (codes "<") ∷ some_of (except b'>') ∷ literal (codes ">") ∷ [])

-- `<[^>]*>`, in epub.go
abbrev pub strip_tags_re : Regex
strip_tags_re = chain (literal (codes "<") ∷ many (except b'>') ∷ literal (codes ">") ∷ [])

-- `(?i)<(/?)h([1-6])([^>]*)>`
abbrev pub heading_re : Regex
heading_re = chain (
    literal (codes "<")
    ∷ group 1 (maybe (literal (codes "/")))
    ∷ any_case (codes "h")
    ∷ group 2 (one (λ c. leb b'1' c && leb c b'6'))
    ∷ group 3 (many (except b'>'))
    ∷ literal (codes ">")
    ∷ [])

-- `\s*[-|\x{2013}\x{2014}]\s+`, with the two dashes in UTF-8
abbrev pub title_split_re : Regex
title_split_re = chain (
    many is_blank_byte
    ∷ alt (literal (codes "-")) (
        alt (literal (codes "|"))
          (alt (literal (0xe2 ∷ 0x80 ∷ 0x93 ∷ [])) (literal (0xe2 ∷ 0x80 ∷ 0x94 ∷ []))))
    ∷ some_of is_blank_byte
    ∷ [])

-- `(?i)(<body[^>]*>)`
abbrev pub body_tag_re : Regex
body_tag_re = chain (
    group 1 (chain (any_case (codes "<body") ∷ many (except b'>') ∷ literal (codes ">") ∷ [])) ∷ [])

-- The first part of `Split`: what is before the first match
abbrev first_part : Text → Option Match → Text
first_part t none = t
first_part t (some m) = m.before

abbrev pub or_untitled : Text → Text
or_untitled t = if t =? [] then codes "Untitled" else t

-- `cleanTitle`
unfoldable pub clean_title : Text → Text
clean_title title = or_untitled (trim_bytes (first_part title (find title_split_re title)))

-- The text of a match of `firstH1Re`, without what an expression finds in it
abbrev pub h_1_text : Regex → Match → Text
h_1_text tag_re m = trim_bytes (replace_all tag_re (λ p. []) (get_group 1 m.groups))

unfoldable pub title_from_h_1 : Option Match → Text
title_from_h_1 none = codes "Untitled"
title_from_h_1 (some m) = h_1_text html_tag_re m

-- `extractH1Title`
unfoldable pub extract_h_1_title : Text → Text
extract_h_1_title html = elim (find first_h_1_re html) [
  | none ↦ []
  | some m ↦ h_1_text strip_tags_re m
]

-- The new level of a heading, from the digit
abbrev pub shifted_level : Text → ℕ
shifted_level digit = let level = read_digits 0 digit + 1 in if ltb 6 level then 6 else level

abbrev pub shifted_tag : Text → Text → Text → Text
shifted_tag slash digit attrs =
    if slash =? codes "/"
    then codes "</h" ++ (decimal (shifted_level digit) ++ codes ">")
    else codes "<h" ++ (decimal (shifted_level digit) ++ (attrs ++ codes ">"))

abbrev pub shifted_match : Text → Option Match → Text
shifted_match whole none = whole
shifted_match whole (some m) =
    shifted_tag (get_group 1 m.groups) (get_group 2 m.groups) (get_group 3 m.groups)

-- What `shiftHeadings` puts in the place of a match, which it matches once more.
unfoldable pub shift_heading : Piece → Text
shift_heading p = shifted_match p.whole (find heading_re p.whole)

-- `shiftHeadings`
unfoldable pub shift_headings : Text → Text
shift_headings text = replace_all heading_re shift_heading text

-- The H1 title and the byline
unfoldable pub header_block : Text → SourceInfo → Text
header_block title src =
    let byline = format_byline src in
    codes "<h1>"
    ++ (escape_string title
        ++ (codes "</h1>\n" ++ (if byline =? [] then [] else byline ++ codes "\n")))

-- The header behind the tag of the body, or in front of the text
unfoldable pub insert_header : Text → Text → Option Match → Text
insert_header header text none = header ++ text
insert_header header text (some m) = m.before ++ (m.whole ++ (codes "\n" ++ (header ++ m.after)))

module _ (unescape : Text → Text) where
  unfoldable pub title_from_tag : Option Match → Option Text
  title_from_tag none = none
  title_from_tag (some m) =
      let title = clean_title (unescape (trim_bytes (get_group 1 m.groups))) in
      if not (title =? []) && not (title =? codes "Untitled") then some title else none

  -- `extractTitle`
  unfoldable pub extract_title : Text → Text
  extract_title text = elim (title_from_tag (find title_tag_re text)) [
    | none ↦ title_from_h_1 (find first_h_1_re text)
    | some title ↦ title
  ]

  unfoldable pub title_for : Text → Text → Text
  title_for text title_override =
      if title_override =? [] then extract_title text else clean_title title_override

  -- `normalizeHeadings`
  unfoldable pub normalize_headings : (Text → Text) → Text → Text → SourceInfo → Text
  normalize_headings to_lower text title_override src =
      let title = title_for text title_override in
      let shifted = shift_headings text in
      let inserted = insert_header (header_block title src) shifted (find body_tag_re shifted) in
      render_full_html to_lower inserted title src
