-- ===== src/Document/Toc.antt =====
-- `buildTOCBody` of epub.go: the table of contents.
use mathlib.Core.List.{append_cancel_left, append_cancel_right}
use deckle.Base.{
  ◌≡◌, ◌≢◌, sym, ap, ◌∙◌, arith, ℕ, ◌+◌, ltb, List, [], ◌∷◌, ◌++◌, Text, codes, ◌=?◌, if◌then◌else◌,
}
use deckle.Base.Decimal.{decimal, read_digits, read_digits-decimal}
use deckle.Document.Byline.{EpubArticle, meta_line}
use deckle.Document.Escape.{escape_string}

-- "%03d"
abbrev pub three_digits : ℕ → Text
three_digits n =
    let zeros = if ltb n 10 then codes "00" else if ltb n 100 then codes "0" else [] in
    zeros ++ decimal n

-- The file of the article with this number, counted from 1
abbrev pub article_file : ℕ → Text
article_file n = codes "article" ++ (three_digits n ++ codes ".xhtml")

unfoldable pub toc_title : ℕ → Text → Text
toc_title n title = if title =? [] then codes "Article " ++ decimal n else title

unfoldable pub toc_meta : Text → Text
toc_meta meta =
    if meta =? [] then [] else codes "<p class=\"toc-meta\">" ++ (meta ++ codes "</p>\n")

unfoldable pub toc_entry : ℕ → EpubArticle → Text
toc_entry n a =
    codes "<li>\n<a href=\""
    ++ (article_file n
        ++ (codes "\">"
            ++ (escape_string (toc_title n a.title)
                ++ (codes "</a>\n" ++ (toc_meta (meta_line a.source) ++ codes "</li>\n")))))

unfoldable pub toc_entries : ℕ → List EpubArticle → Text
toc_entries n [] = []
toc_entries n (a ∷ articles) = toc_entry n a ++ toc_entries (n + 1) articles

-- `buildTOCBody`
unfoldable pub build_toc_body : List EpubArticle → Text
build_toc_body articles =
    codes "<h1>Contents</h1>\n<ol class=\"toc\">\n" ++ (toc_entries 1 articles ++ codes "</ol>\n")

read_digits-three_digits : (n : ℕ) → read_digits 0 (three_digits n) ≡ n
unfolding read_digits
read_digits-three_digits n = ground (arith, read_digits-decimal n)

article_file-injective : (m n : ℕ) → article_file m ≡ article_file n → m ≡ n
article_file-injective m n h =
    let padded = append_cancel_right (three_digits m) (three_digits n) (codes ".xhtml") (
      append_cancel_left (codes "article") (three_digits m ++ codes ".xhtml")
        (three_digits n ++ codes ".xhtml") h) in
    sym (read_digits-three_digits m) ∙ ap (read_digits 0) padded ∙ read_digits-three_digits n

-- Two articles with different numbers have different files.
pub article_file-ne : (m n : ℕ) → m ≢ n → article_file m ≢ article_file n
article_file-ne m n different h = different (article_file-injective m n h)
