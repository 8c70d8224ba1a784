-- ===== src/Imaging/Patterns.antt =====
-- The regular expressions of imgoptimize.go, and `promoteLazySrc`.
use deckle.Base.{ℕ, Bool, true, not, ◌&&◌, [], ◌∷◌, ◌++◌, leb, ◌==◌, Text, codes}
use deckle.Regex.{
  Regex, many, few, boundary, maybe, group, chain, literal, except, is_blank_byte, some_of,
  get_group,
}
use deckle.Regex.Pieces.{replace_all}

-- `\s*=\s*"`
abbrev pub equals_quote : Regex
equals_quote =
    chain
      (many is_blank_byte ∷ literal (codes "=") ∷ many is_blank_byte ∷ literal (codes "\"") ∷ [])

-- `<img\b[^>]*?\bsrc\s*=\s*"`
abbrev pub img_src : Regex
img_src = chain (
    literal (codes "<img")
    ∷ boundary
    ∷ few (except b'>')
    ∷ boundary
    ∷ literal (codes "src")
    ∷ equals_quote
    ∷ [])

-- `dataURIRe`
abbrev pub data_uri_re : Regex
data_uri_re = chain (
    group 1 img_src
    ∷ literal (codes "data:")
    ∷ group 2 (some_of (except b';'))
    ∷ literal (codes ";base64,")
    ∷ group 3 (many (except b'"'))
    ∷ group 4 (literal (codes "\""))
    ∷ [])

-- `https?://`
abbrev http_scheme : Regex
http_scheme =
    chain (literal (codes "http") ∷ maybe (literal (codes "s")) ∷ literal (codes "://") ∷ [])

-- `extImgRe`
abbrev pub ext_img_re : Regex
ext_img_re = chain (
    group 1 img_src
    ∷ group 2 (chain (http_scheme ∷ some_of (except b'"') ∷ []))
    ∷ group 3 (literal (codes "\""))
    ∷ [])

-- `pictureRe`
abbrev pub picture_re : Regex
picture_re = chain (
    literal (codes "<picture")
    ∷ boundary
    ∷ many (except b'>')
    ∷ literal (codes ">")
    ∷ few (λ c. true)
    ∷ literal (codes "</picture>")
    ∷ [])

-- `[^\s",]`
abbrev is_url_byte : ℕ → Bool
is_url_byte c = not (is_blank_byte c) && (not (c == b'"') && not (c == b','))

-- `dataURIExtractRe`
abbrev pub data_uri_extract_re : Regex
data_uri_extract_re = chain (
    literal (codes "data:")
    ∷ group 1 (some_of (except b';'))
    ∷ literal (codes ";base64,")
    ∷ group 2 (some_of is_url_byte)
    ∷ [])

-- `extSrcsetURLRe`
abbrev pub ext_srcset_url_re : Regex
ext_srcset_url_re = chain (
    group 1 (chain (http_scheme ∷ some_of is_url_byte ∷ []))
    ∷ maybe (
        chain (
          some_of is_blank_byte
          ∷ some_of (λ c. leb b'0' c && leb c b'9')
          ∷ literal (codes "w")
          ∷ []))
    ∷ [])

-- `altRe`
abbrev pub alt_re : Regex
alt_re = chain (
    boundary
    ∷ literal (codes "alt")
    ∷ equals_quote
    ∷ group 1 (many (except b'"'))
    ∷ literal (codes "\"")
    ∷ [])

-- `lazySrcRe` and `lazySrcsetRe`, with the attribute
abbrev pub lazy_re : Text → Regex
lazy_re attribute = chain (
    group 1 (chain (literal (codes "<img") ∷ boundary ∷ few (except b'>') ∷ []))
    ∷ boundary
    ∷ literal attribute
    ∷ [])

-- `lazyImgRe`
abbrev pub lazy_img_re : Regex
lazy_img_re = chain (
    literal (codes "<img")
    ∷ boundary
    ∷ many (except b'>')
    ∷ boundary
    ∷ literal (codes "data-src")
    ∷ many is_blank_byte
    ∷ literal (codes "=")
    ∷ many (except b'>')
    ∷ literal (codes ">")
    ∷ [])

-- `svgSrcAttrRe`
abbrev pub svg_src_attr_re : Regex
svg_src_attr_re = chain (
    boundary
    ∷ literal (codes "src")
    ∷ equals_quote
    ∷ literal (codes "data:image/svg+xml;base64,")
    ∷ many (except b'"')
    ∷ literal (codes "\"")
    ∷ [])

-- `promoteLazySrc`
unfoldable pub promote_lazy_src : Text → Text
promote_lazy_src html =
    let no_placeholders =
      replace_all lazy_img_re (λ p. replace_all svg_src_attr_re (λ q. []) p.whole) html in
    let sources =
      replace_all (lazy_re (codes "data-src=")) (λ p. get_group 1 p.groups ++ codes "src=")
        no_placeholders in
    replace_all (lazy_re (codes "data-srcset=")) (λ p. get_group 1 p.groups ++ codes "srcset=")
      sources
