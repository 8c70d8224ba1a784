-- ===== src/Sanitize/Tags.antt =====
-- The tables of element and attribute names in sanitize.go.
use Prim.Native.String.{String}
use deckle.Base.{Bool, List, [], ◌∷◌, Text, one_of}

-- `isPhrasingElement`
unfoldable pub is_phrasing_element : Text → Bool
unfolding one_of
is_phrasing_element tag = one_of tag (
    "h1" ∷ "h2" ∷ "h3" ∷ "h4" ∷ "h5" ∷ "h6" ∷ "p" ∷ "span" ∷ "b" ∷ "strong" ∷ "i" ∷ "em" ∷ "a"
    ∷ "code" ∷ "samp" ∷ "kbd" ∷ "var" ∷ "sub" ∷ "sup" ∷ "small" ∷ "s" ∷ "u" ∷ "mark" ∷ "abbr"
    ∷ "dfn" ∷ "cite" ∷ "del" ∷ "ins" ∷ "bdi" ∷ "bdo" ∷ "time" ∷ "data" ∷ [])

-- `isStructuralBlock`
unfoldable pub is_structural_block : Text → Bool
unfolding one_of
is_structural_block tag =
    one_of tag ("table" ∷ "pre" ∷ "ul" ∷ "ol" ∷ "dl" ∷ "blockquote" ∷ "figure" ∷ [])

-- `isBlockElement`
unfoldable pub is_block_element : Text → Bool
unfolding one_of
is_block_element tag = one_of tag (
    "p" ∷ "div" ∷ "h1" ∷ "h2" ∷ "h3" ∷ "h4" ∷ "h5" ∷ "h6" ∷ "ul" ∷ "ol" ∷ "li" ∷ "dl" ∷ "dt" ∷ "dd"
    ∷ "blockquote" ∷ "section" ∷ "article" ∷ "aside" ∷ "header" ∷ "footer" ∷ "main" ∷ "figure"
    ∷ "figcaption" ∷ "nav" ∷ "table" ∷ "pre" ∷ "hr" ∷ "address" ∷ [])

-- `elemAllowsDimensions`
unfoldable pub elem_allows_dimensions : Text → Bool
unfolding one_of
elem_allows_dimensions tag = one_of tag ("img" ∷ "td" ∷ "th" ∷ "col" ∷ "colgroup" ∷ "table" ∷ [])

abbrev pub allowed_keys : List String
allowed_keys =
    "id" ∷ "class" ∷ "style" ∷ "title" ∷ "lang" ∷ "dir" ∷ "href" ∷ "src" ∷ "alt" ∷ "width"
    ∷ "height" ∷ "colspan" ∷ "rowspan" ∷ "scope" ∷ "headers" ∷ "cite" ∷ "datetime" ∷ "value"
    ∷ "type" ∷ "rel" ∷ "media" ∷ "start" ∷ "reversed" ∷ "epub:type" ∷ []

-- The keys that `isAllowedAttr` accepts.
unfoldable pub is_allowed_key : Text → Bool
unfolding one_of
is_allowed_key key = one_of key allowed_keys

abbrev pub allowed_tags : List String
allowed_tags =
    "div" ∷ "p" ∷ "h1" ∷ "h2" ∷ "h3" ∷ "h4" ∷ "h5" ∷ "h6" ∷ "ul" ∷ "ol" ∷ "li" ∷ "dl" ∷ "dt" ∷ "dd"
    ∷ "address" ∷ "hr" ∷ "pre" ∷ "blockquote" ∷ "cite" ∷ "em" ∷ "strong" ∷ "small" ∷ "s" ∷ "dfn"
    ∷ "abbr" ∷ "data" ∷ "time" ∷ "code" ∷ "var" ∷ "samp" ∷ "kbd" ∷ "sub" ∷ "sup" ∷ "i" ∷ "b" ∷ "u"
    ∷ "mark" ∷ "ruby" ∷ "rt" ∷ "rp" ∷ "bdi" ∷ "bdo" ∷ "span" ∷ "br" ∷ "wbr" ∷ "ins" ∷ "del" ∷ "img"
    ∷ "table" ∷ "caption" ∷ "colgroup" ∷ "col" ∷ "tbody" ∷ "thead" ∷ "tfoot" ∷ "tr" ∷ "td" ∷ "th"
    ∷ "section" ∷ "article" ∷ "aside" ∷ "header" ∷ "footer" ∷ "main" ∷ "figure" ∷ "figcaption"
    ∷ "nav" ∷ "a" ∷ []

-- The tags that `isAllowedElement` accepts of an element node.
unfoldable pub is_allowed_tag : Text → Bool
unfolding one_of
is_allowed_tag tag = one_of tag allowed_tags

-- The atoms of `voidElements`, by their names.
unfoldable pub is_void_element : Text → Bool
unfolding one_of
is_void_element tag = one_of tag (
    "area" ∷ "base" ∷ "br" ∷ "col" ∷ "embed" ∷ "hr" ∷ "img" ∷ "input" ∷ "link" ∷ "meta" ∷ "source"
    ∷ "wbr" ∷ [])
