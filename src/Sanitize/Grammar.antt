-- ===== src/Sanitize/Grammar.antt =====
-- The part of the grammar of XML that `renderXHTML` is meant to stay in: element content with its
-- tags closed, and attributes of different names.
use deckle.Base.{
  ℕ, Bool, true, false, not, ◌&&◌, ◌||◌, List, [], ◌∷◌, ◌++◌, append_assoc, ◌≡◌, leb, ◌==◌, Text,
  codes, all, has, has_prefix,
}

-- Lower-case letters, digits, `-` and `:`
abbrev is_letter : ℕ → Bool
is_letter c = leb b'a' c && leb c b'z'

abbrev is_name_char : ℕ → Bool
is_name_char c = is_letter c || ((leb b'0' c && leb c b'9') || (c == b'-' || c == b':'))

-- A name of lower-case ASCII
unfoldable pub is_name : Text → Bool
is_name [] = false
is_name (c ∷ t) = is_letter c && all is_name_char t

-- The text begins with a reference to one of the characters that have to be escaped, or to a
-- carriage return.
abbrev begins_reference : Text → Bool
begins_reference t =
    has_prefix t (codes "&amp;")
    || (has_prefix t (codes "&lt;")
        || (has_prefix t (codes "&gt;")
            || (has_prefix t (codes "&#34;")
                || (has_prefix t (codes "&#39;") || has_prefix t (codes "&#13;")))))

-- Text that may stand between tags and in a quoted value: no markup, and `&` only in references.
unfoldable pub is_char_data : Text → Bool
is_char_data [] = true
is_char_data (c ∷ t) =
    not (c == b'<' || (c == b'>' || c == b'"'))
    && ((not (c == b'&') || begins_reference (c ∷ t)) && is_char_data t)

-- Attributes with these names, each with a blank before it. No name occurs twice.
pub data Attributes : List Text → Text → Type 0 where
  no_more : Attributes [] []
  attribute :
      (key val : Text) (keys : List Text) (t : Text)
      → is_name key ≡ true
      → has keys key ≡ false
      → is_char_data val ≡ true
      → Attributes keys t
      → Attributes (key ∷ keys) (b' ' ∷ (key ++ (codes "=\"" ++ (val ++ (b'"' ∷ t)))))

-- Text, empty elements, and elements with content between their two tags.
pub data Content : Text → Type 0 where
  nothing : Content []
  char_data : (s t : Text) → is_char_data s ≡ true → Content t → Content (s ++ t)
  empty_element :
      (name attrs t : Text) (keys : List Text)
      → is_name name ≡ true
      → Attributes keys attrs
      → Content t
      → Content (b'<' ∷ (name ++ (attrs ++ (codes "/>" ++ t))))
  tags :
      (name attrs inner t : Text) (keys : List Text)
      → is_name name ≡ true
      → Attributes keys attrs
      → Content inner
      → Content t
      → Content
          (b'<' ∷ (name ++ (attrs ++ (b'>' ∷ (inner ++ (codes "</" ++ (name ++ (b'>' ∷ t))))))))

pub Content-append : (s t : Text) → Content s → Content t → Content (s ++ t)
Content-append s t nothing d = d
Content-append s t (char_data a b h c) d =
    rw (append_assoc a b t) (char_data a (b ++ t) h (Content-append b t c d))
Content-append s t (empty_element name attrs b keys n g c) d =
    rw (append_assoc name, append_assoc attrs)
      (empty_element name attrs (b ++ t) keys n g (Content-append b t c d))
Content-append s t (tags name attrs inner b keys n g i c) d =
    rw (append_assoc name, append_assoc attrs, append_assoc inner, append_assoc name)
      (tags name attrs inner (b ++ t) keys n g i (Content-append b t c d))
