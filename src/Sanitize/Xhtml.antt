-- ===== src/Sanitize/Xhtml.antt =====
-- `stripInvalidXMLChars`, `collectIDs`, `renderXHTML` and `sanitizeForXHTML`. The parser and
-- `html.EscapeString` are those of golang.org/x/net/html: parameters.
use deckle.Base.{
  ℕ, ◌+◌, ◌*◌, Bool, true, false, not, ◌&&◌, ◌||◌, Option, none, some, ◌>>=◌, List, [], ◌∷◌, ◌++◌,
  length, drop, take, Text, codes, ◌=?◌, leb, ◌==◌, index, last_index, if◌then◌else◌,
}
use deckle.Sanitize.Attrs.{Floats, sanitize_id}
use deckle.Sanitize.Clean.{Cleaned, clean}
use deckle.Sanitize.Dom.{
  Attribute, error_node, text_node, document_node, element_node, comment_node, doctype_node,
  raw_node, Node, node, Forest, nil, cons, is_element, height,
}
use deckle.Sanitize.Tags.{is_void_element}

-- The test of `stripInvalidXMLChars`
unfoldable pub is_xml_char : ℕ → Bool
is_xml_char r =
    r == 0x9
    || (r == 0xA
        || (r == 0xD
            || ((leb 0x20 r && leb r 0xD7FF)
                || ((leb 0xE000 r && leb r 0xFFFD) || (leb 0x10000 r && leb r 0x10FFFF)))))

-- `stripInvalidXMLChars`
unfoldable pub strip_invalid_xml_chars : Text → Text
strip_invalid_xml_chars [] = []
strip_invalid_xml_chars (r ∷ s) =
    if is_xml_char r then r ∷ strip_invalid_xml_chars s else strip_invalid_xml_chars s

-- The IDs of one element, cleaned.
unfoldable pub attr_ids : List Attribute → List Text
attr_ids [] = []
attr_ids (a ∷ attrs) =
    if a.key =? codes "id" && not (sanitize_id a.val =? [])
    then sanitize_id a.val ∷ attr_ids attrs
    else attr_ids attrs

-- `collectIDs`
unfoldable mutual
  pub collect_ids : Node → List Text
  collect_ids (node k d attrs cs) =
      (if is_element k then attr_ids attrs else []) ++ collect_ids_in cs

  pub collect_ids_in : Forest → List Text
  collect_ids_in nil = []
  collect_ids_in (cons n ns) = collect_ids n ++ collect_ids_in ns

module _ (escape : Text → Text) where
  unfoldable pub render_attrs : List Attribute → Text
  render_attrs [] = []
  render_attrs (a ∷ attrs) =
      b' ' ∷ (a.key ++ (codes "=\"" ++ (escape a.val ++ (b'"' ∷ render_attrs attrs))))

  unfoldable pub is_nil : Forest → Bool
  is_nil nil = true
  is_nil (cons _ _) = false

  -- `renderXHTML`: what is written for the node
  unfoldable mutual
    pub render_xhtml : Node → Text
    render_xhtml (node text_node d attrs cs) = escape d
    render_xhtml (node element_node d attrs cs) =
        b'<'
        ∷ (d
            ++ (render_attrs attrs
                ++ (if is_void_element d && is_nil cs
                    then codes "/>"
                    else b'>' ∷ (render_children cs ++ (codes "</" ++ (d ++ (b'>' ∷ [])))))))
    render_xhtml (node document_node d attrs cs) = render_children cs
    render_xhtml (node raw_node d attrs cs) = d
    render_xhtml (node error_node d attrs cs) = []
    render_xhtml (node comment_node d attrs cs) = []
    render_xhtml (node doctype_node d attrs cs) = []

    pub render_children : Forest → Text
    render_children nil = []
    render_children (cons n ns) = render_xhtml n ++ render_children ns

-- `s.clean(doc)` with the fuel that `clean` needs for this document
unfoldable pub clean_document : Floats → Node → Option Cleaned
clean_document fl doc = clean fl (collect_ids doc) (2 * height doc) none [] doc

-- The part of the print between "<body>" and the last "</body>".
unfoldable pub body_of : Text → Text
body_of result = elim (index result (codes "<body>")) [
  | none ↦ result
  | some idx ↦
      let inner = drop (idx + length (codes "<body>")) result in
      elim (last_index inner (codes "</body>")) [ none ↦ inner | some end ↦ take end inner ]
]

-- `sanitizeForXHTML`; `none` means that the fuel of `clean` ran out.
unfoldable pub sanitize_for_xhtml :
    Floats → (Text → Option Node) → (Text → Text) → Text → Option Text
sanitize_for_xhtml fl parse escape html =
    let stripped = strip_invalid_xml_chars html in
    elim (parse stripped) [
      | none ↦ some stripped
      | some doc ↦ do
        r ← clean_document fl doc
        let doc' : Node = elim (r.result) [ none ↦ doc | some n ↦ n ]
        some (body_of (render_xhtml escape doc'))
    ]
