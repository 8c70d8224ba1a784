-- ===== src/Sanitize/Output.antt =====
-- `sanitizeForXHTML` as a whole gives a result.
use deckle.Base.{Option, Text, Option-cases, inl, inr, Yields, Yields-bind}
use deckle.Sanitize.Attrs.{Floats}
use deckle.Sanitize.Dom.{Node}
use deckle.Sanitize.Total.{clean_document-ends}
use deckle.Sanitize.Xhtml.{strip_invalid_xml_chars, clean_document, sanitize_for_xhtml}

-- `sanitizeForXHTML` gives a text for every text, whatever the parser and the escaping do: the
-- recursion of `clean` ends.
pub sanitize_for_xhtml-ends :
    (fl : Floats) (parse : Text → Option Node) (escape : Text → Text) (html : Text)
    → Yields (λ t. Unit {0}) (sanitize_for_xhtml fl parse escape html)
unfolding sanitize_for_xhtml
sanitize_for_xhtml-ends fl parse escape html =
    elim (Option-cases (parse (strip_invalid_xml_chars html))) [
      | inl failed ↦ rw (failed, Yields) tt
      | inr (doc, parsed) ↦
          rw (parsed, Yields)
            (Yields-bind (λ r. Unit {0}) (λ t. Unit {0}) (clean_document fl doc) _
              (clean_document-ends fl doc) (λ r _. tt))
    ]
