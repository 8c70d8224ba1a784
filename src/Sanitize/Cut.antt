-- ===== src/Sanitize/Cut.antt =====
-- Of the print of a page, `sanitizeForXHTML` cuts out what stands in the body.
use deckle.Base.{
  ℕ, ◌+◌, Bool, true, not, some, [], ◌∷◌, ◌++◌, append_assoc, append-nil, ◌≡◌, refl, ap, ◌∙◌, arith,
  length, drop, length-append, take-length-append, drop-length-append, Text, codes, ◌==◌, all,
  one_of, ◌=?◌, has_prefix, index, last_index,
}
use deckle.Sanitize.Dom.{node, text_node, comment_node, Forest, nil, cons}
use deckle.Sanitize.Frame.{html_page, is_text_only}
use deckle.Sanitize.Grammar.{is_char_data}
use deckle.Sanitize.Tags.{is_void_element}
use deckle.Sanitize.Xhtml.{render_attrs, is_nil, render_xhtml, render_children, body_of}

abbrev no_tag : Text → Bool
no_tag t = all (λ c. not (c == b'<')) t

char_data-no_tag : (t : Text) → is_char_data t ≡ true → no_tag t ≡ true
unfolding is_char_data
char_data-no_tag [] h = refl
char_data-no_tag (c ∷ t) h = ground (arith, char_data-no_tag t)

no_tag-append : (s t : Text) → no_tag s ≡ true → no_tag t ≡ true → no_tag (s ++ t) ≡ true
no_tag-append [] t h g = g
no_tag-append (c ∷ s) t h g = ground (arith, no_tag-append s t)

-- Text without tags is passed over by the search.
index-after :
    (w t : Text) (i : ℕ)
    → no_tag w ≡ true
    → index t (codes "<body>") ≡ some i
    → index (w ++ t) (codes "<body>") ≡ some (length w + i)
unfolding index has_prefix
index-after [] t i h g = g ∙ ap some (omega arith)
index-after (c ∷ w) t i h g = ground (arith, index-after w t i (ground arith) g)

-- The search from the end finds the tag behind any text.
last_index-after :
    (b t p : Text) → last_index t p ≡ some 0 → last_index (b ++ t) p ≡ some (length b)
unfolding last_index
last_index-after [] t p g = g
last_index-after (c ∷ b) t p g = rw (last_index-after b t p g) refl

drop-both : (s t u : Text) → drop (length s + length t) (s ++ (t ++ u)) ≡ u
drop-both s t u = rw (← length-append s t, ← append_assoc s t u) (drop-length-append (s ++ t) u)

-- What is cut out between the first opening tag and a closing tag with none behind it
body_of-between :
    (s b t : Text)
    → index (s ++ (codes "<body>" ++ (b ++ t))) (codes "<body>") ≡ some (length s)
    → last_index t (codes "</body>") ≡ some 0
    → body_of (s ++ (codes "<body>" ++ (b ++ t))) ≡ b
unfolding body_of
body_of-between s b t first last =
    let rest = drop-both s (codes "<body>") (b ++ t) in
    rw (first, body_of, rest, last_index-after b t (codes "</body>") last, rest)
      (take-length-append b t)

-- The opening tags in front of the body
abbrev head : Text → Text
head w = codes "<html><head>" ++ (w ++ codes "</head>")

index-head :
    (w t : Text)
    → no_tag w ≡ true
    → index (head w ++ (codes "<body>" ++ t)) (codes "<body>") ≡ some (length (head w))
unfolding index has_prefix
index-head w t h =
    let inside = index-after w (codes "</head>" ++ (codes "<body>" ++ t)) 7 h refl in
    rw (append_assoc w, inside, length-append w) refl

module _ (escape : Text → Text) where
  texts-no_tag :
      ((t : Text) → is_char_data (escape t) ≡ true)
      → (ws : Forest) → is_text_only ws ≡ true
      → no_tag (render_children escape ws) ≡ true
  unfolding is_text_only render_xhtml
  texts-no_tag safe nil h = refl
  texts-no_tag safe (cons (node text_node d attrs nil) ns) h =
      no_tag-append (escape d) (render_children escape ns) (char_data-no_tag (escape d) (safe d))
        (texts-no_tag safe ns h)
  texts-no_tag safe (cons (node comment_node d attrs nil) ns) h = texts-no_tag safe ns h
  texts-no_tag safe (cons _ ns) h = cc

  render_xhtml-html_page :
      (ws kept : Forest)
      → render_xhtml escape (html_page ws kept)
        ≡ head (render_children escape ws)
          ++ (codes "<body>" ++ (render_children escape kept ++ codes "</body></html>"))
  unfolding render_xhtml render_attrs is_nil is_void_element one_of ◌=?◌
  render_xhtml-html_page ws kept =
      let w = render_children escape ws in
      let b = render_children escape kept in
      rw
        (
          append_assoc (w ++ codes "</head>") (codes "<body>" ++ ((b ++ codes "</body>") ++ []))
              (codes "</html>"),
          append-nil (b ++ codes "</body>"),
          append_assoc b (codes "</body>") (codes "</html>"),
          append-nil (
              (w ++ codes "</head>")
              ++ (codes "<body>" ++ (b ++ (codes "</body>" ++ codes "</html>")))),
        )
        refl

  -- The children of the body, printed
  pub body_of-html_page :
      ((t : Text) → is_char_data (escape t) ≡ true)
      → (ws kept : Forest) → is_text_only ws ≡ true
      → body_of (render_xhtml escape (html_page ws kept)) ≡ render_children escape kept
  unfolding last_index has_prefix
  body_of-html_page safe ws kept h =
      let w = render_children escape ws in
      rw (render_xhtml-html_page ws kept) (
        body_of-between (head w) (render_children escape kept) (codes "</body></html>")
          (index-head w (render_children escape kept ++ codes "</body></html>")
            (texts-no_tag safe ws h))
          refl)
