-- ===== src/Imaging/Embed/Laws.antt =====
-- What `fetchAndEmbed` gives, match for match.
use deckle.Base.{none, [], ◌∷◌, ◌++◌, map, List, ◌≡◌, refl, ap, ◌∙◌, Text, ◌=?◌}
use deckle.Imaging.Download.{Web, FetchResult, fetch_image_data, fetch_one_image}
use deckle.Imaging.Embed.{embedded, rebuild, url_of, fetch_and_embed}
use deckle.Imaging.Optimize.{Codecs}
use deckle.Imaging.Patterns.{ext_img_re}
use deckle.Regex.Pieces.{Piece, replaced, replace_all, find_all, whole_of, find_all-Splits}

rebuild-map :
    (f : Piece → FetchResult) (ps : List Piece) (tail : Text)
    → rebuild ps (map f ps) tail ≡ replaced (λ p. embedded p (f p)) ps tail
unfolding rebuild replaced
rebuild-map f [] tail = refl
rebuild-map f (p ∷ ps) tail = ap (λ t. p.gap ++ (embedded p (f p) ++ t)) (rebuild-map f ps tail)

module _ (web : Web) (c : Codecs) where
  -- The loop over the positions of the matches and the slots of the results is a replacement of
  -- each match by what its own download gives.
  pub fetch_and_embed-replace_all :
      (html : Text)
      → fetch_and_embed web c html
        ≡ replace_all ext_img_re (λ p. embedded p (fetch_one_image web c (url_of p))) html
  unfolding fetch_and_embed replace_all
  fetch_and_embed-replace_all html = rebuild-map _ (find_all ext_img_re html).pieces _

  embedded-none :
      (p : Piece)
      → fetch_image_data web (url_of p) ≡ none
      → embedded p (fetch_one_image web c (url_of p)) ≡ p.whole
  unfolding embedded fetch_one_image ◌=?◌
  embedded-none p h = rw (h, fetch_one_image) refl

  kept :
      (ps : List Piece) (tail : Text)
      → ((url : Text) → fetch_image_data web url ≡ none)
      → replaced (λ p. embedded p (fetch_one_image web c (url_of p))) ps tail
        ≡ replaced whole_of ps tail
  unfolding replaced
  kept [] tail h = refl
  kept (p ∷ ps) tail h = rw (embedded-none p (h (url_of p)), kept ps tail h) refl

  -- If every download fails, the text is as before.
  pub fetch_and_embed_offline :
      (html : Text)
      → ((url : Text) → fetch_image_data web url ≡ none)
      → fetch_and_embed web c html ≡ html
  unfolding replace_all
  fetch_and_embed_offline html h =
      fetch_and_embed-replace_all html
      ∙ (kept (find_all ext_img_re html).pieces (find_all ext_img_re html).tail h
          ∙ (find_all-Splits ext_img_re html).together)
