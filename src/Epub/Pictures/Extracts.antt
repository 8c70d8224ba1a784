-- ===== src/Epub/Pictures/Extracts.antt =====
-- The text that `extractImages` makes: only the sources of images are replaced.
use deckle.Base.{ℕ, Option-cases, List, [], ◌∷◌, ◌++◌, some, ◌≡◌, Text, inl, inr}
use deckle.Epub.Library.{EpubLibrary, Added}
use deckle.Epub.Pictures.{
  Loop, placed, extract_groups, extract_image, extract_pieces, extract_images, img_data_uri_re,
}
use deckle.Imaging.Optimize.{Codecs, decode_base_64}
use deckle.Regex.{Match, find, get_group}
use deckle.Regex.Pieces.{Piece, find_all}

-- What may stand in the place of a match: the match itself, or the match with the path of a file in
-- the place of the embedded image.
pub data Placed (whole : Text) : Text → Type 0 where
  left : Placed whole whole
  moved :
      (m : Match) (path : Text)
      → find img_data_uri_re whole ≡ some m
      → Placed whole (get_group 1 m.groups ++ (path ++ get_group 4 m.groups))

-- The text, cut at the matches, with each match replaced in such a way
pub data Extracts : List Piece → Text → Text → Type 0 where
  no_more : (tail : Text) → Extracts [] tail tail
  piece :
      (p : Piece) (ps : List Piece) (tail at_match out : Text)
      → Placed p.whole at_match
      → Extracts ps tail out
      → Extracts (p ∷ ps) tail (p.gap ++ (at_match ++ out))

module _ (lib : EpubLibrary) (c : Codecs) where
  placed-Placed :
      (l : Loop lib c) (whole : Text) (m : Match) (a : Added lib.State)
      → find img_data_uri_re whole ≡ some m
      → Placed whole (placed lib c l whole m.groups a).out
  unfolding placed
  placed-Placed l whole m a e = elim (Option-cases a.path) [
    | inl h ↦ rw (h, placed) left
    | inr (path, h) ↦ rw (h, placed) (moved m path e)
  ]

  extract_groups-Placed :
      (chapter : ℕ) (l : Loop lib c) (whole : Text) (m : Match)
      → find img_data_uri_re whole ≡ some m
      → Placed whole (extract_groups lib c chapter l whole m.groups).out
  unfolding extract_groups
  extract_groups-Placed chapter l whole m e =
      elim (Option-cases (decode_base_64 c (get_group 3 m.groups))) [
        | inl h ↦ rw (h, extract_groups) left
        | inr (raw, h) ↦ rw (h, extract_groups) (placed-Placed _ whole m _ e)
      ]

  extract_image-Placed :
      (chapter : ℕ) (l : Loop lib c) (p : Piece)
      → Placed p.whole (extract_image lib c chapter l p).out
  unfolding extract_image
  extract_image-Placed chapter l p = elim (Option-cases (find img_data_uri_re p.whole)) [
    | inl h ↦ rw (h, extract_image) left
    | inr (m, h) ↦ rw (h, extract_image) (extract_groups-Placed chapter l p.whole m h)
  ]

  extract_pieces-Extracts :
      (chapter : ℕ) (l : Loop lib c) (ps : List Piece) (tail : Text)
      → Extracts ps tail (extract_pieces lib c chapter l ps tail).out
  unfolding extract_pieces
  extract_pieces-Extracts chapter l [] tail = no_more tail
  extract_pieces-Extracts chapter l (p ∷ ps) tail =
      piece p ps tail _ _ (extract_image-Placed chapter l p)
        (extract_pieces-Extracts chapter (extract_image lib c chapter l p).loop ps tail)

  pub extract_images-Extracts :
      (chapter : ℕ) (book : lib.State) (body : Text)
      → Extracts
          (find_all img_data_uri_re body).pieces
          (find_all img_data_uri_re body).tail
          (extract_images lib c chapter book body).out
  unfolding extract_images
  extract_images-Extracts chapter book body = extract_pieces-Extracts chapter _ _ _
