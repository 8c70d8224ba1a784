-- ===== src/Epub/Pictures/Sections.antt =====
-- `extractImages` does not touch the sections.
use deckle.Base.{ℕ, Option-cases, List, [], ◌∷◌, ◌≡◌, refl, ◌∙◌, Text, inl, inr}
use deckle.Epub.Library.{EpubLibrary, Added, SectionLaws}
use deckle.Epub.Pictures.{
  Loop, placed, extract_groups, extract_image, extract_pieces, extract_images, img_data_uri_re,
}
use deckle.Imaging.Optimize.{Codecs, decode_base_64}
use deckle.Regex.{Groups, find, get_group}
use deckle.Regex.Pieces.{Piece}

module _ (lib : EpubLibrary) (laws : SectionLaws lib) (c : Codecs) where
  placed-sections :
      (l : Loop lib c) (whole : Text) (g : Groups) (a : Added lib.State)
      → laws.sections (placed lib c l whole g a).loop.book ≡ laws.sections a.book
  unfolding placed
  placed-sections l whole g a = elim (Option-cases a.path) [
    | inl h ↦ rw (h, placed) refl
    | inr (path, h) ↦ rw (h, placed) refl
  ]

  extract_groups-sections :
      (chapter : ℕ) (l : Loop lib c) (whole : Text) (g : Groups)
      → laws.sections (extract_groups lib c chapter l whole g).loop.book ≡ laws.sections l.book
  unfolding extract_groups
  extract_groups-sections chapter l whole g =
      elim (Option-cases (decode_base_64 c (get_group 3 g))) [
        | inl h ↦ rw (h, extract_groups) refl
        | inr (raw, h) ↦
            rw (h, extract_groups) (placed-sections _ whole g _ ∙ laws.sections-image _ _ l.book)
      ]

  extract_image-sections :
      (chapter : ℕ) (l : Loop lib c) (p : Piece)
      → laws.sections (extract_image lib c chapter l p).loop.book ≡ laws.sections l.book
  unfolding extract_image
  extract_image-sections chapter l p = elim (Option-cases (find img_data_uri_re p.whole)) [
    | inl h ↦ rw (h, extract_image) refl
    | inr (m, h) ↦ rw (h, extract_image) (extract_groups-sections chapter l p.whole m.groups)
  ]

  extract_pieces-sections :
      (chapter : ℕ) (l : Loop lib c) (ps : List Piece) (tail : Text)
      → laws.sections (extract_pieces lib c chapter l ps tail).loop.book ≡ laws.sections l.book
  unfolding extract_pieces
  extract_pieces-sections chapter l [] tail = refl
  extract_pieces-sections chapter l (p ∷ ps) tail =
      extract_pieces-sections chapter (extract_image lib c chapter l p).loop ps tail
      ∙ extract_image-sections chapter l p

  pub extract_images-sections :
      (chapter : ℕ) (book : lib.State) (body : Text)
      → laws.sections (extract_images lib c chapter book body).loop.book ≡ laws.sections book
  unfolding extract_images
  extract_images-sections chapter book body = extract_pieces-sections chapter _ _ _
