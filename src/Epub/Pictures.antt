-- ===== src/Epub/Pictures.antt =====
-- `extractImages`: embedded images become files of the book.
pub mod Files
pub mod Extracts
pub mod Numbers
pub mod Sections
use deckle.Base.{
  ℕ, zero, suc, ◌+◌, Bool, true, false, Option, none, some, List, [], ◌∷◌, ◌++◌, Text, codes,
  contains, if◌then◌else◌,
}
use deckle.Base.Decimal.{decimal}
use deckle.Document.Toc.{three_digits}
use deckle.Epub.Library.{EpubLibrary, Added}
use deckle.Imaging.Optimize.{Codecs, decode_base_64}
use deckle.Imaging.Patterns.{data_uri_re}
use deckle.Regex.{Regex, Groups, find, get_group}
use deckle.Regex.Pieces.{Piece, find_all}

-- `imgDataURIRe`, which is written like `dataURIRe` of imgoptimize.go
abbrev pub img_data_uri_re : Regex
img_data_uri_re = data_uri_re

-- The extension for a MIME type
unfoldable pub extension : Text → Text
extension mime =
    if contains mime (codes "png")
    then codes ".png"
    else if contains mime (codes "gif")
    then codes ".gif"
    else if contains mime (codes "svg")
    then codes ".svg"
    else if contains mime (codes "webp")
    then codes ".webp"
    else codes ".jpg"

-- `ch%03d_img%03d%s`
unfoldable pub image_file : ℕ → ℕ → Text → Text
image_file chapter i ext =
    codes "ch" ++ (three_digits chapter ++ (codes "_img" ++ (three_digits i ++ ext)))

module _ (lib : EpubLibrary) (c : Codecs) where
  -- The state of the loop: the book, `imgIdx`, and whether an image could not be added
  pub record Loop : Type 0 where
    pub book : lib.State
    pub img_idx : ℕ
    pub failed : Bool

  pub record Step : Type 0 where
    pub loop : Loop
    pub out : Text

  -- What `AddImage` gives is written in the place of the source.
  unfoldable pub placed : Loop → Text → Groups → Added lib.State → Step
  placed l whole g a = elim (a.path) [
    | none ↦ record { loop = record l { book = a.book; failed = true }; out = whole }
    | some path ↦ record {
      loop = record l { book = a.book };
      out = get_group 1 g ++ (path ++ get_group 4 g);
    }
  ]

  unfoldable pub extract_groups : ℕ → Loop → Text → Groups → Step
  extract_groups chapter l whole g =
      let mime = get_group 2 g in
      let b_64_data = get_group 3 g in
      let file = image_file chapter l.img_idx (extension mime) in
      let next = record l { img_idx = l.img_idx + 1 } in
      let uri = codes "data:" ++ (mime ++ (codes ";base64," ++ b_64_data)) in
      elim (decode_base_64 c b_64_data) [
        | none ↦ record { loop = next; out = whole }
        | some _ ↦ placed next whole g (lib.add_image uri file l.book)
      ]

  -- The callback, which matches the match once more
  unfoldable pub extract_image : ℕ → Loop → Piece → Step
  extract_image chapter l p = elim (find img_data_uri_re p.whole) [
    | none ↦ record { loop = l; out = p.whole }
    | some m ↦ extract_groups chapter l p.whole m.groups
  ]

  -- `ReplaceAllStringFunc`, with the state of the callback
  unfoldable pub extract_pieces : ℕ → Loop → List Piece → Text → Step
  extract_pieces chapter l [] tail = record { loop = l; out = tail }
  extract_pieces chapter l (p ∷ ps) tail =
      let first = extract_image chapter l p in
      let rest = extract_pieces chapter first.loop ps tail in
      record { loop = rest.loop; out = p.gap ++ (first.out ++ rest.out) }

  -- `extractImages`
  unfoldable pub extract_images : ℕ → lib.State → Text → Step
  extract_images chapter book body =
      let ps = find_all img_data_uri_re body in
      extract_pieces chapter (record { book = book; img_idx = 0; failed = false }) ps.pieces ps.tail
