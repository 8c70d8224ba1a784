-- ===== src/Epub/Pictures/Numbers.antt =====
-- The files that `extractImages` adds to the book for the images of a chapter.
use deckle.Base.{
  ℕ, suc, ◌+◌, ◌≤◌, ◌<◌, Option-cases, List, [], ◌∷◌, ◌++◌, append-nil, append_assoc, ◌≡◌, ◌≢◌,
  refl, sym, ap, ◌∙◌, arith, Text, All, inl, inr,
}
use deckle.Epub.Library.{EpubLibrary, ImageLaws, kept}
use deckle.Epub.Pictures.{
  Loop, extension, image_file, placed, extract_groups, extract_image, extract_pieces,
  extract_images, img_data_uri_re,
}
use deckle.Epub.Pictures.Files.{image_file-ne}
use deckle.Imaging.Optimize.{Codecs, decode_base_64}
use deckle.Regex.{Groups, find, get_group}
use deckle.Regex.Pieces.{Piece}

-- No text occurs twice.
abbrev pub AreDistinct : List Text → Type 0
AreDistinct [] = Unit {0}
AreDistinct (f ∷ fs) = All (λ g. f ≢ g) fs × AreDistinct fs

-- Names for images of the chapter, with increasing numbers from a number on
data Numbered (chapter : ℕ) : ℕ → List Text → Type 0 where
  no_more : (n : ℕ) → Numbered chapter n []
  numbered :
      (n i : ℕ) (mime : Text) (fs : List Text)
      → n ≤ i
      → Numbered chapter (suc i) fs
      → Numbered chapter n (image_file chapter i (extension mime) ∷ fs)

Numbered-from :
    (chapter n m : ℕ) (fs : List Text) → n ≤ m → Numbered chapter m fs → Numbered chapter n fs
Numbered-from chapter n m fs h (no_more _) = no_more n
Numbered-from chapter n m fs h (numbered _ i mime gs le w) =
    numbered n i mime gs (omega (arith, h, le)) w

-- A file of this chapter with a smaller number is none of them.
Numbered-smaller :
    (chapter n i : ℕ) (mime : Text) (fs : List Text)
    → i < n
    → Numbered chapter n fs
    → All (λ g. image_file chapter i (extension mime) ≢ g) fs
Numbered-smaller chapter n i mime fs h (no_more _) = tt
Numbered-smaller chapter n i mime fs h (numbered _ j other gs le w) = (
  image_file-ne chapter chapter i j mime other (inr (λ e. omega (arith, e, h, le))),
  Numbered-smaller chapter (suc j) i mime gs (omega (arith, h, le)) w,
)

Numbered-AreDistinct : (chapter n : ℕ) (fs : List Text) → Numbered chapter n fs → AreDistinct fs
Numbered-AreDistinct chapter n fs (no_more _) = tt
Numbered-AreDistinct chapter n fs (numbered _ i mime gs le w) = (
  Numbered-smaller chapter (suc i) i mime gs (omega arith) w,
  Numbered-AreDistinct chapter _ gs w,
)

-- Nor is any file of another chapter.
Numbered-other_chapter :
    (chapter n other j : ℕ) (mime : Text) (fs : List Text)
    → other ≢ chapter
    → Numbered chapter n fs
    → All (λ g. image_file other j (extension mime) ≢ g) fs
Numbered-other_chapter chapter n other j mime fs h (no_more _) = tt
Numbered-other_chapter chapter n other j mime fs h (numbered _ i m gs le w) = (
  image_file-ne other chapter j i mime m (inl h),
  Numbered-other_chapter chapter _ other j mime gs h w,
)

module _ (lib : EpubLibrary) (laws : ImageLaws lib) (c : Codecs) where
  -- What a round does: at most one file is added, with the number, which becomes larger then.
  data Round (chapter : ℕ) (l next : Loop lib c) : Type 0 where
    no_file :
        laws.images next.book ≡ laws.images l.book → l.img_idx ≤ next.img_idx → Round chapter l next
    one_file :
        (mime : Text)
        → laws.images next.book
          ≡ laws.images l.book ++ image_file chapter l.img_idx (extension mime) ∷ []
        → l.img_idx < next.img_idx
        → Round chapter l next

  placed-Round :
      (chapter : ℕ) (l next : Loop lib c) (uri whole mime : Text) (g : Groups)
      → l.img_idx < next.img_idx
      → Round chapter l
          (placed lib c next whole g
            (lib.add_image uri (image_file chapter l.img_idx (extension mime)) l.book)).loop
  unfolding placed
  placed-Round chapter l next uri whole mime g h =
      let file = image_file chapter l.img_idx (extension mime) in
      let a = lib.add_image uri file l.book in
      let images = laws.images-image uri file l.book in
      elim (Option-cases a.path) [
        | inl e ↦
            rw (e, placed)
              (no_file (images ∙ (ap (λ o. laws.images l.book ++ kept file o) e ∙ append-nil _))
                (omega (arith, h)))
        | inr (path, e) ↦
            rw (e, placed)
              (one_file mime (images ∙ ap (λ o. laws.images l.book ++ kept file o) e) h)
      ]

  extract_groups-Round :
      (chapter : ℕ) (l : Loop lib c) (whole : Text) (g : Groups)
      → Round chapter l (extract_groups lib c chapter l whole g).loop
  unfolding extract_groups
  extract_groups-Round chapter l whole g = elim (Option-cases (decode_base_64 c (get_group 3 g))) [
    | inl h ↦ rw (h, extract_groups) (no_file refl (omega arith))
    | inr (raw, h) ↦
        rw (h, extract_groups)
          (placed-Round chapter l (record l { img_idx = l.img_idx + 1 }) _ whole (get_group 2 g) g
            (omega arith))
  ]

  extract_image-Round :
      (chapter : ℕ) (l : Loop lib c) (p : Piece)
      → Round chapter l (extract_image lib c chapter l p).loop
  unfolding extract_image
  extract_image-Round chapter l p = elim (Option-cases (find img_data_uri_re p.whole)) [
    | inl h ↦ rw (h, extract_image) (no_file refl (omega arith))
    | inr (m, h) ↦ rw (h, extract_image) (extract_groups-Round chapter l p.whole m.groups)
  ]

  -- Files with increasing numbers are added.
  record Grows (chapter n : ℕ) (book after : lib.State) : Type 0 where
    files : List Text
    appends : laws.images after ≡ laws.images book ++ files
    are_numbered : Numbered chapter n files

  Grows-Round :
      (chapter : ℕ) (l next : Loop lib c) (after : lib.State)
      → Round chapter l next
      → Grows chapter next.img_idx next.book after
      → Grows chapter l.img_idx l.book after
  Grows-Round chapter l next after (no_file e h) w = record {
    files = w.files;
    appends = w.appends ∙ ap (λ t. t ++ w.files) e;
    are_numbered = Numbered-from chapter l.img_idx next.img_idx w.files h w.are_numbered;
  }
  Grows-Round chapter l next after (one_file mime e h) w = record {
    files = image_file chapter l.img_idx (extension mime) ∷ w.files;
    appends =
        w.appends ∙ (ap (λ t. t ++ w.files) e ∙ append_assoc (laws.images l.book) (_ ∷ []) w.files);
    are_numbered =
        numbered l.img_idx l.img_idx mime w.files (omega arith)
          (Numbered-from chapter (suc l.img_idx) next.img_idx w.files h w.are_numbered);
  }

  extract_pieces-Grows :
      (chapter : ℕ) (l : Loop lib c) (ps : List Piece) (tail : Text)
      → Grows chapter l.img_idx l.book (extract_pieces lib c chapter l ps tail).loop.book
  unfolding extract_pieces
  extract_pieces-Grows chapter l [] tail = record {
    files = [];
    appends = sym (append-nil (laws.images l.book));
    are_numbered = no_more l.img_idx;
  }
  extract_pieces-Grows chapter l (p ∷ ps) tail =
      let next = (extract_image lib c chapter l p).loop in
      Grows-Round chapter l next _ (extract_image-Round chapter l p)
        (extract_pieces-Grows chapter next ps tail)

  -- The images of a chapter are added under these names.
  pub record AddsDistinct (chapter : ℕ) (book after : lib.State) : Type 0 where
    pub files : List Text
    pub appends : laws.images after ≡ laws.images book ++ files
    pub distinct : AreDistinct files
    pub no_other_chapter :
        (other j : ℕ) (mime : Text)
        → other ≢ chapter
        → All (λ g. image_file other j (extension mime) ≢ g) files

  -- No two of the images that `extractImages` adds to the book for a chapter share a file name, and
  -- none has a name that is made for an image of another chapter.
  pub extract_images-AddsDistinct :
      (chapter : ℕ) (book : lib.State) (body : Text)
      → AddsDistinct chapter book (extract_images lib c chapter book body).loop.book
  unfolding extract_images
  extract_images-AddsDistinct chapter book body =
      let w = extract_pieces-Grows chapter _ _ _ in
      record {
        files = w.files;
        appends = w.appends;
        distinct = Numbered-AreDistinct chapter _ w.files w.are_numbered;
        no_other_chapter = λ other j mime h.
            Numbered-other_chapter chapter _ other j mime w.files h w.are_numbered;
      }
