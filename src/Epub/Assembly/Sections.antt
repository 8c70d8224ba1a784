-- ===== src/Epub/Assembly/Sections.antt =====
-- The sections of the book.
use deckle.Base.{
  zero, suc, ℕ, Bool-cases, some, Option-cases, List, [], ◌∷◌, ◌++◌, append_assoc, ◌≡◌, refl, sym,
  ap, ◌∙◌, subst, arith, Text, codes, ◌=?◌, All, inl, inr,
}
use deckle.Cover.Generate.{generate_cover}
use deckle.Document.Byline.{EpubArticle}
use deckle.Document.Toc.{build_toc_body}
use deckle.Epub.Assembly.{
  Services, Outcome, cannot_write, written, with_cover_image, add_cover, add_contents, fill_front,
  fill, write_book, build_epub,
}
use deckle.Epub.Assembly.Chapters.{
  Below, HasBody, Chapters, add_articles-Filled, add_section-sections,
}
use deckle.Epub.Library.{EpubLibrary, Added, Section, Unused, SectionLaws}
use deckle.Imaging.Optimize.{Codecs}

-- At most one section, for the cover
pub data AtMostCover : List Section → Type 0 where
  no_cover : AtMostCover []
  cover : (s : Section) → s.file ≡ codes "cover.xhtml" → AtMostCover (s ∷ [])

-- The table of contents
abbrev pub contents : List EpubArticle → Section
contents articles = record {
  file = codes "contents.xhtml";
  title = codes "Contents";
  body = build_toc_body articles;
}

module _ (lib : EpubLibrary) (laws : SectionLaws lib) (c : Codecs) (sv : Services) where
  with_cover_image-AtMostCover :
      (a : Added lib.State)
      → laws.sections a.book ≡ []
      → AtMostCover (laws.sections (with_cover_image lib c sv a))
  unfolding with_cover_image
  with_cover_image-AtMostCover a e = elim (Option-cases a.path) [
    | inl h ↦ rw (h, with_cover_image, e) no_cover
    | inr (path, h) ↦
        rw (h, with_cover_image)
          (let fresh = subst (Unused (codes "cover.xhtml")) (sym e) tt in
            elim (laws.sections-cover path [] a.book fresh) [
              | inl same ↦ rw (same, e) no_cover
              | inr (s, is_cover, added) ↦ rw (added, e) (cover s is_cover)
            ])
  ]

  add_cover-AtMostCover :
      (title : Text) (articles : List EpubArticle) (style : Text) (book : lib.State)
      → laws.sections book ≡ []
      → AtMostCover (laws.sections (add_cover lib c sv title articles style book))
  unfolding add_cover
  add_cover-AtMostCover title articles style book e = elim (Bool-cases (style =? codes "none")) [
    | inl h ↦ rw (h, add_cover, e) no_cover
    | inr h ↦ elim (Option-cases (generate_cover sv.studio title articles style)) [
      | inl none_made ↦ rw (h, none_made, add_cover, e) no_cover
      | inr (png, made) ↦
          rw (h, made, add_cover)
            (with_cover_image-AtMostCover _ (laws.sections-image _ _ book ∙ e))
    ]
  ]

  styled-sections :
      (title : Text) (book : lib.State) (s f : Text)
      → lib.new_epub title ≡ some book
      → laws.sections
          (lib.add_css s f (lib.set_author (codes "deckle") (lib.set_lang (codes "en") book))).book
        ≡ []
  styled-sections title book s f h =
      laws.sections-css s f _
      ∙ (laws.sections-author _ _ ∙ (laws.sections-lang _ book ∙ laws.sections-new title book h))

  -- A byte, from its position
  abbrev byte_at : ℕ → Text → ℕ
  byte_at n [] = 0
  byte_at zero (x ∷ t) = x
  byte_at (suc n) (x ∷ t) = byte_at n t

  contents-Unused : (ss : List Section) → AtMostCover ss → Unused (codes "contents.xhtml") ss
  contents-Unused _ no_cover = tt
  contents-Unused _ (cover s e) = ((λ same. omega (arith, ap (byte_at 2) (sym e ∙ same))), tt)

  front-Below :
      (articles : List EpubArticle) (ss : List Section)
      → AtMostCover ss
      → Below 1 (ss ++ contents articles ∷ [])
  front-Below articles _ no_cover m h = ((λ same. omega (arith, ap (byte_at 0) same)), tt)
  front-Below articles _ (cover s e) m h = (
    (λ same. omega (arith, ap (byte_at 0) (sym e ∙ same))),
    ((λ same. omega (arith, ap (byte_at 0) same)), tt),
  )

  record Front (articles : List EpubArticle) (book : lib.State) : Type 0 where
    covers : List Section
    at_most_cover : AtMostCover covers
    sections : laws.sections book ≡ covers ++ contents articles ∷ []

  fill_front-Front :
      (title : Text) (articles : List EpubArticle) (style : Text) (book : lib.State)
      → lib.new_epub title ≡ some book
      → Front articles (fill_front lib c sv title articles style book).1
  unfolding fill_front add_contents
  fill_front-Front title articles style book h =
      let at_most =
        add_cover-AtMostCover title articles style _ (styled-sections title book _ _ h) in
      record {
        covers = _;
        at_most_cover = at_most;
        sections =
            add_section-sections lib laws c sv (build_toc_body articles) (codes "Contents")
              (codes "contents.xhtml") _ _ (codes "contents", refl) (contents-Unused _ at_most);
      }

  -- The sections of the book of these articles
  pub record IsBook (articles : List EpubArticle) (book : lib.State) : Type 0 where
    pub covers : List Section
    pub at_most_cover : AtMostCover covers
    pub chapters : List Section
    pub are_chapters : Chapters lib laws c sv 1 articles chapters
    pub sections : laws.sections book ≡ covers ++ (contents articles ∷ chapters)

  -- How `buildEpub` ends with a book
  pub data Written (articles : List EpubArticle) : Outcome lib.State → Type 0 where
    is_written : (book : lib.State) → IsBook articles book → Written articles (written book)
    is_unwritable : (book : lib.State) → IsBook articles book → Written articles (cannot_write book)

  fill-IsBook :
      (title : Text) (articles : List EpubArticle) (style : Text) (book : lib.State)
      → lib.new_epub title ≡ some book
      → All (HasBody lib laws c sv) articles
      → (b : lib.State) × (fill lib c sv title articles style book ≡ some b) × IsBook articles b
  unfolding fill
  fill-IsBook title articles style book h hs =
      let front = fill_front lib c sv title articles style book in
      let w = fill_front-Front title articles style book h in
      let below =
        subst (Below 1) (sym w.sections) (front-Below articles w.covers w.at_most_cover) in
      let r = add_articles-Filled lib laws c sv front.0 1 articles front.1 below hs in
      (
        r.book,
        r.filled,
        record {
          covers = w.covers;
          at_most_cover = w.at_most_cover;
          chapters = r.chapters;
          are_chapters = r.are_chapters;
          sections =
              r.sections
              ∙ (ap (λ ss. ss ++ r.chapters) w.sections
                  ∙ append_assoc w.covers (contents articles ∷ []) r.chapters);
        },
      )

  -- Once the library has made a book, and if each article has a body that can be cut out, `buildEpub`
  -- does not panic. The sections of the book that is written, or cannot be written, are: the cover, if
  -- there is one; the table of contents; and one for each article, in order, with the first heading of
  -- its body, or else its number, for a title, and with the sanitized content of its body, in which at
  -- most the sources of embedded images are replaced.
  pub build_epub-Written :
      (articles : List EpubArticle) (title path style : Text) (book : lib.State)
      → lib.new_epub title ≡ some book
      → All (HasBody lib laws c sv) articles
      → Written articles (build_epub lib c sv articles title path style)
  unfolding build_epub write_book
  build_epub-Written articles title path style book h hs =
      let (b, filled, is_book) = fill-IsBook title articles style book h hs in
      elim (Bool-cases (lib.can_write path b)) [
        | inl can ↦ rw (h, filled, can, build_epub) (is_written b is_book)
        | inr cannot ↦ rw (h, filled, cannot, build_epub) (is_unwritable b is_book)
      ]
