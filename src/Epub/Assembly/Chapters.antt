-- ===== src/Epub/Assembly/Chapters.antt =====
-- The sections of the articles.
use deckle.Base.{
  if◌then◌else◌, ℕ, ◌+◌, ◌≤◌, Option, some, List, [], ◌∷◌, ◌++◌, append-nil, append_assoc, ◌≡◌, ◌≢◌,
  refl, sym, ap, ◌∙◌, subst, arith, Text, codes, ◌=?◌, All, All-append,
}
use deckle.Document.Body.{extract_body_content}
use deckle.Base.Decimal.{decimal}
use deckle.Document.Byline.{EpubArticle}
use deckle.Document.Headings.{extract_h_1_title}
use deckle.Document.Toc.{three_digits, article_file, article_file-ne}
use deckle.Epub.Assembly.{chapter_title, Services, sanitized, add_article, add_articles}
use deckle.Epub.Library.{EpubLibrary, Section, kept, IsFileName, Unused, SectionLaws}
use deckle.Epub.Pictures.{extract_images, img_data_uri_re}
use deckle.Epub.Pictures.Extracts.{Extracts, extract_images-Extracts}
use deckle.Regex.Pieces.{find_all}
use deckle.Epub.Pictures.Sections.{extract_images-sections}
use deckle.Imaging.Optimize.{Codecs}

article_file-IsFileName : (n : ℕ) → IsFileName (article_file n)
article_file-IsFileName n = (codes "article" ++ three_digits n, refl)

-- None of the sections has the file of an article from this number on.
abbrev pub Below : ℕ → List Section → Type 0
Below n ss = (m : ℕ) → n ≤ m → Unused (article_file m) ss

Below-append :
    (n : ℕ) (ss : List Section) (s : Section)
    → s.file ≡ article_file n
    → Below n ss
    → Below (n + 1) (ss ++ s ∷ [])
Below-append n ss s e b m h =
    let other : s.file ≢ article_file m =
      λ same. article_file-ne n m (omega (arith, h)) (sym e ∙ same) in
    All-append _ ss _ (b m (omega arith)) (other, tt)

module _ (lib : EpubLibrary) (laws : SectionLaws lib) (c : Codecs) (sv : Services) where
  -- The section is that of the article with this number: the content of its body, sanitized, in which
  -- only sources of embedded images are replaced, under the title in its first heading.
  pub record IsChapter (n : ℕ) (a : EpubArticle) (s : Section) : Type 0 where
    pub body : Text
    pub cut : extract_body_content sv.to_lower a.html ≡ some body
    pub is_file : s.file ≡ article_file n
    pub is_title : s.title ≡ (
        if extract_h_1_title body =? []
        then codes "Article " ++ decimal n
        else extract_h_1_title body)
    pub content :
        Extracts
          (find_all img_data_uri_re (sanitized sv body)).pieces
          (find_all img_data_uri_re (sanitized sv body)).tail
          s.body

  -- A section for each article, in order, from a number on
  pub data Chapters : ℕ → List EpubArticle → List Section → Type 0 where
    no_more : (n : ℕ) → Chapters n [] []
    chapter :
        (n : ℕ) (a : EpubArticle) (s : Section) (articles : List EpubArticle) (ss : List Section)
        → IsChapter n a s
        → Chapters (n + 1) articles ss
        → Chapters n (a ∷ articles) (s ∷ ss)

  pub add_section-sections :
      (body title file css : Text) (book : lib.State)
      → IsFileName file
      → Unused file (laws.sections book)
      → laws.sections (lib.add_section body title file css book).book
        ≡ laws.sections book ++ record { file = file; title = title; body = body } ∷ []
  add_section-sections body title file css book named new =
      let (path, h) = laws.adds_new body title file css book named new in
      let s : Section = record { file = file; title = title; body = body } in
      laws.sections-section body title file css book named
      ∙ ap (λ o. laws.sections book ++ kept s o) h

  record AddsChapter (n : ℕ) (a : EpubArticle) (book next : lib.State) : Type 0 where
    section : Section
    is_chapter : IsChapter n a section
    appends : laws.sections next ≡ laws.sections book ++ section ∷ []

  add_article-AddsChapter :
      (css : Text) (n : ℕ) (a : EpubArticle) (body : Text) (book : lib.State)
      → extract_body_content sv.to_lower a.html ≡ some body
      → Unused (article_file n) (laws.sections book)
      → AddsChapter n a book (add_article lib c sv css n body book)
  unfolding add_article
  add_article-AddsChapter css n a body book cut new =
      let images = extract_images lib c n book (sanitized sv body) in
      let same = extract_images-sections lib laws c n book (sanitized sv body) in
      let unused = subst (Unused (article_file n)) (sym same) new in
      let s : Section = record {
        file = article_file n;
        title = chapter_title lib c sv n (extract_h_1_title body);
        body = images.out;
      } in
      record {
        section = s;
        is_chapter = record {
          body = body;
          cut = cut;
          is_file = refl;
          is_title = refl;
          content = extract_images-Extracts lib c n book (sanitized sv body);
        };
        appends =
            add_section-sections images.out _ (article_file n) css images.loop.book
              (article_file-IsFileName n) unused
            ∙ ap (λ ss. ss ++ s ∷ []) same;
      }

  -- The body of an article can be cut out.
  abbrev pub HasBody : EpubArticle → Type 0
  HasBody a = (body : Text) × (extract_body_content sv.to_lower a.html ≡ some body)

  -- A book came out, with these sections and then one for each article.
  pub record Filled (front : List Section) (n : ℕ) (articles : List EpubArticle)
      (o : Option lib.State) : Type 0 where
    pub book : lib.State
    pub filled : o ≡ some book
    pub chapters : List Section
    pub are_chapters : Chapters n articles chapters
    pub sections : laws.sections book ≡ front ++ chapters

  pub add_articles-Filled :
      (css : Text) (n : ℕ) (articles : List EpubArticle) (book : lib.State)
      → Below n (laws.sections book)
      → All HasBody articles
      → Filled (laws.sections book) n articles (add_articles lib c sv css n articles book)
  unfolding add_articles
  add_articles-Filled css n [] book b h = record {
    book = book;
    filled = refl;
    chapters = [];
    are_chapters = no_more n;
    sections = sym (append-nil (laws.sections book));
  }
  add_articles-Filled css n (a ∷ articles) book b ((body, h), hs) =
      let next = add_article lib c sv css n body book in
      let added = add_article-AddsChapter css n a body book h (b n (omega arith)) in
      let later =
        subst (Below (n + 1)) (sym added.appends)
          (Below-append n (laws.sections book) added.section added.is_chapter.is_file b) in
      let w = add_articles-Filled css (n + 1) articles next later hs in
      rw h (record {
        book = w.book;
        filled = w.filled;
        chapters = added.section ∷ w.chapters;
        are_chapters =
            chapter n a added.section articles w.chapters added.is_chapter w.are_chapters;
        sections =
            w.sections
            ∙ (ap (λ ss. ss ++ w.chapters) added.appends
                ∙ append_assoc (laws.sections book) (added.section ∷ []) w.chapters);
      })
