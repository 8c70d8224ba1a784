-- ===== src/Epub/Command.antt =====
-- `runEpub` of main.go together with `buildEpub`: from the URLs to the sections of the book.
use deckle.Base.{Option, none, some, List, [], ◌∷◌, ◌≡◌, ◌≢◌, refl, sym, Text, length, All}
use deckle.Cli.Run.{CliConfig, Action, fail, write_output, run_epub, book_title}
use deckle.Cli.Run
use deckle.Cli.Urls.{Reader}
use deckle.Document.Byline.{EpubArticle}
use deckle.Document.Total.{extract_body_content_total}
use deckle.Epub.Assembly.{Services, Outcome, build_epub}
use deckle.Epub.Assembly.Chapters.{HasBody}
use deckle.Epub.Assembly.Sections.{Written, build_epub-Written}
use deckle.Epub.Library.{EpubLibrary, SectionLaws}
use deckle.Fetch.Order.{gather-Reach}
use deckle.Fetch.Pool.{Worker, Reach, started, IsDone, gather, successes}
use deckle.Imaging.Optimize.{Codecs}

module _ (lib : EpubLibrary) (laws : SectionLaws lib) (c : Codecs) (sv : Services) where
  -- `runEpub` ends with the call of `buildEpub`, if it gets there.
  unfoldable pub performed : Action → Option (Outcome lib.State)
  performed (Run.build_epub articles title path style) =
      some (build_epub lib c sv articles title path style)
  performed (fail e) = none
  performed (write_output path text) = none

  -- `strings.ToLower` keeps the length of the page.
  abbrev pub KeepsLength : EpubArticle → Type 0
  KeepsLength a = length (sv.to_lower a.html) ≡ length a.html

  all-HasBody :
      (articles : List EpubArticle)
      → All KeepsLength articles
      → All (HasBody lib laws c sv) articles
  all-HasBody [] h = tt
  all-HasBody (a ∷ articles) (h, hs) =
      (extract_body_content_total sv.to_lower a.html h, all-HasBody articles hs)

  -- `buildEpub` is called, and ends as it does with a section for each of the articles.
  pub record Makes (articles : List EpubArticle) (action : Action) : Type 0 where
    pub outcome : Outcome lib.State
    pub calls : performed action ≡ some outcome
    pub written : Written lib laws c sv articles outcome

module _ (lib : EpubLibrary) (laws : SectionLaws lib) (c : Codecs) (sv : Services)
    (open_file : Text → Option Reader) (process_url : CliConfig → Text → Text → Option EpubArticle)
    (to_markdown : Text → Option Text) where
  book-Makes :
      (cfg : CliConfig) (urls : List Text) (txt_filename : Text) (articles : List EpubArticle)
      → All (KeepsLength lib laws c sv) articles
      → ((title : Text) → (book : lib.State) × (lib.new_epub title ≡ some book))
      → articles ≢ []
      → successes (process_url cfg []) urls ≡ articles
      → Makes lib laws c sv articles
          (run_epub open_file sv.to_lower process_url to_markdown cfg urls txt_filename)
  unfolding run_epub performed
  book-Makes cfg urls txt_filename [] lowers opens some_left h = absurd (some_left refl)
  book-Makes cfg urls txt_filename (a ∷ rest) lowers opens some_left h =
      let (book, opened) = opens (book_title cfg txt_filename (a ∷ rest)) in
      let bodies = all-HasBody lib laws c sv (a ∷ rest) lowers in
      rw (h, run_epub)
        (record {
          outcome = _;
          calls = refl;
          written =
              build_epub-Written lib laws c sv (a ∷ rest) (book_title cfg txt_filename (a ∷ rest))
                cfg.output cfg.cover_style book opened bodies;
        })

  -- However the goroutines for the URLs are scheduled: if they have got an article at all, lowering
  -- keeps the length of the pages that they have got, and the library can open a book, then `runEpub`
  -- does not panic. The articles that they have got are those that `processURL` gives, in the order of
  -- the URLs, and the sections of the book are the cover, if any, the table of contents and the content
  -- of each of these articles, in this order.
  pub run_epub-Makes :
      (cfg : CliConfig) (urls : List Text) (txt_filename : Text) (ws : List (Worker EpubArticle))
      → All (KeepsLength lib laws c sv) (gather ws)
      → ((title : Text) → (book : lib.State) × (lib.new_epub title ≡ some book))
      → Reach cfg.concurrency (started (process_url cfg []) urls) ws
      → IsDone ws
      → gather ws ≢ []
      → (gather ws ≡ successes (process_url cfg []) urls)
        × Makes lib laws c sv
            (gather ws)
            (run_epub open_file sv.to_lower process_url to_markdown cfg urls txt_filename)
  run_epub-Makes cfg urls txt_filename ws lowers opens r d some_left =
      let in_order = gather-Reach (process_url cfg []) urls cfg.concurrency ws r d in
      (in_order, book-Makes cfg urls txt_filename (gather ws) lowers opens some_left (sym in_order))
