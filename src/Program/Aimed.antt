-- ===== src/Program/Aimed.antt =====
-- What `run` writes goes to the output of the configuration.
use deckle.Base.{
  true, ◌&&◌, Option, none, some, List, [], ◌∷◌, ◌≡◌, refl, Text, codes, ◌=?◌, one_of, Bool-cases,
  inl, inr, if◌then◌else◌,
}
use deckle.Cli.Run.{
  CliConfig, RunError, unknown_format, epub_needs_output, cannot_read, no_urls,
  no_articles_converted, process_failed, markdown_failed, panic, Action, fail, run_epub, book_title,
  is_empty, convert_article_to_markdown, markdown_config, markdown_parts, write_parts,
  write_article, run_markdown, write_combined, run_html, dispatch, run_collected, run_with,
  with_defaults, run,
}
use deckle.Cli.Run
use deckle.Cli.Urls.{Reader, Collected}
use deckle.Document.Body.{Combined, no_articles, document}
use deckle.Document.Byline.{EpubArticle}
use deckle.Fetch.Pool.{successes}

-- What is written goes to the output of the configuration, and a book is for the format epub.
abbrev pub Aimed : CliConfig → Action → Type 0
Aimed cfg (fail e) = Unit
Aimed cfg (Run.write_output path content) = path ≡ cfg.output
Aimed cfg (Run.build_epub articles title path style) =
    (path ≡ cfg.output) × ((cfg.format =? codes "epub") ≡ true)

default_is_epub :
    (f : Text)
    → ((if f =? [] then codes "markdown" else f) =? codes "epub") ≡ true
    → (f =? codes "epub") ≡ true
unfolding ◌=?◌
default_is_epub [] h = cc
default_is_epub (x ∷ f) h = h

module _ (open_file : Text → Option Reader) (to_lower : Text → Text)
    (process_url : CliConfig → Text → Text → Option EpubArticle)
    (to_markdown : Text → Option Text) where
  write_article-Aimed :
      (cfg : CliConfig) (md : Option (Option Text))
      → Aimed cfg (write_article open_file to_lower process_url to_markdown cfg md)
  unfolding write_article
  write_article-Aimed cfg none = tt
  write_article-Aimed cfg (some none) = tt
  write_article-Aimed cfg (some (some md)) = refl

  write_parts-Aimed :
      (cfg : CliConfig) (parts : Option (List Text))
      → Aimed cfg (write_parts open_file to_lower process_url to_markdown cfg parts)
  unfolding write_parts
  write_parts-Aimed cfg none = tt
  write_parts-Aimed cfg (some []) = tt
  write_parts-Aimed cfg (some (p ∷ parts)) = refl

  write_combined-Aimed :
      (cfg : CliConfig) (html : Option Combined)
      → Aimed cfg (write_combined open_file to_lower process_url to_markdown cfg html)
  unfolding write_combined
  write_combined-Aimed cfg none = tt
  write_combined-Aimed cfg (some no_articles) = tt
  write_combined-Aimed cfg (some (document html)) = refl

  -- One of the two ways through `runMarkdown` and `runHTML`
  one-Aimed :
      (cfg : CliConfig) (found : Option EpubArticle) (next : EpubArticle → Action)
      → ((a : EpubArticle) → Aimed cfg (next a))
      → Aimed cfg (elim found [ none ↦ fail process_failed | some a ↦ next a ])
  one-Aimed cfg none next h = tt
  one-Aimed cfg (some a) next h = h a

  several-Aimed :
      (cfg : CliConfig) (found : List EpubArticle) (next : EpubArticle → List EpubArticle → Action)
      → ((a : EpubArticle) (rest : List EpubArticle) → Aimed cfg (next a rest))
      → Aimed cfg (elim found [ [] ↦ fail no_articles_converted | a ∷ rest ↦ next a rest ])
  several-Aimed cfg [] next h = tt
  several-Aimed cfg (a ∷ rest) next h = h a rest

  run_epub-Aimed :
      (cfg : CliConfig) (urls : List Text) (txt : Text)
      → (cfg.format =? codes "epub") ≡ true
      → Aimed cfg (run_epub open_file to_lower process_url to_markdown cfg urls txt)
  unfolding run_epub
  run_epub-Aimed cfg urls txt is_epub =
      several-Aimed cfg (successes (process_url cfg []) urls)
        (λ a rest.
          Run.build_epub (a ∷ rest) (book_title cfg txt (a ∷ rest)) cfg.output cfg.cover_style)
        (λ a rest. (refl, is_epub))

  run_markdown-Aimed :
      (cfg : CliConfig) (urls : List Text)
      → Aimed cfg (run_markdown open_file to_lower process_url to_markdown cfg urls)
  unfolding run_markdown
  run_markdown-Aimed cfg [] = several-Aimed cfg _ _ (λ a rest. write_parts-Aimed cfg _)
  run_markdown-Aimed cfg (url ∷ []) = one-Aimed cfg _ _ (λ a. write_article-Aimed cfg _)
  run_markdown-Aimed cfg (u ∷ v ∷ urls) = several-Aimed cfg _ _ (λ a rest. write_parts-Aimed cfg _)

  run_html-Aimed :
      (cfg : CliConfig) (urls : List Text)
      → Aimed cfg (run_html open_file to_lower process_url to_markdown cfg urls)
  unfolding run_html
  run_html-Aimed cfg [] = several-Aimed cfg _ _ (λ a rest. write_combined-Aimed cfg _)
  run_html-Aimed cfg (url ∷ []) =
      one-Aimed cfg (process_url cfg cfg.title_override url)
        (λ a. Run.write_output cfg.output a.html) (λ a. refl)
  run_html-Aimed cfg (u ∷ v ∷ urls) = several-Aimed cfg _ _ (λ a rest. write_combined-Aimed cfg _)

  dispatch-Aimed :
      (cfg : CliConfig) (c : Collected)
      → Aimed cfg (dispatch open_file to_lower process_url to_markdown cfg c)
  unfolding dispatch
  dispatch-Aimed cfg c = elim (Bool-cases (cfg.format =? codes "epub")) [
    | inl e ↦ rw (e, Aimed) (run_epub-Aimed cfg c.urls c.txt_filename e)
    | inr e ↦
        rw (e, Aimed)
          (elim (Bool-cases (cfg.format =? codes "markdown")) [
            | inl e' ↦ rw (e', Aimed) (run_markdown-Aimed cfg c.urls)
            | inr e' ↦ rw (e', Aimed) (run_html-Aimed cfg c.urls)
          ])
  ]

  run_collected-Aimed :
      (cfg : CliConfig) (found : Option Collected)
      → Aimed cfg (run_collected open_file to_lower process_url to_markdown cfg found)
  unfolding run_collected
  run_collected-Aimed cfg none = tt
  run_collected-Aimed cfg (some c) = elim (Bool-cases (is_empty c.urls)) [
    | inl e ↦ rw (e, Aimed) tt
    | inr e ↦ rw (e, Aimed) (dispatch-Aimed cfg c)
  ]

  run_with-Aimed :
      (cfg : CliConfig) → Aimed cfg (run_with open_file to_lower process_url to_markdown cfg)
  unfolding run_with
  run_with-Aimed cfg = elim (Bool-cases (one_of cfg.format ("html" ∷ "markdown" ∷ "epub" ∷ []))) [
    | inr e ↦ rw (e, Aimed) tt
    | inl e ↦
        rw (e, Aimed)
          (elim (Bool-cases (cfg.format =? codes "epub" && cfg.output =? [])) [
            | inl e' ↦ rw (e', Aimed) tt
            | inr e' ↦ rw (e', Aimed) (run_collected-Aimed cfg _)
          ])
  ]

  -- The defaults change neither the output nor whether the format is epub.
  defaults-Aimed : (cfg : CliConfig) (a : Action) → Aimed (with_defaults cfg) a → Aimed cfg a
  unfolding with_defaults
  defaults-Aimed cfg (fail e) h = tt
  defaults-Aimed cfg (Run.write_output path content) h = h
  defaults-Aimed cfg (Run.build_epub articles title path style) h =
      (h.0, default_is_epub cfg.format h.1)

  pub run-Aimed : (cfg : CliConfig) → Aimed cfg (run open_file to_lower process_url to_markdown cfg)
  unfolding run
  run-Aimed cfg = defaults-Aimed cfg _ (run_with-Aimed (with_defaults cfg))
