-- ===== src/Process/Offline.antt =====
-- Markdown is made without downloading images.
use mathlib.Core.Path.{fun_ext}
use deckle.Base.{
  ◌∙◌, Option-cases, ◌⊎◌, inl, inr, Option, none, some, ◌>>=◌, List, [], ◌∷◌, ◌≡◌, refl, ap, Text,
  true,
}
use deckle.Cli.Run.{
  CliConfig, run_markdown, markdown_config, convert_article_to_markdown, markdown_parts,
  write_article, write_parts,
}
use deckle.Cli.Urls.{Reader}
use deckle.Document.Byline.{EpubArticle}
use deckle.Fetch.Pool.{successes}
use deckle.Http.Page.{Internet, fetch_html}
use deckle.Imaging.Article.Skipped.{process_article_images_skipped}
use deckle.Imaging.Download.{Web}
use deckle.Imaging.Optimize.{Codecs, Formats}
use deckle.Imaging.Patterns.{promote_lazy_src}
use deckle.Process.{TextServices, Readable, extract_article, finished, process_url}

module _ (ts : TextServices) (net : Internet) (c : Codecs) (fm : Formats c) where
  finished_offline :
      (web other : Web) (cfg : CliConfig) (title raw_url : Text) (a : Readable)
      → cfg.opts.skip_image_fetch ≡ true
      → finished ts net c fm web cfg title raw_url a
        ≡ finished ts net c fm other cfg title raw_url a
  unfolding finished
  finished_offline web other cfg title raw_url a h =
      rw (process_article_images_skipped c fm cfg.opts web other a.content h) refl

  process_url_offline :
      (web other : Web) (cfg : CliConfig) (title raw_url : Text)
      → cfg.opts.skip_image_fetch ≡ true
      → process_url ts net c fm web cfg title raw_url
        ≡ process_url ts net c fm other cfg title raw_url
  unfolding process_url
  process_url_offline web other cfg title raw_url h =
      let same : finished ts net c fm web cfg title raw_url
          ≡ finished ts net c fm other cfg title raw_url =
        fun_ext (λ a. finished_offline web other cfg title raw_url a h) in
      ap
        (λ f. do
          page ← fetch_html net raw_url cfg.user_agent
          a ← extract_article ts (promote_lazy_src page.html) page.url
          some (f a))
        same

List-cases :
    (ts : List EpubArticle)
    → (ts ≡ []) ⊎ ((a : EpubArticle) × (rest : List EpubArticle) × (ts ≡ a ∷ rest))
List-cases [] = inl refl
List-cases (a ∷ rest) = inr (a, rest, refl)

-- The writer of Markdown asks for articles with one configuration only.
module _ (open_file : Text → Option Reader) (to_lower : Text → Text)
    (to_markdown : Text → Option Text) (p q : CliConfig → Text → Text → Option EpubArticle) where
  convert-same :
      (a : EpubArticle)
      → convert_article_to_markdown open_file to_lower p to_markdown a
        ≡ convert_article_to_markdown open_file to_lower q to_markdown a
  unfolding convert_article_to_markdown
  convert-same a = refl

  markdown_parts-same :
      (articles : List EpubArticle)
      → markdown_parts open_file to_lower p to_markdown articles
        ≡ markdown_parts open_file to_lower q to_markdown articles
  unfolding markdown_parts
  markdown_parts-same [] = refl
  markdown_parts-same (a ∷ articles) = rw (convert-same a, markdown_parts-same articles) refl

  write_article-same :
      (cfg : CliConfig) (o : Option (Option Text))
      → write_article open_file to_lower p to_markdown cfg o
        ≡ write_article open_file to_lower q to_markdown cfg o
  unfolding write_article
  write_article-same cfg none = refl
  write_article-same cfg (some none) = refl
  write_article-same cfg (some (some md)) = refl

  write_parts-same :
      (cfg : CliConfig) (o : Option (List Text))
      → write_parts open_file to_lower p to_markdown cfg o
        ≡ write_parts open_file to_lower q to_markdown cfg o
  unfolding write_parts
  write_parts-same cfg none = refl
  write_parts-same cfg (some []) = refl
  write_parts-same cfg (some (t ∷ parts)) = refl

  single-same :
      (cfg : CliConfig) (url : Text)
      → p (markdown_config open_file to_lower p to_markdown cfg)
        ≡ q (markdown_config open_file to_lower q to_markdown cfg)
      → run_markdown open_file to_lower p to_markdown cfg (url ∷ [])
        ≡ run_markdown open_file to_lower q to_markdown cfg (url ∷ [])
  unfolding run_markdown
  single-same cfg url h =
      let same = ap (λ f. f cfg.title_override url) h in
      elim (Option-cases
        (q (markdown_config open_file to_lower q to_markdown cfg) cfg.title_override url)) [
          | inl e ↦ rw (same, e, run_markdown) refl
          | inr (a, e) ↦
              rw (same, e, run_markdown)
                (ap (write_article open_file to_lower p to_markdown cfg) (convert-same a)
                  ∙ write_article-same cfg _)
        ]

  several-same :
      (cfg : CliConfig) (u v : Text) (urls : List Text)
      → p (markdown_config open_file to_lower p to_markdown cfg)
        ≡ q (markdown_config open_file to_lower q to_markdown cfg)
      → run_markdown open_file to_lower p to_markdown cfg (u ∷ v ∷ urls)
        ≡ run_markdown open_file to_lower q to_markdown cfg (u ∷ v ∷ urls)
  unfolding run_markdown
  several-same cfg u v urls h =
      let same = ap (λ f. successes (f []) (u ∷ v ∷ urls)) h in
      elim (List-cases
        (successes (q (markdown_config open_file to_lower q to_markdown cfg) []) (u ∷ v ∷ urls))) [
          | inl e ↦ rw (same, e, run_markdown) refl
          | inr (a, rest, e) ↦
              rw (same, e, run_markdown)
                (ap (write_parts open_file to_lower p to_markdown cfg)
                    (markdown_parts-same (a ∷ rest))
                  ∙ write_parts-same cfg _)
        ]

  run_markdown-cong :
      (cfg : CliConfig) (urls : List Text)
      → p (markdown_config open_file to_lower p to_markdown cfg)
        ≡ q (markdown_config open_file to_lower q to_markdown cfg)
      → run_markdown open_file to_lower p to_markdown cfg urls
        ≡ run_markdown open_file to_lower q to_markdown cfg urls
  unfolding run_markdown successes
  run_markdown-cong cfg [] h = refl
  run_markdown-cong cfg (url ∷ []) h = single-same cfg url h
  run_markdown-cong cfg (u ∷ v ∷ urls) h = several-same cfg u v urls h

module _ (open_file : Text → Option Reader) (to_markdown : Text → Option Text) (ts : TextServices)
    (net : Internet) (c : Codecs) (fm : Formats c) where
  -- What is written as Markdown for the URLs is the same whatever the web answers to requests for
  -- images.
  pub run_markdown_offline :
      (web other : Web) (cfg : CliConfig) (urls : List Text)
      → run_markdown open_file ts.to_lower (process_url ts net c fm web) to_markdown cfg urls
        ≡ run_markdown open_file ts.to_lower (process_url ts net c fm other) to_markdown cfg urls
  run_markdown_offline web other cfg urls =
      run_markdown-cong open_file ts.to_lower to_markdown _ _ cfg urls (
        fun_ext
          (λ title. fun_ext (λ url. process_url_offline ts net c fm web other _ title url refl)))
