-- ===== src/Imaging/Article/Skipped.antt =====
-- Without downloads of images, `processArticleImages` does not use the web.
use mathlib.Core.Path.{fun_ext}
use deckle.Base.{true, ◌≡◌, refl, ap, ◌∙◌, Text, if◌then◌else◌}
use deckle.Cli.Run.{OptimizeOpts}
use deckle.Imaging.Embed.{fetch_and_embed}
use deckle.Imaging.Article.{optimize_match, picture_uri, collapse_match, process_article_images}
use deckle.Imaging.Download.{Web}
use deckle.Imaging.Optimize.{Codecs, Formats}
use deckle.Imaging.Patterns.{promote_lazy_src, picture_re, data_uri_re}
use deckle.Regex.Pieces.{Piece, replace_all}

module _ (c : Codecs) (fm : Formats c) (opts : OptimizeOpts) where
  picture_uri_skipped :
      (web other : Web) (t : Text)
      → opts.skip_image_fetch ≡ true
      → picture_uri c fm opts web t ≡ picture_uri c fm opts other t
  unfolding picture_uri
  picture_uri_skipped web other t h = rw h refl

  collapse_match_skipped :
      (web other : Web) (p : Piece)
      → opts.skip_image_fetch ≡ true
      → collapse_match c fm opts web p ≡ collapse_match c fm opts other p
  unfolding collapse_match
  collapse_match_skipped web other p h =
      rw (picture_uri_skipped web other p.whole h, collapse_match) refl

  -- If images are not to be fetched, the result is the same whatever the web answers.
  pub process_article_images_skipped :
      (web other : Web) (html : Text)
      → opts.skip_image_fetch ≡ true
      → process_article_images c fm opts web html ≡ process_article_images c fm opts other html
  unfolding process_article_images
  process_article_images_skipped web other html h =
      let same : collapse_match c fm opts web ≡ collapse_match c fm opts other =
        fun_ext (λ p. collapse_match_skipped web other p h) in
      let fetched : Web → Text = λ w.
        if opts.skip_image_fetch
        then promote_lazy_src html
        else fetch_and_embed w c (promote_lazy_src html) in
      let unfetched : fetched web ≡ fetched other = rw h refl in
      ap
        (λ f.
          replace_all data_uri_re (optimize_match c fm opts)
            (replace_all picture_re f (fetched web)))
        same
      ∙ ap
          (λ t.
            replace_all data_uri_re (optimize_match c fm opts)
              (replace_all picture_re (collapse_match c fm opts other) t))
          unfetched
