-- ===== src/Program/Delivery.antt =====
-- What the process leaves when its exit code is 0.
use deckle.Base.{
  ℕ, true, false, Option, List, [], ◌≡◌, refl, arith, Text, codes, ◌=?◌, Bool-cases, inl, inr,
}
use deckle.Cli.Flags.{Flags, Settings, settings_of, config_of}
use deckle.Cli.Run.{
  CliConfig, RunError, unknown_format, epub_needs_output, cannot_read, no_urls,
  no_articles_converted, process_failed, markdown_failed, panic, Action, fail, run,
}
use deckle.Cli.Run
use deckle.Cli.Run.Title.{is_fail, Checked, run-Checked}
use deckle.Document.Byline.{EpubArticle}
use deckle.Epub.Assembly.{Services, Outcome, cannot_create, cannot_write, written, build_epub}
use deckle.Epub.Assembly
use deckle.Epub.Library.{EpubLibrary}
use deckle.Imaging.Optimize.{Codecs}
use deckle.Program.{Machine, Left, in_file, printed, bound, write_output, exit_of, perform, main}
use deckle.Program.Aimed.{Aimed, run-Aimed}

not_code_1 : ¬ (◌≡◌ {A = ℕ} 1 0)
not_code_1 h = omega arith

not_code_2 : ¬ (◌≡◌ {A = ℕ} 2 0)
not_code_2 h = omega arith

module _ (lib : EpubLibrary) (machine : Machine) (c : Codecs) (sv : Services)
    (process_url : Settings → CliConfig → Text → Text → Option EpubArticle)
    (to_markdown : Text → Option Text) where
  -- Where a text or a book has been left: in the output file, or on standard output if none is set;
  -- a book is one that `buildEpub` has written to the output file, for the format epub.
  pub data Delivers (cfg : CliConfig) : Left lib.State → Type 0 where
    to_file :
        (content : Text)
        → (cfg.output =? []) ≡ false
        → machine.write_file cfg.output content ≡ true
        → Delivers cfg (in_file cfg.output content)
    to_stdout :
        (content : Text)
        → (cfg.output =? []) ≡ true
        → machine.write_stdout content ≡ true
        → Delivers cfg (printed content)
    to_book :
        (articles : List EpubArticle) (title style : Text) (book : lib.State)
        → (cfg.format =? codes "epub") ≡ true
        → build_epub lib c sv articles title cfg.output style ≡ written book
        → Delivers cfg (bound book)

  write_output-Delivers :
      (cfg : CliConfig) (content : Text)
      → (write_output lib machine cfg.output content).code ≡ 0
      → Delivers cfg (write_output lib machine cfg.output content).left
  unfolding write_output
  write_output-Delivers cfg content h = elim (Bool-cases (cfg.output =? [])) [
    | inl e ↦ elim (Bool-cases (machine.write_stdout content)) [
      | inl w ↦ rw (e, w) (to_stdout content e w)
      | inr w ↦ absurd (not_code_1 (rw (e, w) at h))
    ]
    | inr e ↦ elim (Bool-cases (machine.write_file cfg.output content)) [
      | inl w ↦ rw (e, w) (to_file content e w)
      | inr w ↦ absurd (not_code_1 (rw (e, w) at h))
    ]
  ]

  exit_of-Delivers :
      (cfg : CliConfig) (articles : List EpubArticle) (title style : Text) (o : Outcome lib.State)
      → (cfg.format =? codes "epub") ≡ true
      → build_epub lib c sv articles title cfg.output style ≡ o
      → (exit_of lib machine o).code ≡ 0
      → Delivers cfg (exit_of lib machine o).left
  unfolding exit_of
  exit_of-Delivers cfg articles title style (written book) f e h =
      to_book articles title style book f e
  exit_of-Delivers cfg articles title style (cannot_write book) f e h = absurd (not_code_1 h)
  exit_of-Delivers cfg articles title style cannot_create f e h = absurd (not_code_1 h)
  exit_of-Delivers cfg articles title style Assembly.panic f e h = absurd (not_code_2 h)

  perform-Delivers :
      (cfg : CliConfig) (a : Action)
      → Aimed cfg a
      → (perform lib machine c sv process_url to_markdown a).code ≡ 0
      → (is_fail a ≡ false) × Delivers cfg (perform lib machine c sv process_url to_markdown a).left
  unfolding perform
  perform-Delivers cfg (Run.write_output path content) aimed h =
      (refl, rw aimed (write_output-Delivers cfg content (rw aimed at h)))
  perform-Delivers cfg (Run.build_epub articles title path style) aimed h = (
    refl,
    rw (aimed.0) (exit_of-Delivers cfg articles title style _ aimed.1 refl (rw (aimed.0) at h)),
  )
  perform-Delivers cfg (fail panic) aimed h = absurd (not_code_2 h)
  perform-Delivers cfg (fail _) aimed h = absurd (not_code_1 h)

  -- If the exit code is 0, then `run` has passed its checks of the format, the output and the sources
  -- of URLs, and what the process leaves is a text that has been written to the file that `-o`
  -- names, or to standard output without it, or a book that has been written to that file, for the
  -- format epub.
  pub main-Delivers :
      (flags : Flags) (args : List Text)
      → (main lib machine c sv process_url to_markdown flags args).code ≡ 0
      → Checked machine.open_file (config_of flags machine.stdin args)
        × Delivers
            (config_of flags machine.stdin args)
            (main lib machine c sv process_url to_markdown flags args).left
  unfolding main
  main-Delivers flags args h =
      let cfg = config_of flags machine.stdin args in
      let process = process_url (settings_of flags) in
      let (goes, delivers) =
        perform-Delivers cfg _ (run-Aimed machine.open_file sv.to_lower process to_markdown cfg)
          h in
      (run-Checked machine.open_file sv.to_lower process to_markdown cfg goes, delivers)
