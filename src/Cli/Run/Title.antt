-- ===== src/Cli/Run/Title.antt =====
-- The book title, against the order of preference that the documentation gives, and the guards of
-- `run`.
use deckle.Base.{
  Bool, true, false, ◌&&◌, ◌||◌, Option, none, some, List, [], ◌∷◌, ◌≡◌, ◌≢◌, refl, arith, Text,
  codes, ◌=?◌, =?_iff, one_of, trim_suffix, if◌then◌else◌, Bool-cases, inl, inr,
}
use deckle.Cli.Run.{
  CliConfig, Action, fail, book_title, articles_title, run, run_with, with_defaults, run_collected,
}
use deckle.Cli.Urls.{Reader, Collected, after_slash, collect_all_urls}
use deckle.Document.Byline.{EpubArticle}

-- The first text that is not empty, or the last one.
abbrev pub first_of_texts : Text → List Text → Text
first_of_texts t [] = t
first_of_texts t (u ∷ us) = if t =? [] then first_of_texts u us else t

-- The book title is the first that is not empty of the -title flag, the name of the .txt file, the
-- title of the first article (with " & more" if there are several), and the name of the output
-- file.
pub book_title_lem :
    (cfg : CliConfig) (txt : Text) (articles : List EpubArticle)
    → book_title cfg txt articles
      ≡ first_of_texts cfg.title_override (
          txt ∷ articles_title articles ∷ after_slash (trim_suffix cfg.output (codes ".epub")) ∷ [])
unfolding book_title
book_title_lem cfg txt articles = ground (arith, =?_iff txt [], =?_iff cfg.title_override [])

abbrev pub is_fail : Action → Bool
is_fail (fail e) = true
is_fail a = false

from_default :
    (f d : Text) (empty : Bool) (p : Text → Bool)
    → p (if empty then d else f) ≡ true
    → (empty || p f) ≡ true
from_default f d true p h = refl
from_default f d false p h = h

nil_epub : (b : Bool) → ([] =? codes "epub" && b) ≡ false
unfolding ◌=?◌
nil_epub b = refl

epub_output :
    (f d : Text) (no_output : Bool)
    → ((f =? []) ≡ true → f ≡ [])
    → ((if f =? [] then d else f) =? codes "epub" && no_output) ≡ false
    → (f =? codes "epub" && no_output) ≡ false
epub_output f d no_output e h = elim (Bool-cases (f =? [])) [
  | inl empty ↦ rw (e empty) (nil_epub no_output)
  | inr other ↦ rw other at h
]

-- What `run` has checked when it does not fail: the format is one of the three (or empty, for
-- markdown), an epub has an output file, and the sources could be read and gave a URL.
pub record Checked (open_file : Text → Option Reader) (cfg : CliConfig) : Type 0 where
  pub known_format :
      (cfg.format =? [] || one_of cfg.format ("html" ∷ "markdown" ∷ "epub" ∷ [])) ≡ true
  pub has_output : (cfg.format =? codes "epub" && cfg.output =? []) ≡ false
  pub collected : Collected
  pub reads : collect_all_urls open_file cfg.input_file cfg.args cfg.stdin_reader ≡ some collected
  pub some_url : collected.urls ≢ []

module _ (open_file : Text → Option Reader) (to_lower : Text → Text)
    (process_url : CliConfig → Text → Text → Option EpubArticle) (to_markdown : Text → Option Text)
    (cfg : CliConfig) where
  run_collected-urls :
      (cfg : CliConfig) (found : Option Collected)
      → is_fail (run_collected open_file to_lower process_url to_markdown cfg found) ≡ false
      → (c : Collected) × (found ≡ some c) × (c.urls ≢ [])
  unfolding run_collected
  run_collected-urls cfg none h = cc
  run_collected-urls cfg (some c) h = (c, refl, λ e. ground arith)

  run_with-checks :
      (cfg : CliConfig)
      → is_fail (run_with open_file to_lower process_url to_markdown cfg) ≡ false
      → (one_of cfg.format ("html" ∷ "markdown" ∷ "epub" ∷ []) ≡ true)
        × ((cfg.format =? codes "epub" && cfg.output =? []) ≡ false)
        × (is_fail (
              run_collected open_file to_lower process_url to_markdown cfg
                (collect_all_urls open_file cfg.input_file cfg.args cfg.stdin_reader))
            ≡ false)
  unfolding run_with
  run_with-checks cfg h = ground arith

  -- If `run` does not fail, the format is empty or one of the three, an epub has an output file, and
  -- the sources of URLs could all be read and gave at least one URL; whatever the work on the URLs does.
  pub run-Checked :
      is_fail (run open_file to_lower process_url to_markdown cfg) ≡ false → Checked open_file cfg
  unfolding run with_defaults
  run-Checked h =
      let (known, output, going) = run_with-checks (with_defaults cfg) h in
      let (c, reads, nonempty) = run_collected-urls (with_defaults cfg) _ going in
      record {
        known_format =
            from_default cfg.format _ (cfg.format =? [])
              (λ f. one_of f ("html" ∷ "markdown" ∷ "epub" ∷ [])) known;
        has_output = epub_output cfg.format _ _ (=?_iff cfg.format []).0 output;
        collected = c;
        reads = reads;
        some_url = nonempty;
      }
