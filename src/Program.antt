-- ===== src/Program.antt =====
-- `main` and `writeOutput` of main.go: from the flags to what the process leaves and its exit code.
-- Messages are left out.
pub mod Aimed
pub mod Delivery
mod Tests
use deckle.Base.{ℕ, Bool, true, false, not, Option, List, [], Text, ◌=?◌, if◌then◌else◌}
use deckle.Cli.Flags.{Flags, Settings, settings_of, config_of}
use deckle.Cli.Run.{CliConfig, RunError, panic, Action, fail, run}
use deckle.Cli.Run
use deckle.Cli.Urls.{Reader}
use deckle.Document.Byline.{EpubArticle}
use deckle.Epub.Assembly.{Services, Outcome, cannot_create, cannot_write, written, build_epub}
use deckle.Epub.Assembly
use deckle.Epub.Library.{EpubLibrary}
use deckle.Imaging.Optimize.{Codecs}

-- The files, standard input if it is a pipe, and whether a write to a file or to standard output
-- goes well
pub record Machine : Type 0 where
  pub open_file : Text → Option Reader
  pub stdin : Option Reader
  pub write_file : Text → Text → Bool
  pub write_stdout : Text → Bool

-- What the process leaves: a file, a text on standard output, or a book
pub data Left (State : Type 0) : Type 0 where
  nothing : Left State
  in_file : Text → Text → Left State
  printed : Text → Left State
  bound : State → Left State

pub record Exit (State : Type 0) : Type 0 where
  pub code : ℕ
  pub left : Left State

module _ (lib : EpubLibrary) (machine : Machine) where
  abbrev exits : ℕ → Left lib.State → Exit lib.State
  exits code left = record { code = code; left = left }

  -- `writeOutput`, and the exit of `main` behind it
  unfoldable pub write_output : Text → Text → Exit lib.State
  write_output path content =
      if not (path =? [])
      then (if machine.write_file path content
          then exits 0 (in_file path content)
          else exits 1 nothing)
      else if machine.write_stdout content
      then exits 0 (printed content)
      else exits 1 nothing

  -- The exit of `main` behind `buildEpub`
  unfoldable pub exit_of : Outcome lib.State → Exit lib.State
  exit_of (written book) = exits 0 (bound book)
  exit_of (cannot_write book) = exits 1 nothing
  exit_of cannot_create = exits 1 nothing
  exit_of Assembly.panic = exits 2 nothing

  module _ (c : Codecs) (sv : Services)
      (process_url : Settings → CliConfig → Text → Text → Option EpubArticle)
      (to_markdown : Text → Option Text) where
    unfoldable pub perform : Action → Exit lib.State
    perform (Run.write_output path content) = write_output path content
    perform (Run.build_epub articles title path style) =
        exit_of (build_epub lib c sv articles title path style)
    perform (fail panic) = exits 2 nothing
    perform (fail e) = exits 1 nothing

    -- `main`, with the arguments behind the flags
    unfoldable pub main : Flags → List Text → Exit lib.State
    main flags args = perform (
        run machine.open_file sv.to_lower (process_url (settings_of flags)) to_markdown
          (config_of flags machine.stdin args))
