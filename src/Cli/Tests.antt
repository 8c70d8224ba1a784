-- ===== src/Cli/Tests.antt =====
-- A list of URLs, a book title, and a run of the program.
use deckle.Base.{
  List, true, false, Option, none, some, [], ◌∷◌, ◌≡◌, refl, arith, Text, codes, ◌=?◌, one_of,
  has_prefix, has_suffix, trim_suffix,
}
use deckle.Base.Utf8.{trim_bytes}
use deckle.Cli.Lines.{Lists, written, read_url_lines-written}
use deckle.Cli.Run.{
  CliConfig, book_title, run, run_with, with_defaults, run_collected, dispatch, run_html,
}
use deckle.Cli.Run.Title.{first_of_texts, book_title_lem, is_fail}
use deckle.Cli.Urls.{
  Reader, url_lines, read_url_lines, collect_all_urls, collect_input, collect_urls, collect_from,
  read_stdin, after_slash,
}
use deckle.Document.Byline.{EpubArticle}

abbrev article : Text → EpubArticle
article t = record {
  html = codes "<html>";
  title = t;
  source = record { url = t; byline = []; site_name = []; published_time = none };
}

abbrev config : CliConfig
config = record {
  opts = record { max_width = 800; quality = 60; grayscale = true; skip_image_fetch = false };
  output = codes "out/book.epub";
  title_override = [];
  timeout = 30;
  user_agent = codes "agent";
  format = codes "html";
  cover_style = codes "pattern";
  concurrency = 5;
  input_file = [];
  stdin_reader = none;
  args = codes "https://a" ∷ [];
}

abbrev no_files : Text → Option Reader
no_files path = none

abbrev lower : Text → Text
lower t = t

abbrev process : CliConfig → Text → Text → Option EpubArticle
process cfg title url = some (article url)

abbrev no_markdown : Text → Option Text
no_markdown t = none

two_urls :
    url_lines (codes "# news" ∷ codes " https://a " ∷ [] ∷ codes "https://b" ∷ [])
    ≡ codes "https://a" ∷ codes "https://b" ∷ []
unfolding url_lines trim_bytes has_prefix ◌=?◌
two_urls = refl

read_url_lines-written_example :
    (urls : List Text) × Lists (codes "# news" ∷ codes "https://a\r" ∷ []) urls
    × (read_url_lines
          (record { content = written (codes "# news" ∷ codes "https://a\r" ∷ []); fails = false })
        ≡ some urls)
read_url_lines-written_example =
    read_url_lines-written (codes "# news" ∷ codes "https://a\r" ∷ []) false
      ((refl, omega arith), ((refl, omega arith), tt))

book_title_lem_example :
    book_title config [] (article [] ∷ [])
    ≡ first_of_texts []
        ([] ∷ [] ∷ after_slash (trim_suffix (codes "out/book.epub") (codes ".epub")) ∷ [])
book_title_lem_example = book_title_lem config [] (article [] ∷ [])

runs : is_fail (run no_files lower process no_markdown config) ≡ false
unfolding run run_with with_defaults run_collected dispatch run_html collect_all_urls collect_input
    collect_urls collect_from read_stdin has_suffix one_of ◌=?◌
runs = refl
