-- ===== src/Program/Tests.antt =====
-- A run of the program that writes one article to a file.
use deckle.Base.Int.{pos}
use deckle.Base.{
  ℕ, true, false, Option, none, some, List, [], ◌∷◌, ◌≡◌, refl, Text, codes, ◌=?◌, one_of,
  has_suffix,
}
use deckle.Cli.Flags.{Flags, Settings, format_of, config_of}
use deckle.Cli.Run.{CliConfig, run, run_with, with_defaults, run_collected, dispatch, run_html}
use deckle.Cli.Run.Title.{Checked}
use deckle.Cli.Urls.{collect_all_urls, collect_input, collect_urls, collect_from, read_stdin}
use deckle.Document.Byline.{EpubArticle}
use deckle.Epub.Assembly.{Services}
use deckle.Epub.Library.{EpubLibrary}
use deckle.Imaging.Optimize.{Codecs}
use deckle.Program.{Machine, in_file, write_output, perform, main}
use deckle.Program.Delivery.{Delivers, main-Delivers}

abbrev library : EpubLibrary
library = record {
  State = Text;
  new_epub = λ t. some t;
  set_lang = λ t e. e;
  set_author = λ t e. e;
  add_css = λ s f e. record { book = e; path = some f };
  add_image = λ s f e. record { book = e; path = none };
  set_cover = λ i c e. e;
  add_section = λ b t f c e. record { book = f; path = some f };
  can_write = λ p e. false;
}

abbrev codecs : Codecs
codecs = record {
  Color = ℕ;
  gray_of = λ x. x;
  over_white = λ x. x;
  Float = ℕ;
  of_int = λ n. n;
  quotient = λ a b. b;
  product = λ a b. a;
  round_to_int = λ n. n;
  encode_base_64 = λ t. t;
  decode_std = λ t. none;
  decode_raw = λ t. none;
  gif_frames = λ t. none;
}

abbrev services : Services
services = record {
  studio = record {
    load_faces = none;
    sha_256 = λ t i. i;
    to_upper = λ t. t;
    date = [];
    encode_png = λ inks. none;
  };
  to_lower = λ t. t;
  to_runes = λ t. t;
  from_runes = λ t. t;
  floats = record {
    Float = ℕ;
    parse_float = λ t. none;
    is_negative = λ f. true;
    round_to_int = pos;
  };
  parse = λ t. none;
  escape = λ t. t;
}

abbrev machine : Machine
machine = record {
  open_file = λ path. none;
  stdin = none;
  write_file = λ path content. true;
  write_stdout = λ content. false;
}

abbrev article : EpubArticle
article = record {
  html = codes "<html></html>";
  title = codes "T";
  source = record { url = []; byline = []; site_name = []; published_time = none };
}

abbrev process : Settings → CliConfig → Text → Text → Option EpubArticle
process settings cfg title url = some article

abbrev flags : Flags
flags = record {
  max_width = 800;
  quality = 60;
  grayscale = false;
  output = codes "a.html";
  title_override = [];
  timeout = 30;
  user_agent = codes "deckle";
  output_fmt = codes "html";
  input_file = [];
  cover_style = codes "none";
  concurrency = 5;
  max_resp_size = 1000;
  proxy = [];
  epub_mode = false;
  markdown_mode = false;
}

abbrev url : List Text
url = codes "https://h/a" ∷ []

one_article :
    main library machine codecs services process (λ html. none) flags url
    ≡ record { code = 0; left = in_file (codes "a.html") (codes "<html></html>") }
unfolding main perform write_output run with_defaults run_with run_collected dispatch run_html
    config_of format_of collect_all_urls collect_input collect_urls collect_from read_stdin
    has_suffix one_of ◌=?◌
one_article = refl

no_error : (main library machine codecs services process (λ html. none) flags url).code ≡ 0
no_error = rw one_article refl

main-Delivers_example :
    Checked machine.open_file (config_of flags machine.stdin url)
    × Delivers library machine codecs services process
        (λ html. none)
        (config_of flags machine.stdin url)
        (main library machine codecs services process (λ html. none) flags url).left
main-Delivers_example =
    main-Delivers library machine codecs services process (λ html. none) flags url no_error
