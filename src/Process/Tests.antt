-- ===== src/Process/Tests.antt =====
-- One page on the web, and an image that can be had or not.
use deckle.Base.{
  ℕ, true, false, none, some, [], ◌∷◌, ◌≡◌, refl, Option, Text, codes, trim_suffix, has_suffix,
}
use deckle.Cli.Run.{CliConfig, run_markdown}
use deckle.Cli.Urls.{Reader}
use deckle.Http.Page.{Internet, Url}
use deckle.Imaging.Download.{Web}
use deckle.Imaging.Optimize.{Codecs, Formats}
use deckle.Process.{TextServices, process_url, short_url}
use deckle.Process.Offline.{run_markdown_offline}

abbrev codecs : Codecs
codecs = record {
  Color = ℕ;
  gray_of = λ x. x;
  over_white = λ x. x;
  Float = ℕ;
  of_int = λ n. n;
  quotient = λ a b. a;
  product = λ a b. b;
  round_to_int = λ n. n;
  encode_base_64 = λ t. t;
  decode_std = λ t. none;
  decode_raw = λ t. some t;
  gif_frames = λ t. some 2;
}

abbrev formats : Formats codecs
formats = record { decode = λ t. none; bilinear = λ p w h x y. 0; encode_jpeg = λ p q. none }

abbrev empty_web : Web
empty_web = record {
  unescape = λ t. t;
  get = λ url. none;
  detect_content_type = λ t. [];
  max_response_bytes = 9;
}

abbrev full_web : Web
full_web = record empty_web {
  get = λ url. some (record {
    status_code = 200;
    content_type = codes "image/png";
    body = record { content = url; fails = false };
  });
}

abbrev page : Text
page = codes "<p><img src=\"https://x/y.png\"></p>"

abbrev url : Url
url = record { scheme = codes "https"; host = codes "example.org"; path = codes "/a/" }

abbrev internet : Internet
internet = record {
  parse_url = λ raw. some url;
  is_request_url = λ raw. true;
  send = λ client request.
      some (record { status_code = 203; body = record { content = page; fails = false } });
  proxy_url = [];
  max_response_bytes = 100;
}

abbrev text_services : TextServices
text_services = record {
  from_reader = λ html u. some (record {
    content = html;
    meta = record { title = codes "T"; byline = []; site_name = []; published_time = none };
  });
  unescape = λ t. t;
  to_lower = λ t. t;
}

abbrev config : CliConfig
config = record {
  opts = record { max_width = 8; quality = 60; grayscale = false; skip_image_fetch = false };
  output = codes "out.md";
  title_override = [];
  timeout = 30;
  user_agent = codes "deckle";
  format = codes "markdown";
  cover_style = [];
  concurrency = 5;
  input_file = [];
  stdin_reader = none;
  args = [];
}

abbrev no_file : Text → Option Reader
no_file path = none

abbrev to_markdown : Text → Option Text
to_markdown html = some html

run_markdown_offline_example :
    run_markdown no_file text_services.to_lower
      (process_url text_services internet codecs formats full_web)
      to_markdown
      config
      (codes "u" ∷ [])
    ≡ run_markdown no_file text_services.to_lower
        (process_url text_services internet codecs formats empty_web)
        to_markdown
        config
        (codes "u" ∷ [])
run_markdown_offline_example =
    run_markdown_offline no_file to_markdown text_services internet codecs formats full_web
      empty_web config (codes "u" ∷ [])

host_and_path : short_url (λ raw. some url) (codes "https://example.org/a/") ≡ codes "example.org/a"
unfolding short_url trim_suffix has_suffix
host_and_path = refl
