-- ===== src/Cli/Flags.antt =====
-- The configuration that `main` makes of the command line.
use deckle.Base.{ℕ, ltb, Bool, false, Option, List, Text, codes, if◌then◌else◌}
use deckle.Cli.Run.{CliConfig}
use deckle.Cli.Urls.{Reader}

-- The values of the flags, without `-v`, which turns on progress output; `concurrency` and
-- `max_resp_size` are 0 for a number below 1.
pub record Flags : Type 0 where
  pub max_width : ℕ
  pub quality : ℕ
  pub grayscale : Bool
  pub output : Text
  pub title_override : Text
  pub timeout : ℕ
  pub user_agent : Text
  pub output_fmt : Text
  pub input_file : Text
  pub cover_style : Text
  pub concurrency : ℕ
  pub max_resp_size : ℕ
  pub proxy : Text
  pub epub_mode : Bool
  pub markdown_mode : Bool

-- `fmtVal`: the deprecated flags override `-format`.
unfoldable pub format_of : Flags → Text
format_of flags =
    if flags.epub_mode
    then codes "epub"
    else if flags.markdown_mode
    then codes "markdown"
    else flags.output_fmt

-- The variables `maxResponseBytes` and `fetchProxyURL`
pub record Settings : Type 0 where
  pub max_response_bytes : ℕ
  pub fetch_proxy_url : Text

unfoldable pub settings_of : Flags → Settings
settings_of flags = record {
  max_response_bytes = flags.max_resp_size;
  fetch_proxy_url = flags.proxy;
}

-- `cfg`, where `stdin` is standard input if it is a pipe
unfoldable pub config_of : Flags → Option Reader → List Text → CliConfig
config_of flags stdin args = record {
  opts = record {
    max_width = flags.max_width;
    quality = flags.quality;
    grayscale = flags.grayscale;
    skip_image_fetch = false;
  };
  output = flags.output;
  title_override = flags.title_override;
  timeout = flags.timeout;
  user_agent = flags.user_agent;
  format = format_of flags;
  cover_style = flags.cover_style;
  concurrency = if ltb flags.concurrency 1 then 1 else flags.concurrency;
  input_file = flags.input_file;
  stdin_reader = stdin;
  args = args;
}
