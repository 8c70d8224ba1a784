-- ===== src/Imaging/Tests.antt =====
-- Pictures whose bytes say how wide they are, and a web with one picture.
use deckle.Base.{ℕ, List, true, false, none, some, ◌∷◌, ◌≡◌, refl, Text, codes, length, ◌=?◌, index}
use deckle.Base.Utf8.{trim_bytes}
use deckle.Cli.Run.{OptimizeOpts}
use deckle.Imaging.Article.{process_article_images}
use deckle.Imaging.Article.Skipped.{process_article_images_skipped}
use deckle.Imaging.Download.{
  Web, FetchResult, fetch_one_image, fetch_image_data, read_image, mime_of, without_parameters,
}
use deckle.Imaging.Embed.{fetch_and_embed, rebuild, embedded, downloads, embed_results}
use deckle.Http.{read_limited, read_all, limit_reader, check_length, one_more}
use deckle.Regex.{find_from, run, run_many, run_few, get_group}
use deckle.Regex.Pieces.{find_all, find_all_from}
use deckle.Fetch.Pool.{Worker, Reach, here, IsDone}
use deckle.Imaging.Embed.Schedule.{fetch_and_embed_finishes}
use deckle.Imaging.Embed.Laws.{fetch_and_embed_offline}
use deckle.Imaging.Optimize.{Codecs, Formats, try_optimize_data_uri}
use deckle.Imaging.Optimize.Bounds.{Outcome, try_optimize_data_uri-Outcome}

-- Base64 that adds a byte, and numbers for floating point numbers
abbrev codecs : Codecs
codecs = record {
  Color = ℕ;
  gray_of = λ x. 7;
  over_white = λ x. x;
  Float = ℕ;
  of_int = λ n. n;
  quotient = λ a b. a;
  product = λ a b. b;
  round_to_int = λ n. n;
  encode_base_64 = λ t. b'=' ∷ t;
  decode_std = λ t. some t;
  decode_raw = λ t. none;
  gif_frames = λ t. none;
}

abbrev formats : Formats codecs
formats = record {
  decode = λ t. some (record { width = length t; height = length t; pixel = λ x y. 3 });
  bilinear = λ p w h x y. 5;
  encode_jpeg = λ p q. some (codes "jpeg");
}

abbrev offline : Web
offline = record {
  unescape = λ t. t;
  get = λ t. none;
  detect_content_type = λ t. codes "image/png";
  max_response_bytes = 100;
}

abbrev online : Web
online = record offline {
  get = λ t. some (record {
    status_code = 200;
    content_type = codes "image/png; x=y";
    body = record { content = codes "abc"; fails = false };
  });
}

abbrev opts : OptimizeOpts
opts = record { max_width = 2; quality = 60; grayscale = true; skip_image_fetch = true }

abbrev article : Text
article = codes "<p><img src=\"http://x/y.png\"></p>"

try_optimize_data_uri-Outcome_example :
    Outcome codecs formats opts
      (codes "image/png")
      (codes "abc")
      (try_optimize_data_uri codecs formats (codes "image/png") (codes "abc") opts)
try_optimize_data_uri-Outcome_example =
    try_optimize_data_uri-Outcome codecs formats (codes "image/png") (codes "abc") opts

process_article_images_skipped_example :
    process_article_images codecs formats opts online article
    ≡ process_article_images codecs formats opts offline article
process_article_images_skipped_example =
    process_article_images_skipped codecs formats opts online offline article refl

fetch_and_embed_offline_example : fetch_and_embed offline codecs article ≡ article
unfolding fetch_image_data
fetch_and_embed_offline_example = fetch_and_embed_offline offline codecs article (λ url. refl)

embedded_article :
    fetch_and_embed online codecs article ≡ codes "<p><img src=\"data:image/png;base64,=abc\"></p>"
unfolding fetch_and_embed rebuild embedded fetch_one_image fetch_image_data read_image mime_of
    without_parameters read_limited read_all limit_reader check_length one_more find_all
    find_all_from find_from run run_many run_few get_group ◌=?◌ index trim_bytes
embedded_article = refl

fetch_and_embed_finishes_example :
    (vs : List (Worker FetchResult)) × Reach 1 (downloads online codecs article) vs
    × IsDone vs
    × (embed_results article vs ≡ fetch_and_embed online codecs article)
fetch_and_embed_finishes_example =
    fetch_and_embed_finishes online codecs article 0 (downloads online codecs article) here
