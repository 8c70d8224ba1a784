-- ===== src/Epub/Tests.antt =====
-- A library that keeps the sections only, and a book with two articles.
use deckle.Base.Int.{pos}
use deckle.Base.{
  All, inr, length, ap, suc, ◌≢◌, inl, ℕ, Bool, true, false, Option, none, some, List, [], ◌∷◌,
  ◌++◌, ◌≡◌, refl, arith, Text, codes,
}
use deckle.Cli.Run.{CliConfig, run_epub}
use deckle.Cli.Urls.{Reader}
use deckle.Epub.Command.{KeepsLength, Makes, run_epub-Makes}
use deckle.Fetch.Pool.{
  Worker, start, started, working, stored, left, Reach, here, next, acquire, store, leave, gather,
  successes,
}
use deckle.Cover.Drawing.{Fonts}
use deckle.Cover.Generate.{Studio}
use deckle.Document.Body.{extract_body_content}
use deckle.Document.Byline.{EpubArticle}
use deckle.Document.RoundTrip.{lower}
use deckle.Epub.Assembly.{Services, build_epub}
use deckle.Epub.Assembly.Chapters.{HasBody}
use deckle.Epub.Assembly.Sections.{Written, build_epub-Written}
use deckle.Epub.Library.{EpubLibrary, Section, SectionLaws, ImageLaws}
use deckle.Epub.Pictures.{extract_images}
use deckle.Epub.Pictures.Numbers.{AddsDistinct, extract_images-AddsDistinct}
use deckle.Imaging.Optimize.{Codecs}
use deckle.Sanitize.Attrs.{Floats}

abbrev cover_section : Section
cover_section = record { file = codes "cover.xhtml"; title = []; body = [] }

abbrev library : EpubLibrary
library = record {
  State = List Section;
  new_epub = λ t. some [];
  set_lang = λ t e. e;
  set_author = λ t e. e;
  add_css = λ s f e. record { book = e; path = some f };
  add_image = λ s f e. record { book = e; path = some f };
  set_cover = λ i c e. e ++ cover_section ∷ [];
  add_section = λ b t f c e. record {
    book = e ++ record { file = f; title = t; body = b } ∷ [];
    path = some f;
  };
  can_write = λ p e. true;
}

abbrev library_laws : SectionLaws library
library_laws = record {
  sections = λ e. e;
  sections-new = λ t e h. cc h;
  sections-lang = λ t e. refl;
  sections-author = λ t e. refl;
  sections-css = λ s f e. refl;
  sections-image = λ s f e. refl;
  sections-cover = λ i c e h. inr (cover_section, refl, refl);
  sections-section = λ b t f c e n. refl;
  adds_new = λ b t f c e n h. (f, refl);
}

abbrev codecs : Codecs
codecs = record {
  Color = ℕ;
  gray_of = λ x. x;
  over_white = λ x. x;
  Float = ℕ;
  of_int = λ n. n;
  quotient = λ a b. a;
  product = λ a b. b;
  round_to_int = λ n. n;
  encode_base_64 = λ t. t;
  decode_std = λ t. some t;
  decode_raw = λ t. none;
  gif_frames = λ t. none;
}

abbrev floats : Floats
floats = record { Float = ℕ; parse_float = λ t. none; is_negative = λ f. false; round_to_int = pos }

abbrev fonts : Fonts
fonts = record {
  measure = λ face t. 0;
  height = λ face. 30;
  ascent = λ face. 20;
  to_runes = λ t. t;
  from_runes = λ t. t;
}

abbrev studio : Studio
studio = record {
  load_faces = some fonts;
  sha_256 = λ t i. i;
  to_upper = λ t. t;
  date = codes "Jan 2, 2026";
  encode_png = λ inks. some (codes "png");
}

abbrev services : Services
services = record {
  studio = studio;
  to_lower = lower;
  to_runes = λ t. t;
  from_runes = λ t. t;
  floats = floats;
  parse = λ t. none;
  escape = λ t. t;
}

abbrev article : EpubArticle
article = record {
  html = codes "<body><p>x</p></body>";
  title = codes "X";
  source = record { url = []; byline = []; site_name = []; published_time = none };
}

article-HasBody : HasBody library library_laws codecs services article
unfolding extract_body_content deckle.Document.Body.body_from deckle.Document.Body.after_tag
    deckle.Document.Body.cut_body deckle.Document.Body.cut_at deckle.Document.Body.slice
    deckle.Document.Body.slice_from deckle.Document.Body.lower_byte deckle.Base.index
    deckle.Base.has_prefix
article-HasBody = (codes "<p>x</p>", refl)

build_epub-Written_example : Written library library_laws codecs services (article ∷ article ∷ []) (
    build_epub library codecs services
      (article ∷ article ∷ [])
      (codes "T")
      (codes "t.epub")
      (codes "pattern"))
build_epub-Written_example =
    build_epub-Written library library_laws codecs services (article ∷ article ∷ []) (codes "T")
      (codes "t.epub") (codes "pattern") [] refl (article-HasBody, (article-HasBody, tt))

-- A library that keeps the names of the images only
abbrev images_library : EpubLibrary
images_library = record {
  State = List Text;
  new_epub = λ t. some [];
  set_lang = λ t e. e;
  set_author = λ t e. e;
  add_css = λ s f e. record { book = e; path = some f };
  add_image = λ s f e. record { book = e ++ f ∷ []; path = some (codes "../images/" ++ f) };
  set_cover = λ i c e. e;
  add_section = λ b t f c e. record { book = e; path = some f };
  can_write = λ p e. true;
}

abbrev images_laws : ImageLaws images_library
images_laws = record { images = λ e. e; images-image = λ s f e. refl }

abbrev two_images : Text
two_images =
    codes
      "<img src=\"data:image/png;base64,AAAA\"><p>x</p><img src=\"data:image/jpeg;base64,AAAA\">"

extract_images-AddsDistinct_example :
    AddsDistinct images_library images_laws codecs 1
      (codes "cover.png" ∷ [])
      (extract_images images_library codecs 1 (codes "cover.png" ∷ []) two_images).loop.book
extract_images-AddsDistinct_example =
    extract_images-AddsDistinct images_library images_laws codecs 1 (codes "cover.png" ∷ [])
      two_images

-- `processURL`, which gives an article for the one URL, and its goroutine, which has left
abbrev process : CliConfig → Text → Text → Option EpubArticle
process cfg title url = some article

abbrev urls : List Text
urls = codes "u" ∷ []

abbrev begun : Worker EpubArticle
begun = start (some article)

abbrev over : List (Worker EpubArticle)
over = record begun { phase = left; slot = some article } ∷ []

abbrev no_file : Text → Option Reader
no_file path = none

abbrev to_markdown : Text → Option Text
to_markdown html = none

abbrev config : CliConfig
config = record {
  opts = record { max_width = 800; quality = 60; grayscale = false; skip_image_fetch = false };
  output = codes "out.epub";
  title_override = [];
  timeout = 30;
  user_agent = codes "deckle";
  format = codes "epub";
  cover_style = codes "collage";
  concurrency = 1;
  input_file = [];
  stdin_reader = none;
  args = urls;
}

to_over : Reach 1 (started (process config []) urls) over
to_over =
    next
      (next (next here (acquire [] [] begun refl (omega arith)))
        (store [] [] (record begun { phase = working }) refl))
      (leave [] [] (record begun { phase = stored; slot = some article }) refl)

lower-length : (t : Text) → length (lower t) ≡ length t
lower-length [] = refl
lower-length (x ∷ t) = ap suc (lower-length t)

kept_length : All (KeepsLength library library_laws codecs services) (gather over)
unfolding gather
kept_length = (lower-length article.html, tt)

gathered : gather over ≢ []
unfolding gather
gathered e = cc e

run_epub-Makes_example :
    (gather over ≡ successes (process config []) urls)
    × Makes library library_laws codecs services
        (gather over)
        (run_epub no_file lower process to_markdown config urls [])
run_epub-Makes_example =
    run_epub-Makes library library_laws codecs services no_file process to_markdown config urls []
      over kept_length (λ title. ([], refl)) to_over (refl, tt) gathered
