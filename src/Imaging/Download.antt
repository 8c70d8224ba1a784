-- ===== src/Imaging/Download.antt =====
-- `fetchImageData` and `fetchOneImage`.
use deckle.Base.{
  ℕ, ◌||◌, Option, none, some, ◌>>=◌, [], Text, codes, ◌=?◌, ◌==◌, index, take, if◌then◌else◌,
}
use deckle.Base.Utf8.{trim_bytes}
use deckle.Cli.Urls.{Reader}
use deckle.Http.{read_limited}
use deckle.Imaging.Optimize.{Codecs}

pub record Response : Type 0 where
  pub status_code : ℕ
  pub content_type : Text
  pub body : Reader

-- The web: `html.UnescapeString`, `Get` of the image client with `none` for an error,
-- `http.DetectContentType`, and the setting `maxResponseBytes`.
pub record Web : Type 0 where
  pub unescape : Text → Text
  pub get : Text → Option Response
  pub detect_content_type : Text → Text
  pub max_response_bytes : ℕ

pub record ImageData : Type 0 where
  pub bytes : Text
  pub mime : Text

-- A `fetchResult`
pub record FetchResult : Type 0 where
  pub mime : Text
  pub encoded : Text

-- `mime[:i]` before the first semicolon
unfoldable pub without_parameters : Text → Text
without_parameters mime = elim (index mime (codes ";")) [ none ↦ mime | some i ↦ take i mime ]

module _ (web : Web) where
  unfoldable pub mime_of : Text → Text → Text
  mime_of content_type bytes =
      let mime = trim_bytes (without_parameters content_type) in
      if mime =? [] || mime =? codes "application/octet-stream"
      then without_parameters (web.detect_content_type bytes)
      else mime

  unfoldable pub read_image : Response → Option ImageData
  read_image r = do
    bytes ← read_limited r.body web.max_response_bytes
    some (record { bytes = bytes; mime = mime_of r.content_type bytes })

  -- `fetchImageData`, and `fetchImage`
  unfoldable pub fetch_image_data : Text → Option ImageData
  fetch_image_data img_url = do
    r ← web.get (web.unescape img_url)
    if r.status_code == 200 then read_image r else none

  -- `fetchOneImage`
  unfoldable pub fetch_one_image : Codecs → Text → FetchResult
  fetch_one_image c img_url = elim (fetch_image_data img_url) [
    | none ↦ record { mime = []; encoded = [] }
    | some d ↦ record { mime = d.mime; encoded = c.encode_base_64 d.bytes }
  ]
