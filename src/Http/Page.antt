-- ===== src/Http/Page.antt =====
-- `fetchHTML`: the choice of the client, the request and the tests of the response.
pub mod Accepted
use deckle.Base.{
  ℕ, ltb, leb, Bool, true, false, ◌&&◌, ◌||◌, Option, none, some, ◌>>=◌, List, [], ◌∷◌, Text, codes,
  ◌=?◌, if◌then◌else◌,
}
use deckle.Cli.Urls.{Reader}
use deckle.Http.{read_limited}

-- A `url.URL`, as far as the program reads it
pub record Url : Type 0 where
  pub scheme : Text
  pub host : Text
  pub path : Text

-- The three kinds of client
pub data Client : Type 0 where
  -- `newProxyClient`, `newBrowserClient`, and the one with the standard transport
  through_proxy : Text → Client
  browser standard : Client

pub record Header : Type 0 where
  pub name : Text
  pub value : Text

-- A GET request
pub record PageRequest : Type 0 where
  pub raw_url : Text
  pub headers : List Header

pub record PageResponse : Type 0 where
  pub status_code : ℕ
  pub body : Reader

-- `url.Parse`, whether `http.NewRequest` accepts the URL, `client.Do` with `none` for an error, and
-- the settings `fetchProxyURL` and `maxResponseBytes`
pub record Internet : Type 0 where
  pub parse_url : Text → Option Url
  pub is_request_url : Text → Bool
  pub send : Client → PageRequest → Option PageResponse
  pub proxy_url : Text
  pub max_response_bytes : ℕ

pub record Page : Type 0 where
  pub html : Text
  pub url : Url

abbrev pub header : Text → Text → Header
header name value = record { name = name; value = value }

unfoldable pub page_headers : Text → List Header
page_headers user_agent =
    header (codes "User-Agent") user_agent
    ∷ header (codes "Accept")
        (codes "text/html,application/xhtml+xml,application/xml;q=0.9,*/*;q=0.8")
    ∷ header (codes "Accept-Language") (codes "en-US,en;q=0.5")
    ∷ header (codes "Sec-Fetch-Dest") (codes "document")
    ∷ header (codes "Sec-Fetch-Mode") (codes "navigate")
    ∷ header (codes "Sec-Fetch-Site") (codes "none")
    ∷ []

unfoldable pub client_for : Text → Url → Client
client_for proxy_url url =
    if proxy_url =? []
    then (if url.scheme =? codes "https" then browser else standard)
    else through_proxy proxy_url

module _ (net : Internet) where
  unfoldable pub request_page : Text → Text → Url → Option PageResponse
  request_page raw_url user_agent url =
      if net.is_request_url raw_url
      then net.send (client_for net.proxy_url url)
          (record { raw_url = raw_url; headers = page_headers user_agent })
      else none

  unfoldable pub accept_page : Url → PageResponse → Option Page
  accept_page url r =
      let accepted = do
        body ← read_limited r.body net.max_response_bytes
        some (record { html = body; url = url })
      in if ltb r.status_code 200 || leb 300 r.status_code then none else accepted

  -- `fetchHTML`; `none` is an error
  unfoldable pub fetch_html : Text → Text → Option Page
  fetch_html raw_url user_agent = do
    url ← net.parse_url raw_url
    r ← request_page raw_url user_agent url
    accept_page url r
