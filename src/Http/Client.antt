-- ===== src/Http/Client.antt =====
-- The HTTP clients of fetch.go and `getImageClient` of imgoptimize.go: how each is set up, and how a
-- request reaches the network. `url.Parse` and `net/http` are those of Go's library. Timeouts are
-- left out.
pub mod Safety
use deckle.Base.{
  Bool, true, false, not, Option, none, some, ◌≡◌, Text, codes, [], ◌=?◌, if◌then◌else◌,
}
use deckle.Http.Browser.{Network, safe_connection, https_addr}
use deckle.Http.Page.{Url, Client, through_proxy, browser, standard, client_for}

-- `DialContext` of a transport: that of `safeDialContext`, or the default of `net/http`
pub data Dialer : Type 0 where
  safe_dialer default_dialer : Dialer

-- An `http.Transport`, as far as the program sets it up
pub record Transport : Type 0 where
  pub dialer : Dialer
  pub proxy : Option Url
  -- `InsecureSkipVerify`
  pub skips_verification : Bool

-- An `http.Client`: with a transport, with the browser's round tripper, whose transport for HTTP/1.1
-- is given, or with neither.
pub data HttpClient : Type 0 where
  with_transport with_browser : Transport → HttpClient
  without_transport : HttpClient

abbrev pub direct : Transport
direct = record { dialer = safe_dialer; proxy = none; skips_verification = false }

-- `newBrowserClient`
unfoldable pub new_browser_client : HttpClient
new_browser_client = with_browser direct

module _ (parse_url : Text → Option Url) where
  -- `newProxyClient`
  unfoldable pub new_proxy_client : Text → HttpClient
  new_proxy_client proxy_addr =
      with_transport
        (if not (proxy_addr =? []) then record direct { proxy = parse_url proxy_addr } else direct)

  -- The client of `fetchHTML`
  unfoldable pub open_client : Client → HttpClient
  open_client (through_proxy proxy_addr) = new_proxy_client proxy_addr
  open_client browser = new_browser_client
  open_client standard = with_transport direct

  -- `getImageClient`, given `fetchProxyURL` and `fetchImageClient`
  unfoldable pub get_image_client : Text → Option HttpClient → HttpClient
  get_image_client proxy_url fetch_image_client =
      if not (proxy_url =? [])
      then new_proxy_client proxy_url
      else elim fetch_image_client [ none ↦ without_transport | some c ↦ c ]

-- `fetchImageClient` after `init`
unfoldable pub fetch_image_client : Option HttpClient
fetch_image_client = some new_browser_client

-- `ignoreCertClient`, which only tests use
unfoldable pub ignore_cert_client : HttpClient
ignore_cert_client =
    with_transport (record direct { dialer = default_dialer; skips_verification = true })

-- What `net/http` does on the network: the address of a URL, its own dialer, and the connection on
-- which a transport, and a client without one, sends a request for a URL
pub record Wire (net : Network) : Type 0 where
  pub addr_of : Url → Text
  pub default_connection : Text → Option net.Conn
  pub transport_connection : Transport → Url → Option net.Conn
  pub default_transport_connection : Url → Option net.Conn

module _ (net : Network) (wire : Wire net) where
  -- The call of `DialContext`
  unfoldable pub dial : Dialer → Text → Option net.Conn
  dial safe_dialer addr = safe_connection net addr
  dial default_dialer addr = wire.default_connection addr

  -- A transport dials the address of the URL, or of its proxy in place of that.
  pub record Dials : Type 0 where
    pub directly :
        (t : Transport) (url : Url)
        → t.proxy ≡ none
        → wire.transport_connection t url ≡ dial (t.dialer) (wire.addr_of url)
    pub by_proxy :
        (t : Transport) (url p : Url)
        → t.proxy ≡ some p
        → wire.transport_connection t url ≡ dial (t.dialer) (wire.addr_of p)

  -- The connection on which a client sends a request for the URL; that of the browser's round tripper
  -- for HTTPS is the one under the TLS of `dialUTLS`.
  unfoldable pub reach : HttpClient → Url → Option net.Conn
  reach (with_transport t) url = wire.transport_connection t url
  reach (with_browser t) url =
      if not (url.scheme =? codes "https")
      then wire.transport_connection t url
      else safe_connection net (https_addr net url.host)
  reach without_transport url = wire.default_transport_connection url
