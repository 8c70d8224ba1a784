-- ===== src/Http/Tests.antt =====
-- A body that is one byte too long.
use deckle.Base.{
  Option, Ensures, ◌=?◌, ◌==◌, ◌+◌, ◌≢◌, ◌↔◌, false, true, [], ◌∷◌, Text, refl, none, some, ◌≡◌,
  arith, codes, if◌then◌else◌,
}
use deckle.Cli.Urls.{Reader}
use deckle.Http.Browser.{Network, Request, round_trip, safe_connection}
use deckle.Http.Browser.Safety.{Public, Routes, round_trip-Routes}
use deckle.Http.Client.{
  Dialer, safe_dialer, default_dialer, Dials, dial, Wire, open_client, get_image_client,
  fetch_image_client, reach,
}
use deckle.Http.Client.Safety.{IsSafe, clients-Public, invalid_proxy_direct}
use deckle.Http.Page.{client_for, Internet, Url, fetch_html, request_page, accept_page}
use deckle.Http.Page.Accepted.{Accepted, fetch_html-Accepted}
use deckle.Http.{int_64_end, read_limited, read_all, limit_reader, check_length, one_more}
use deckle.Http.Limit.{whole_within, read_limited-whole_within}

abbrev body : Reader
body = record { content = codes "abcd"; fails = false }

-- One host at a public address, with TLS
abbrev network : Network
network = record {
  Conn = Text;
  Tls = Text;
  split_host_port = λ addr. some (codes "h", codes "443");
  lookup_ip = λ host. some ((8 ∷ 8 ∷ 8 ∷ 8 ∷ []) ∷ []);
  allow_local = false;
  connect = λ ip port. some port;
  handshake = λ conn config. some (config.server_name, codes "h2");
  starts_h_2 = λ tls. true;
}

abbrev request : Request
request = record { scheme = codes "https"; host = codes "h" }

round_trip-Routes_example : Routes network request (round_trip network request)
round_trip-Routes_example = round_trip-Routes network request

abbrev home : Url
home = record { scheme = codes "http"; host = codes "h"; path = codes "/" }

abbrev internet : Internet
internet = record {
  parse_url = λ raw. some home;
  is_request_url = λ raw. true;
  send = λ client request. some (record { status_code = 200; body = body });
  proxy_url = [];
  max_response_bytes = 10;
}

fetched :
    fetch_html internet (codes "http://h/") (codes "deckle")
    ≡ some (record { html = codes "abcd"; url = home })
unfolding fetch_html request_page accept_page read_limited read_all limit_reader check_length
    one_more
fetched = refl

fetch_html-Accepted_example :
    (fetch_html internet (codes "http://h/") (codes "deckle")
      ≡ some (record { html = codes "abcd"; url = home }))
    ↔ Accepted internet
        (codes "http://h/")
        (codes "deckle")
        (record { html = codes "abcd"; url = home })
fetch_html-Accepted_example =
    fetch_html-Accepted internet (codes "http://h/") (codes "deckle")
      (record { html = codes "abcd"; url = home }) (omega arith)

-- The address of a URL is its host, and the default dialer reaches nothing.
abbrev dialed_by : Dialer → Text → Option Text
dialed_by safe_dialer addr = safe_connection network addr
dialed_by default_dialer addr = none

abbrev wire : Wire network
wire = record {
  addr_of = λ url. url.host;
  default_connection = λ addr. none;
  transport_connection = λ t url. elim (t.proxy) [
    | none ↦ dialed_by t.dialer url.host
    | some p ↦ dialed_by t.dialer p.host
  ];
  default_transport_connection = λ url. none;
}

dialed_by-dial : (d : Dialer) (addr : Text) → dialed_by d addr ≡ dial network wire d addr
unfolding dial
dialed_by-dial safe_dialer addr = refl
dialed_by-dial default_dialer addr = refl

wire-Dials : Dials network wire
wire-Dials = record {
  directly = λ t url e. rw e (dialed_by-dial t.dialer url.host);
  by_proxy = λ t url p e. rw e (dialed_by-dial t.dialer p.host);
}

abbrev proxy_of : Text → Option Url
proxy_of t = if t =? codes "http://p" then some home else none

clients-Public_example :
    IsSafe network (open_client proxy_of (client_for (codes "http://p") home))
    × Ensures
        (Public network)
        (reach network wire (open_client proxy_of (client_for (codes "http://p") home)) home)
    × IsSafe network (get_image_client proxy_of (codes "http://p") fetch_image_client)
    × Ensures
        (Public network)
        (reach network wire (get_image_client proxy_of (codes "http://p") fetch_image_client) home)
clients-Public_example =
    clients-Public network wire wire-Dials proxy_of (codes "http://p") home home

refused : proxy_of (codes ":") ≡ none
unfolding ◌=?◌
refused = refl

is_set : codes ":" ≢ []
is_set h = cc

invalid_proxy_direct_example :
    (reach network wire (open_client proxy_of (client_for (codes ":") home)) home
      ≡ safe_connection network (wire.addr_of home))
    × (reach network wire (get_image_client proxy_of (codes ":") fetch_image_client) home
        ≡ safe_connection network (wire.addr_of home))
invalid_proxy_direct_example =
    invalid_proxy_direct network wire wire-Dials proxy_of (codes ":") home home is_set refused

read_limited-whole_within_example :
    read_limited body 3 ≡ (if 3 + 1 == int_64_end then some [] else whole_within body 3)
read_limited-whole_within_example = read_limited-whole_within body 3 (omega arith)
