-- ===== src/Http/Browser.antt =====
-- `browserTransport` of fetch.go: dialing with a browser's TLS handshake, and the choice of the
-- protocol.
pub mod Safety
use deckle.Base.{
  Bool, true, false, not, Option, none, some, ◌>>=◌, List, ◌++◌, Text, codes, ◌=?◌, if◌then◌else◌,
}
use deckle.Ssrf.{Ip, Dialed, dialed, safe_dial_context}

-- A `utls.Config`, as far as the program could set it
pub record TlsConfig : Type 0 where
  pub server_name : Text
  -- `InsecureSkipVerify`
  pub skips_verification : Bool

-- What the network does: `net.SplitHostPort`, `net.LookupIP`, the setting for local addresses, a
-- connection to an address and port, the TLS handshake under a configuration with the protocol that
-- it negotiates, and `NewClientConn` of HTTP/2.
pub record Network : Type 1 where
  pub Conn : Type 0
  pub Tls : Type 0
  pub split_host_port : Text → Option (Text × Text)
  pub lookup_ip : Text → Option (List Ip)
  pub allow_local : Bool
  pub connect : Ip → Text → Option Conn
  pub handshake : Conn → TlsConfig → Option (Tls × Text)
  pub starts_h_2 : Tls → Bool

-- An `http.Request`, as far as the transport reads it
pub record Request : Type 0 where
  pub scheme : Text
  pub host : Text

-- How a request is sent: by the HTTP/1.1 transport with its own dialer, by HTTP/2 or HTTP/1.1 on a
-- TLS connection, or not at all.
pub data Route (Tls : Type 0) : Type 0 where
  by_h_1 failed : Route Tls
  by_h_2 by_h_1_on : Tls → Route Tls

module _ (net : Network) where
  -- `hasPort`
  unfoldable pub has_port : Text → Bool
  has_port host = elim (net.split_host_port host) [ none ↦ false | some _ ↦ true ]

  -- The connection that the dialer of `safeDialContext` makes
  unfoldable pub connection : Dialed → Option net.Conn
  connection (dialed ip port) = net.connect ip port
  connection _ = none

  unfoldable pub safe_connection : Text → Option net.Conn
  safe_connection addr =
      connection (safe_dial_context net.split_host_port net.lookup_ip net.allow_local addr)

  unfoldable pub server_name : Text → Text
  server_name addr = elim (net.split_host_port addr) [ none ↦ addr | some (host, _) ↦ host ]

  -- The configuration in `dialUTLS`: `InsecureSkipVerify` is left at its zero value.
  unfoldable pub utls_config : Text → TlsConfig
  utls_config addr = record { server_name = server_name addr; skips_verification = false }

  -- `dialUTLS`
  unfoldable pub dial_utls : Text → Option (net.Tls × Text)
  dial_utls addr = do conn ← safe_connection addr; net.handshake conn (utls_config addr)

  -- The address that is dialed for HTTPS
  unfoldable pub https_addr : Text → Text
  https_addr host = if has_port host then host else host ++ codes ":443"

  unfoldable pub route_on : Option (net.Tls × Text) → Route net.Tls
  route_on none = failed
  route_on (some (tls, alpn)) =
      if alpn =? codes "h2"
      then (if net.starts_h_2 tls then by_h_2 tls else failed)
      else by_h_1_on tls

  -- `RoundTrip`
  unfoldable pub round_trip : Request → Route net.Tls
  round_trip req =
      if not (req.scheme =? codes "https")
      then by_h_1
      else route_on (dial_utls (https_addr req.host))
