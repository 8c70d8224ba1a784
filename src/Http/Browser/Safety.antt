-- ===== src/Http/Browser/Safety.antt =====
-- The addresses that the browser transport connects to.
use deckle.Base.{
  List, refl, ◌++◌, false, true, =?_iff, none, some, ◌≡◌, Text, codes, ◌=?◌, Bool-cases,
  Option-cases, subst, inl, inr,
}
use deckle.Http.Browser.{
  Network, Request, Route, by_h_1, failed, by_h_2, by_h_1_on, connection, safe_connection,
  TlsConfig, has_port, utls_config, server_name, dial_utls, https_addr, route_on, round_trip,
}
use deckle.Ssrf.{Ip, Dialed, dialed, split_error, lookup_error, blocked, is_private_ip}
use deckle.Ssrf.Dial.{Explains, Resolves, FirstSafe, safe_dial_context-Explains}

module _ (net : Network) where
  -- The address to dial for the host of a URL: the host itself if it names a port, or else the host
  -- with the port of HTTPS.
  pub data Addresses (host : Text) : Text → Type 0 where
    own_port :
        (name port : Text) → net.split_host_port host ≡ some (name, port) → Addresses host host
    default_port : net.split_host_port host ≡ none → Addresses host (host ++ codes ":443")

  -- The connection is made for the host of a URL: the address to dial splits into this name and the
  -- port, and the connection is to the first address of the name that is not private.
  pub record Connected (host name : Text) (conn : net.Conn) : Type 0 where
    pub addr : Text
    pub addresses : Addresses host addr
    pub port : Text
    pub ips : List Ip
    pub resolves : Resolves net.split_host_port net.lookup_ip net.allow_local addr name port ips
    pub ip : Ip
    pub first : FirstSafe net.allow_local ips ip
    pub connects : net.connect ip port ≡ some conn

  -- There is no connection for the host of a URL: a dial of the address to dial ended in this way.
  pub record Unconnected (host : Text) : Type 0 where
    pub addr : Text
    pub addresses : Addresses host addr
    pub outcome : Dialed
    pub explains : Explains net.split_host_port net.lookup_ip net.allow_local addr outcome
    pub none_made : connection net outcome ≡ none

  -- The TLS connection was made for this host, on a connection for it, with the certificate verified
  -- for its name, and it negotiated this protocol.
  pub record Secured (host : Text) (tls : net.Tls) (alpn : Text) : Type 0 where
    pub name : Text
    pub conn : net.Conn
    pub connected : Connected host name conn
    pub shakes :
        net.handshake conn (record { server_name = name; skips_verification = false })
        ≡ some (tls, alpn)

  -- How a request may be sent.
  pub data Routes (req : Request) : Route net.Tls → Type 0 where
    plain : (req.scheme =? codes "https") ≡ false → Routes req by_h_1
    unconnected : (req.scheme =? codes "https") ≡ true → Unconnected req.host → Routes req failed
    no_handshake :
        (name : Text) (conn : net.Conn)
        → (req.scheme =? codes "https") ≡ true
        → Connected req.host name conn
        → net.handshake conn (record { server_name = name; skips_verification = false }) ≡ none
        → Routes req failed
    no_h_2 :
        (tls : net.Tls)
        → (req.scheme =? codes "https") ≡ true
        → Secured req.host tls (codes "h2")
        → net.starts_h_2 tls ≡ false
        → Routes req failed
    secured_h_2 :
        (tls : net.Tls)
        → (req.scheme =? codes "https") ≡ true
        → Secured req.host tls (codes "h2")
        → Routes req (by_h_2 tls)
    secured_h_1 :
        (tls : net.Tls) (alpn : Text)
        → (req.scheme =? codes "https") ≡ true
        → Secured req.host tls alpn
        → (alpn =? codes "h2") ≡ false
        → Routes req (by_h_1_on tls)

  https_addr-Addresses : (host : Text) → Addresses host (https_addr net host)
  unfolding https_addr has_port
  https_addr-Addresses host = elim (Option-cases (net.split_host_port host)) [
    | inl e ↦ rw (e, https_addr, has_port) (default_port e)
    | inr ((name, port), e) ↦ rw (e, https_addr, has_port) (own_port name port e)
  ]

  connection-Connected :
      (host addr : Text) (d : Dialed) (conn : net.Conn)
      → Addresses host addr
      → Explains net.split_host_port net.lookup_ip net.allow_local addr d
      → connection net d ≡ some conn
      → Connected host (server_name net addr) conn
  unfolding connection server_name
  connection-Connected host addr split_error conn a w h = cc
  connection-Connected host addr lookup_error conn a w h = cc
  connection-Connected host addr (blocked name) conn a w h = cc
  connection-Connected host addr (dialed ip port) conn a (name, ips, r, first) h =
      let same : name ≡ server_name net addr = rw (r.0, server_name) refl in
      record {
        addr = addr;
        addresses = a;
        port = port;
        ips = ips;
        resolves =
            subst (λ n. Resolves net.split_host_port net.lookup_ip net.allow_local addr n port ips)
              same r;
        ip = ip;
        first = first;
        connects = h;
      }

  -- An address that is not private, and the connection to it
  pub record Public (conn : net.Conn) : Type 0 where
    pub ip : Ip
    pub port : Text
    pub public : is_private_ip net.allow_local ip ≡ false
    pub connects : net.connect ip port ≡ some conn

  connection-Public :
      (addr : Text) (d : Dialed) (conn : net.Conn)
      → Explains net.split_host_port net.lookup_ip net.allow_local addr d
      → connection net d ≡ some conn
      → Public conn
  unfolding connection
  connection-Public addr split_error conn w h = cc
  connection-Public addr lookup_error conn w h = cc
  connection-Public addr (blocked host) conn w h = cc
  connection-Public addr (dialed ip port) conn (host, ips, r, first) h = record {
    ip = ip;
    port = port;
    public = first.safe;
    connects = h;
  }

  pub safe_connection-Public :
      (addr : Text) (conn : net.Conn) → safe_connection net addr ≡ some conn → Public conn
  unfolding safe_connection
  safe_connection-Public addr conn h =
      connection-Public addr _ conn
        (safe_dial_context-Explains net.split_host_port net.lookup_ip net.allow_local addr) h

  safe_connection-Connected :
      (host : Text) (conn : net.Conn)
      → safe_connection net (https_addr net host) ≡ some conn
      → Connected host (server_name net (https_addr net host)) conn
  unfolding safe_connection
  safe_connection-Connected host conn h =
      connection-Connected host (https_addr net host) _ conn (https_addr-Addresses host)
        (safe_dial_context-Explains net.split_host_port net.lookup_ip net.allow_local _) h

  safe_connection-Unconnected :
      (host : Text) → safe_connection net (https_addr net host) ≡ none → Unconnected host
  unfolding safe_connection
  safe_connection-Unconnected host h = record {
    addr = https_addr net host;
    addresses = https_addr-Addresses host;
    outcome = _;
    explains = safe_dial_context-Explains net.split_host_port net.lookup_ip net.allow_local _;
    none_made = h;
  }

  route_on-Routes :
      (req : Request) (tls : net.Tls) (alpn : Text)
      → (req.scheme =? codes "https") ≡ true
      → Secured req.host tls alpn
      → Routes req (route_on net (some (tls, alpn)))
  unfolding route_on
  route_on-Routes req tls alpn https w = elim (Bool-cases (alpn =? codes "h2")) [
    | inr other ↦ rw other (secured_h_1 tls alpn https w other)
    | inl h_2 ↦
        let w_2 = subst (Secured req.host tls) ((=?_iff alpn (codes "h2")).0 h_2) w in
        elim (Bool-cases (net.starts_h_2 tls)) [
          | inl starts ↦ rw (h_2, starts) (secured_h_2 tls https w_2)
          | inr fails ↦ rw (h_2, fails) (no_h_2 tls https w_2 fails)
        ]
  ]

  -- What is not HTTPS is left to the transport for HTTP/1.1. A request for HTTPS goes over a TLS
  -- connection, with the protocol that was negotiated. Its certificate is verified for the host name
  -- in the URL, and it is made on a connection to the first address of that name that is not private,
  -- at the port of the URL or else 443. The request fails only if there is no such connection, no
  -- handshake, or no start of HTTP/2 on it.
  pub round_trip-Routes : (req : Request) → Routes req (round_trip net req)
  unfolding round_trip dial_utls route_on utls_config
  round_trip-Routes req =
      let addr = https_addr net req.host in
      let config : TlsConfig = record {
        server_name = server_name net addr;
        skips_verification = false;
      } in
      elim (Bool-cases (req.scheme =? codes "https")) [
        | inr other ↦ rw other (plain other)
        | inl https ↦ elim (Option-cases (safe_connection net addr)) [
          | inl e ↦
              rw (https, e, route_on) (unconnected https (safe_connection-Unconnected req.host e))
          | inr (conn, e) ↦
              let connected = safe_connection-Connected req.host conn e in
              elim (Option-cases (net.handshake conn config)) [
                | inl f ↦ rw (https, e, f, route_on) (no_handshake _ conn https connected f)
                | inr ((tls, alpn), f) ↦
                    rw (https, e, f)
                      (route_on-Routes req tls alpn https
                        (record { name = _; conn = conn; connected = connected; shakes = f }))
              ]
        ]
      ]
