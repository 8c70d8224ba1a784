-- ===== src/Http/Client/Safety.antt =====
-- The connections of the clients that the program uses.
use deckle.Base.{
  =?_iff, false, Option, none, [], ◌≡◌, ◌≢◌, refl, arith, Text, codes, ◌=?◌, Bool-cases,
  Option-cases, inl, inr, Ensures,
}
use deckle.Http.Browser.{Network, utls_config, safe_connection, https_addr}
use deckle.Http.Browser.Safety.{Public, safe_connection-Public}
use deckle.Http.Client.{
  safe_dialer, Transport, HttpClient, with_transport, with_browser, direct, without_transport,
  new_browser_client, new_proxy_client, open_client, get_image_client, fetch_image_client, Wire,
  dial, Dials, reach,
}
use deckle.Http.Page.{Url, Client, through_proxy, browser, standard, client_for}

-- The transport has the safe dialer and verifies certificates.
abbrev IsSafeTransport : Transport → Type 0
IsSafeTransport t = (t.dialer ≡ safe_dialer) × (t.skips_verification ≡ false)

-- The transport of the client is safe; so are the configurations with which the browser's round tripper
-- makes its TLS connections.
abbrev pub IsSafe : Network → HttpClient → Type 0
IsSafe net (with_transport t) = IsSafeTransport t
IsSafe net (with_browser t) =
    IsSafeTransport t × ((addr : Text) → (utls_config net addr).skips_verification ≡ false)
IsSafe net without_transport = ⊥

module _ (net : Network) (parse_url : Text → Option Url) where
  new_proxy_client-IsSafe : (proxy_addr : Text) → IsSafe net (new_proxy_client parse_url proxy_addr)
  unfolding new_proxy_client
  new_proxy_client-IsSafe proxy_addr = elim (Bool-cases (proxy_addr =? [])) [
    | inl e ↦ rw e (refl, refl)
    | inr e ↦ rw e (refl, refl)
  ]

  new_proxy_client_invalid :
      (proxy_addr : Text)
      → parse_url proxy_addr ≡ none
      → new_proxy_client parse_url proxy_addr ≡ with_transport direct
  unfolding new_proxy_client
  new_proxy_client_invalid proxy_addr bad = elim (Bool-cases (proxy_addr =? [])) [
    | inl e ↦ rw e refl
    | inr e ↦ rw (e, bad) refl
  ]

  open_client-IsSafe : (c : Client) → IsSafe net (open_client parse_url c)
  unfolding open_client new_browser_client utls_config
  open_client-IsSafe (through_proxy proxy_addr) = new_proxy_client-IsSafe proxy_addr
  open_client-IsSafe browser = ((refl, refl), λ addr. refl)
  open_client-IsSafe standard = (refl, refl)

  get_image_client-IsSafe :
      (proxy_url : Text) → IsSafe net (get_image_client parse_url proxy_url fetch_image_client)
  unfolding get_image_client fetch_image_client new_browser_client utls_config
  get_image_client-IsSafe proxy_url = elim (Bool-cases (proxy_url =? [])) [
    | inl e ↦ rw e ((refl, refl), λ addr. refl)
    | inr e ↦ rw e (new_proxy_client-IsSafe proxy_url)
  ]

module _ (net : Network) (wire : Wire net) (dials : Dials net wire) where
  safe_connection-Ensures : (addr : Text) → Ensures (Public net) (safe_connection net addr)
  safe_connection-Ensures addr = elim (Option-cases (safe_connection net addr)) [
    | inl e ↦ rw (e, Ensures) tt
    | inr (conn, e) ↦ rw (e, Ensures) (safe_connection-Public net addr conn e)
  ]

  transport-Public :
      (t : Transport) (url : Url)
      → IsSafeTransport t
      → Ensures (Public net) (wire.transport_connection t url)
  unfolding dial
  transport-Public t url h = elim (Option-cases (t.proxy)) [
    | inl e ↦ rw (dials.directly t url e, h.0) (safe_connection-Ensures (wire.addr_of url))
    | inr (p, e) ↦ rw (dials.by_proxy t url p e, h.0) (safe_connection-Ensures (wire.addr_of p))
  ]

  reach-Public :
      (c : HttpClient) (url : Url) → IsSafe net c → Ensures (Public net) (reach net wire c url)
  unfolding reach
  reach-Public (with_transport t) url h = transport-Public t url h
  reach-Public (with_browser t) url h = elim (Bool-cases (url.scheme =? codes "https")) [
    | inl e ↦ rw e (safe_connection-Ensures (https_addr net url.host))
    | inr e ↦ rw e (transport-Public t url h.0)
  ]
  reach-Public without_transport url h = absurd h

  -- Whatever the proxy setting, for each URL that is requested, also after a redirect: the client for
  -- pages and the client for images verify certificates, those of the browser's round tripper in each
  -- TLS connection of `dialUTLS`, and a connection that they make is one to an address that is not private.
  pub clients-Public :
      (parse_url : Text → Option Url) (proxy_url : Text) (url target : Url)
      → IsSafe net (open_client parse_url (client_for proxy_url url))
        × Ensures
            (Public net)
            (reach net wire (open_client parse_url (client_for proxy_url url)) target)
        × IsSafe net (get_image_client parse_url proxy_url fetch_image_client)
        × Ensures
            (Public net)
            (reach net wire (get_image_client parse_url proxy_url fetch_image_client) target)
  clients-Public parse_url proxy_url url target =
      let page = open_client-IsSafe net parse_url (client_for proxy_url url) in
      let image = get_image_client-IsSafe net parse_url proxy_url in
      (page, reach-Public _ target page, image, reach-Public _ target image)

  reach-direct :
      (url : Url)
      → reach net wire (with_transport direct) url ≡ safe_connection net (wire.addr_of url)
  unfolding reach dial
  reach-direct url = dials.directly direct url refl

  -- If the proxy setting is a text that `url.Parse` refuses, both clients connect to the host of the
  -- URL directly, by the dialer of `safeDialContext`, as if there were no setting.
  pub invalid_proxy_direct :
      (parse_url : Text → Option Url) (proxy_url : Text) (url target : Url)
      → proxy_url ≢ []
      → parse_url proxy_url ≡ none
      → (reach net wire (open_client parse_url (client_for proxy_url url)) target
          ≡ safe_connection net (wire.addr_of target))
        × (reach net wire (get_image_client parse_url proxy_url fetch_image_client) target
            ≡ safe_connection net (wire.addr_of target))
  unfolding client_for open_client get_image_client
  invalid_proxy_direct parse_url proxy_url url target set bad =
      let given : (proxy_url =? []) ≡ false = ground (arith, set, =?_iff proxy_url []) in
      let ignored = new_proxy_client_invalid net parse_url proxy_url bad in
      (rw (given, ignored) (reach-direct target), rw (given, ignored) (reach-direct target))
