-- ===== src/Http/Page/Accepted.antt =====
-- What `fetchHTML` accepts.
use deckle.Base.{
  refl, ◌⊎◌, inl, inr, Bool-cases, ◌==◌, ◌∙◌, ltb, leb, ◌||◌, true, ◌↔◌, ℕ, ◌+◌, ◌≤◌, ◌<◌, false,
  some, >>=-eq-some, ◌≡◌, arith, length, Text,
}
use deckle.Cli.Urls.{Reader}
use deckle.Http.{int_64_end, read_all, read_limited}
use deckle.Http.Limit.{read_limited-whole_within}
use deckle.Http.Page.{
  Url, Page, PageResponse, Internet, client_for, page_headers, request_page, accept_page,
  fetch_html,
}

module _ (net : Internet) where
  -- The page is the whole body of a response with a status of success, within the limit.
  pub record Accepted (raw_url user_agent : Text) (p : Page) : Type 0 where
    pub is_request_url : net.is_request_url raw_url ≡ true
    pub parses : net.parse_url raw_url ≡ some p.url
    pub response : PageResponse
    pub answers :
        net.send
          (client_for net.proxy_url p.url)
          (record { raw_url = raw_url; headers = page_headers user_agent })
        ≡ some response
    pub success : (200 ≤ response.status_code) × (response.status_code < 300)
    pub whole : response.body ≡ record { content = p.html; fails = false }
    pub within : (net.max_response_bytes ≡ 0) ⊎ (length p.html ≤ net.max_response_bytes)

  request_page-send :
      (raw_url user_agent : Text) (url : Url) (r : PageResponse)
      → request_page net raw_url user_agent url ≡ some r
      → (net.is_request_url raw_url ≡ true)
        × (net.send
              (client_for net.proxy_url url)
              (record { raw_url = raw_url; headers = page_headers user_agent })
            ≡ some r)
  unfolding request_page
  request_page-send raw_url user_agent url r h = ground arith

  read_whole :
      (r : Reader) (limit : ℕ) (t : Text)
      → limit + 1 < int_64_end
      → read_limited r limit ≡ some t
      → (r ≡ record { content = t; fails = false }) × ((limit ≡ 0) ⊎ (length t ≤ limit))
  unfolding read_all
  read_whole r limit t small h =
      let eq = read_limited-whole_within r limit (omega arith) in
      elim (Bool-cases (limit == 0)) [
        | inl none_set ↦ ground (arith, eq)
        | inr set ↦ ground (arith, eq)
      ]

  accept_page-success :
      (url : Url) (r : PageResponse) (p : Page)
      → accept_page net url r ≡ some p
      → (200 ≤ r.status_code)
        × (r.status_code < 300)
        × (p.url ≡ url)
        × (read_limited r.body net.max_response_bytes ≡ some p.html)
  unfolding accept_page
  accept_page-success url r p h = ground arith

  fetch_html-accepts :
      (raw_url user_agent : Text) (p : Page)
      → net.max_response_bytes + 1 < int_64_end
      → fetch_html net raw_url user_agent ≡ some p
      → Accepted raw_url user_agent p
  unfolding fetch_html
  fetch_html-accepts raw_url user_agent p small h =
      let (url, parses, more) = >>=-eq-some (net.parse_url raw_url) _ h in
      let (r, answers, accepts) = >>=-eq-some (request_page net raw_url user_agent url) _ more in
      let (low, high, same, reads) = accept_page-success url r p accepts in
      let (whole, within) = read_whole r.body net.max_response_bytes p.html small reads in
      let (valid, sent) = request_page-send raw_url user_agent url r answers in
      record {
        is_request_url = valid;
        parses = rw same parses;
        response = r;
        answers = rw same sent;
        success = (low, high);
        whole = whole;
        within = within;
      }

  read_limited_whole :
      (r : Reader) (limit : ℕ) (t : Text)
      → limit + 1 < int_64_end
      → r ≡ record { content = t; fails = false }
      → (limit ≡ 0) ⊎ (length t ≤ limit)
      → read_limited r limit ≡ some t
  unfolding read_all
  read_limited_whole r limit t small h within = rw h (
      read_limited-whole_within (record { content = t; fails = false }) limit (omega arith)
      ∙ ground (arith, within))

  accept_page-whole :
      (r : PageResponse) (p : Page)
      → net.max_response_bytes + 1 < int_64_end
      → (200 ≤ r.status_code) × (r.status_code < 300)
      → r.body ≡ record { content = p.html; fails = false }
      → (net.max_response_bytes ≡ 0) ⊎ (length p.html ≤ net.max_response_bytes)
      → accept_page net p.url r ≡ some p
  unfolding accept_page
  accept_page-whole r p small status body within =
      let reads = read_limited_whole r.body net.max_response_bytes p.html small body within in
      let good : (ltb r.status_code 200 || leb 300 r.status_code) ≡ false =
        ground (arith, status) in
      rw (good, reads) refl

  fetch_html-gives :
      (raw_url user_agent : Text) (p : Page)
      → net.max_response_bytes + 1 < int_64_end
      → Accepted raw_url user_agent p
      → fetch_html net raw_url user_agent ≡ some p
  unfolding fetch_html request_page
  fetch_html-gives raw_url user_agent p small w =
      rw (w.parses, w.is_request_url, w.answers)
        (accept_page-whole w.response p small w.success w.whole w.within)

  -- With a limit whose successor is an `int64`, or without a limit, `fetchHTML` gives a page exactly if the URL
  -- can be parsed and requested, the request by the client for the parsed URL is answered with a
  -- status from 200 to 299, and the page is the whole body, which is not longer than the limit.
  pub fetch_html-Accepted :
      (raw_url user_agent : Text) (p : Page)
      → net.max_response_bytes + 1 < int_64_end
      → (fetch_html net raw_url user_agent ≡ some p) ↔ Accepted raw_url user_agent p
  fetch_html-Accepted raw_url user_agent p small =
      (fetch_html-accepts raw_url user_agent p small, fetch_html-gives raw_url user_agent p small)
