-- ===== src/Imaging/Embed/Schedule.antt =====
-- The goroutines of `fetchAndEmbed`.
use deckle.Base.{ℕ, ◌<◌, some, List, [], ◌∷◌, map, ◌≡◌, refl, ap, ◌∙◌, arith, Text}
use deckle.Fetch.Order.{slots-Reach}
use deckle.Fetch.Pool.{Worker, Reach, IsDone}
use deckle.Fetch.Progress.{finishes, Reach-trans}
use deckle.Imaging.Download.{Web, FetchResult, fetch_one_image}
use deckle.Imaging.Embed.{
  rebuild, url_of, result_of, capacity, downloads, embed_results, fetch_and_embed,
}
use deckle.Imaging.Optimize.{Codecs}
use deckle.Imaging.Patterns.{ext_img_re}
use deckle.Regex.Pieces.{Piece, find_all}

results_lem :
    (ws : List (Worker FetchResult)) (f : Text → FetchResult) (ps : List Piece)
    → map (λ w. w.slot) ws ≡ map (λ url. some (f url)) (map url_of ps)
    → map (λ w. result_of w.slot) ws ≡ map (λ p. f (url_of p)) ps
results_lem [] f [] h = refl
results_lem [] f (p ∷ ps) h = cc
results_lem (w ∷ ws) f [] h = cc
results_lem (w ∷ ws) f (p ∷ ps) h =
    let first : w.slot ≡ some (f (url_of p)) = cc h in
    let others : map (λ v. v.slot) ws ≡ map (λ url. some (f url)) (map url_of ps) = cc h in
    ap (λ o. result_of o ∷ map (λ v. result_of v.slot) ws) first
    ∙ ap (◌∷◌ (f (url_of p))) (results_lem ws f ps others)

capacity-positive : (n : ℕ) → 0 < capacity n
capacity-positive n = ground arith

module _ (web : Web) (c : Codecs) where
  embed_results-Reach :
      (html : Text) (n : ℕ) (ws : List (Worker FetchResult))
      → Reach n (downloads web c html) ws
      → IsDone ws
      → embed_results html ws ≡ fetch_and_embed web c html
  unfolding embed_results fetch_and_embed
  embed_results-Reach html n ws r d =
      let ps = find_all ext_img_re html in
      ap (λ results. rebuild ps.pieces results ps.tail)
        (results_lem ws (fetch_one_image web c) ps.pieces (slots-Reach _ _ n ws r d))

  -- For every concurrency, whatever the goroutines that download the images have done so far, they
  -- can all leave, and then the text that is built from their results is what `fetchAndEmbed` gives
  -- with the results in the order of the matches.
  pub fetch_and_embed_finishes :
      (html : Text) (concurrency : ℕ) (ws : List (Worker FetchResult))
      → Reach (capacity concurrency) (downloads web c html) ws
      → (vs : List (Worker FetchResult)) × Reach (capacity concurrency) ws vs
        × IsDone vs
        × (embed_results html vs ≡ fetch_and_embed web c html)
  fetch_and_embed_finishes html n ws r =
      let (vs, q, d) = finishes (capacity n) (capacity-positive n) ws in
      (vs, q, d, embed_results-Reach html (capacity n) vs (Reach-trans r q) d)
