-- ===== src/Srcset.antt =====
-- `pickBestSrcsetURL` of imgoptimize.go: the image of a <picture> that is downloaded. The matches
-- of `extSrcsetURLRe` and the number that `fmt.Sscanf` reads with "%dw" (0 if none) are parameters.
pub mod Width
pub mod Widest
mod Tests
use deckle.Base.{
  ℕ, zero, suc, ◌+◌, Bool, true, false, not, ◌&&◌, ◌||◌, Option, none, some, List, [], ◌∷◌, Text,
  codes, ◌=?◌, ltb, drop, contains, last_index, if◌then◌else◌,
}

-- A match: the whole text, and the URL in it.
pub record Match : Type 0 where
  pub full : Text
  pub url : Text

-- `bestURL` and `bestWidth`
pub record Best : Type 0 where
  pub url : Text
  pub width : ℕ

abbrev pub no_best : Best
no_best = record { url = []; width = 0 }

-- `strings.Contains(u, "/format:webp/")`, as WebP images have it on one site; other WebP images are
-- not recognised.
unfoldable pub is_webp : Match → Bool
is_webp m = contains m.url (codes "/format:webp/")

module _ (scan_width : Text → ℕ) where
  -- The descriptor behind the last blank, unless the match begins with that.
  unfoldable pub width_at : Text → Option ℕ → ℕ
  width_at full none = 0
  width_at full (some zero) = 0
  width_at full (some (suc i)) = scan_width (drop (suc i + 1) full)

  unfoldable pub width_of : Match → ℕ
  width_of m = width_at m.full (last_index m.full (codes " "))

  -- `if w > bestWidth || bestURL == ""`
  unfoldable pub better : Best → Match → Best
  better best m =
      if ltb best.width (width_of m) || best.url =? []
      then record { url = m.url; width = width_of m }
      else best

  -- The first loop, which skips WebP images
  unfoldable pub pick_other : Best → List Match → Best
  pick_other best [] = best
  pick_other best (m ∷ ms) = if is_webp m then pick_other best ms else pick_other (better best m) ms

  -- The second loop
  unfoldable pub pick_any : Best → List Match → Best
  pick_any best [] = best
  pick_any best (m ∷ ms) = pick_any (better best m) ms

  -- `pickBestSrcsetURL`, on the matches
  unfoldable pub pick_best_srcset_url : List Match → Text
  pick_best_srcset_url ms =
      let best = pick_other no_best ms in
      if best.url =? [] then (pick_any best ms).url else best.url
