-- ===== src/Srcset/Tests.antt =====
-- Three images, the widest of which is WebP.
use deckle.Base.{
  ℕ, List, [], ◌∷◌, ◌≡◌, ◌≢◌, refl, Text, codes, length, All, ◌=?◌, contains, has_prefix,
  last_index,
}
use deckle.Srcset.{
  Match, is_webp, width_of, width_at, better, pick_other, pick_any, pick_best_srcset_url,
}
use deckle.Srcset.Widest.{HasUrl, choices, IsWidest, pick_best_srcset_url-IsWidest}

-- Numbers are as wide here as they are long.
abbrev sample_width : Text → ℕ
sample_width t = length t

abbrev images : List Match
images =
    record { full = codes "https://a 64w"; url = codes "https://a" }
    ∷ record { full = codes "https://b/format:webp/ 9999w"; url = codes "https://b/format:webp/" }
    ∷ record { full = codes "https://c 640w"; url = codes "https://c" }
    ∷ []

picks_third : pick_best_srcset_url sample_width images ≡ codes "https://c"
unfolding pick_best_srcset_url pick_other pick_any better width_of width_at is_webp contains
    has_prefix last_index ◌=?◌
picks_third = refl

images-HasUrl : All HasUrl images
unfolding ◌=?◌
images-HasUrl = (refl, (refl, (refl, tt)))

images-nonempty : images ≢ []
images-nonempty e = cc

pick_best_srcset_url-IsWidest_example :
    IsWidest sample_width (choices images) (pick_best_srcset_url sample_width images)
pick_best_srcset_url-IsWidest_example =
    pick_best_srcset_url-IsWidest sample_width images images-nonempty images-HasUrl
