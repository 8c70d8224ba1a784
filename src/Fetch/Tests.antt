-- ===== src/Fetch/Tests.antt =====
-- Two goroutines, of which the second is done first.
use deckle.Base.{
  ◌≤◌, Option, none, some, List, [], ◌∷◌, ◌≡◌, refl, arith, Text, codes, ◌=?◌, if◌then◌else◌,
}
use deckle.Document.Byline.{EpubArticle}
use deckle.Fetch.Bounds.{held-le}
use deckle.Fetch.Order.{gather-Reach}
use deckle.Fetch.Pool.{
  working, stored, left, Worker, start, started, held, Step, acquire, store, leave, Reach, here,
  next, IsDone, gather, successes,
}
use deckle.Fetch.Progress.{fetch_finishes}

abbrev article : Text → EpubArticle
article t = record {
  html = [];
  title = t;
  source = record { url = t; byline = []; site_name = []; published_time = none };
}

-- `processURL`, which fails on the URL "b".
abbrev process : Text → Option EpubArticle
process url = if url =? codes "b" then none else some (article url)

abbrev urls : List Text
urls = codes "a" ∷ codes "b" ∷ []

abbrev first : Worker EpubArticle
first = start (process (codes "a"))

abbrev second : Worker EpubArticle
second = start (process (codes "b"))

abbrev second_left : List (Worker EpubArticle)
second_left = first ∷ record second { phase = left } ∷ []

abbrev both_left : List (Worker EpubArticle)
both_left =
    record first { phase = left; slot = first.outcome }
    ∷ record second { phase = left; slot = second.outcome }
    ∷ []

second_works : Step 1 (started process urls) (first ∷ record second { phase = working } ∷ [])
second_works = acquire (first ∷ []) [] second refl (omega arith)

to_second :
    Reach 1
      (started process urls)
      (first ∷ record second { phase = left; slot = second.outcome } ∷ [])
to_second =
    next
      (next (next here second_works)
        (store (first ∷ []) [] (record second { phase = working }) refl))
      (leave (first ∷ []) [] (record second { phase = stored; slot = second.outcome }) refl)

to_both : Reach 1 (started process urls) both_left
to_both =
    let others = record second { phase = left; slot = second.outcome } ∷ [] in
    next
      (next (next to_second (acquire [] others first refl (omega arith)))
        (store [] others (record first { phase = working }) refl))
      (leave [] others (record first { phase = stored; slot = first.outcome }) refl)

fetch_finishes_example :
    (vs : List (Worker EpubArticle)) × Reach 1
      (first ∷ record second { phase = left; slot = second.outcome } ∷ [])
      vs
    × IsDone vs
    × (gather vs ≡ successes process urls)
fetch_finishes_example =
    fetch_finishes process urls 1
      (first ∷ record second { phase = left; slot = second.outcome } ∷ []) (omega arith) to_second

gather-Reach_example : gather both_left ≡ successes process urls
gather-Reach_example = gather-Reach process urls 1 both_left to_both (refl, (refl, tt))

held-le_example : held (first ∷ record second { phase = left; slot = second.outcome } ∷ []) ≤ 1
held-le_example =
    held-le process urls 1 (first ∷ record second { phase = left; slot = second.outcome } ∷ [])
      to_second
