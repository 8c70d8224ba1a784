-- ===== src/Srcset/Widest.antt =====
-- The image that `pickBestSrcsetURL` picks.
use deckle.Base.{
  codes, contains, ℕ, ◌≤◌, true, false, List, [], ◌∷◌, ◌≡◌, ◌≢◌, refl, sym, ap, subst, ◌∙◌, arith,
  Text, ◌=?◌, ltb, All, if◌then◌else◌, Bool-cases, inl, inr,
}
use mathlib.Core.List.{Memᴰ}
use deckle.Srcset.Width.{IsWidth, width_of-IsWidth, IsWidth-width_of}
use deckle.Srcset.{
  Match, Best, no_best, is_webp, width_of, better, pick_other, pick_any, pick_best_srcset_url,
}

-- The matches that have no "/format:webp/" in their URL.
abbrev pub others : List Match → List Match
others [] = []
others (m ∷ ms) = if contains m.url (codes "/format:webp/") then others ms else m ∷ others ms

-- The matches to choose from: those, or all if there are none.
abbrev pub choices_from : List Match → List Match → List Match
choices_from [] ms = ms
choices_from (o ∷ os) ms = o ∷ os

abbrev pub choices : List Match → List Match
choices ms = choices_from (others ms) ms

-- The regular expression matches no empty URL.
abbrev pub HasUrl : Match → Type 0
HasUrl m = (m.url =? []) ≡ false

module _ (scan_width : Text → ℕ) where
  -- One of the matches, the widest.
  record IsBest (ms : List Match) (url : Text) : Type 0 where
    best : Match
    among : Memᴰ best ms
    is_url : url ≡ best.url
    widest : All (λ n. width_of scan_width n ≤ width_of scan_width best) ms

  abbrev best_of : Match → Best
  best_of m = record { url = m.url; width = width_of scan_width m }

  pick_other-others :
      (best : Best) (ms : List Match)
      → pick_other scan_width best ms ≡ pick_any scan_width best (others ms)
  unfolding pick_other pick_any is_webp
  pick_other-others best [] = refl
  pick_other-others best (m ∷ ms) = elim (Bool-cases (contains m.url (codes "/format:webp/"))) [
    | inl e ↦ rw e (pick_other-others best ms)
    | inr e ↦ rw e (pick_other-others (better scan_width best m) ms)
  ]

  Mem-skip : {b m n : Match} {ms : List Match} → Memᴰ b (m ∷ ms) → Memᴰ b (m ∷ n ∷ ms)
  Mem-skip (Memᴰ.head e) = Memᴰ.head e
  Mem-skip (Memᴰ.tail i) = Memᴰ.tail (Memᴰ.tail i)

  better-wider :
      (m n : Match)
      → ltb (width_of scan_width m) (width_of scan_width n) ≡ true
      → better scan_width (best_of m) n ≡ best_of n
  unfolding better
  better-wider m n e = ground arith

  better-narrower :
      (m n : Match)
      → ltb (width_of scan_width m) (width_of scan_width n) ≡ false
      → HasUrl m
      → better scan_width (best_of m) n ≡ best_of m
  unfolding better
  better-narrower m n e h = ground arith

  -- The loop, from one match on, ends with the widest.
  pick_any-IsBest :
      (m : Match) (ms : List Match)
      → HasUrl m
      → All HasUrl ms
      → IsBest (m ∷ ms) (pick_any scan_width (best_of m) ms).url
  unfolding pick_any
  pick_any-IsBest m [] h hs = record {
    best = m;
    among = Memᴰ.head refl;
    is_url = refl;
    widest = (omega arith, tt);
  }
  pick_any-IsBest m (n ∷ ms) h hs =
      elim (Bool-cases (ltb (width_of scan_width m) (width_of scan_width n))) [
        | inl e ↦
            let w = pick_any-IsBest n ms hs.0 hs.1 in
            subst (λ b. IsBest (m ∷ n ∷ ms) (pick_any scan_width b ms).url)
              (sym (better-wider m n e))
              (record {
                best = w.best;
                among = Memᴰ.tail w.among;
                is_url = w.is_url;
                widest = (ground (arith, w.widest.0), w.widest);
              })
        | inr e ↦
            let w = pick_any-IsBest m ms h hs.1 in
            subst (λ b. IsBest (m ∷ n ∷ ms) (pick_any scan_width b ms).url)
              (sym (better-narrower m n e h))
              (record {
                best = w.best;
                among = Mem-skip w.among;
                is_url = w.is_url;
                widest = (w.widest.0, (ground (arith, w.widest.0), w.widest.1));
              })
      ]

  first_pick : (m : Match) → better scan_width no_best m ≡ best_of m
  unfolding better ◌=?◌
  first_pick m = ground arith

  All-Mem : {b : Match} (ms : List Match) → Memᴰ b ms → All HasUrl ms → HasUrl b
  All-Mem [] i h = elim i [ ]
  All-Mem (m ∷ ms) (Memᴰ.head e) h = rw e h.0
  All-Mem (m ∷ ms) (Memᴰ.tail i) h = All-Mem ms i h.1

  others-HasUrl : (ms : List Match) → All HasUrl ms → All HasUrl (others ms)
  others-HasUrl [] h = tt
  others-HasUrl (m ∷ ms) h = elim (Bool-cases (contains m.url (codes "/format:webp/"))) [
    | inl e ↦ rw e (others-HasUrl ms h.1)
    | inr e ↦ rw e (h.0, others-HasUrl ms h.1)
  ]

  pick_first-IsBest :
      (m : Match) (ms : List Match)
      → All HasUrl (m ∷ ms)
      → IsBest (m ∷ ms) (pick_any scan_width no_best (m ∷ ms)).url
  unfolding pick_any
  pick_first-IsBest m ms h =
      subst (λ b. IsBest (m ∷ ms) (pick_any scan_width b ms).url) (sym (first_pick m))
        (pick_any-IsBest m ms h.0 h.1)

  picks_from :
      (os ms : List Match)
      → others ms ≡ os
      → ms ≢ []
      → All HasUrl os
      → All HasUrl ms
      → IsBest (choices_from os ms) (
          let best = pick_any scan_width no_best os in
          if best.url =? [] then (pick_any scan_width best ms).url else best.url)
  unfolding pick_any ◌=?◌
  picks_from [] [] e n ho h = absurd (n refl)
  picks_from [] (m ∷ ms) e n ho h = pick_first-IsBest m ms h
  picks_from (o ∷ os) ms e n ho h =
      let w = pick_first-IsBest o os ho in
      let found : ((pick_any scan_width no_best (o ∷ os)).url =? []) ≡ false =
        ap (λ t. t =? []) w.is_url ∙ All-Mem (o ∷ os) w.among ho in
      subst
        (λ b. IsBest (o ∷ os) (
          if b
          then (pick_any scan_width (pick_any scan_width no_best (o ∷ os)) ms).url
          else (pick_any scan_width no_best (o ∷ os)).url))
        (sym found) w

  -- The URL of one of the matches, which has a width, and none of the others has a larger one.
  pub record IsWidest (ms : List Match) (url : Text) : Type 0 where
    pub best : Match
    pub among : Memᴰ best ms
    pub is_url : url ≡ best.url
    pub width : ℕ
    pub is_width : IsWidth scan_width best width
    pub widest : All (λ n. (w : ℕ) → IsWidth scan_width n w → w ≤ width) ms

  widths :
      (width : ℕ) (ms : List Match)
      → All (λ n. width_of scan_width n ≤ width) ms
      → All (λ n. (w : ℕ) → IsWidth scan_width n w → w ≤ width) ms
  widths width [] h = tt
  widths width (m ∷ ms) (le, h) =
      ((λ w v. omega (arith, le, IsWidth-width_of scan_width m w v)), widths width ms h)

  -- If there are matches and none has an empty URL, `pickBestSrcsetURL` gives the URL of one of them,
  -- the width of which is at least that of each other that it chooses from. It chooses from the matches
  -- without "/format:webp/" in their URL, however much wider the others are, and from all of them if
  -- there are none.
  pub pick_best_srcset_url-IsWidest :
      (ms : List Match)
      → ms ≢ []
      → All HasUrl ms
      → IsWidest (choices ms) (pick_best_srcset_url scan_width ms)
  unfolding pick_best_srcset_url
  pick_best_srcset_url-IsWidest ms n h =
      let w : IsBest (choices ms) (pick_best_srcset_url scan_width ms) =
        subst
          (λ b. IsBest (choices ms) (if b.url =? [] then (pick_any scan_width b ms).url else b.url))
          (sym (pick_other-others no_best ms))
          (picks_from (others ms) ms refl n (others-HasUrl ms h) h) in
      record {
        best = w.best;
        among = w.among;
        is_url = w.is_url;
        width = width_of scan_width w.best;
        is_width = width_of-IsWidth scan_width w.best;
        widest = widths (width_of scan_width w.best) (choices ms) w.widest;
      }
