-- ===== src/Imaging/Optimize/Bounds.antt =====
-- The picture that `optimizeImage` encodes.
use deckle.Base.{
  ℕ, ◌≤◌, ◌<◌, true, false, Bool-cases, Option-cases, Option, none, some, ◌>>=◌, ◌++◌, ◌≡◌, refl,
  arith, Text, codes, inl, inr,
}
use deckle.Cli.Run.{OptimizeOpts}
use deckle.Imaging.Optimize.{
  Codecs, Formats, Picture, flatten_alpha, to_grayscale, new_height, resize, downscale, prepare,
  is_passed_through, optimize_image, decode_base_64, try_optimize_data_uri,
}

module _ (c : Codecs) (fm : Formats c) where
  -- `q` is not wider than wanted nor than `p`, has rows if `p` has, is of the size of `p` if that is
  -- not too wide, and is gray if wanted.
  pub record Fits (opts : OptimizeOpts) (p q : Picture c) : Type 0 where
    pub fits : q.width ≤ opts.max_width
    pub not_wider : q.width ≤ p.width
    pub has_rows : 0 < p.height → 0 < q.height
    pub same_size : p.width ≤ opts.max_width → (q.width ≡ p.width) × (q.height ≡ p.height)
    pub is_gray :
        opts.grayscale ≡ true → (x y : ℕ) → (color : c.Color) × (q.pixel x y ≡ c.gray_of color)

  -- What may become of the payload of a data URI.
  pub data Outcome (opts : OptimizeOpts) (mime payload : Text) : Option Text → Type 0 where
    no_base_64 : decode_base_64 c payload ≡ none → Outcome opts mime payload none
    passed_through :
        (raw : Text)
        → decode_base_64 c payload ≡ some raw
        → is_passed_through c fm raw mime ≡ true
        → Outcome opts mime payload none
    no_picture :
        (raw : Text)
        → decode_base_64 c payload ≡ some raw
        → fm.decode raw ≡ none
        → Outcome opts mime payload none
    no_jpeg :
        (raw : Text) (p q : Picture c)
        → decode_base_64 c payload ≡ some raw
        → fm.decode raw ≡ some p
        → Fits opts p q
        → fm.encode_jpeg q opts.quality ≡ none
        → Outcome opts mime payload none
    optimized :
        (raw jpeg : Text) (p q : Picture c)
        → decode_base_64 c payload ≡ some raw
        → is_passed_through c fm raw mime ≡ false
        → fm.decode raw ≡ some p
        → Fits opts p q
        → fm.encode_jpeg q opts.quality ≡ some jpeg
        → Outcome opts mime payload
            (some (codes "data:image/jpeg;base64," ++ c.encode_base_64 jpeg))

  new_height-positive : (max_width w h : ℕ) → 0 < new_height c max_width w h
  unfolding new_height
  new_height-positive max_width w h = ground arith

  prepare-width :
      (opts : OptimizeOpts) (p : Picture c) → (prepare c fm opts p).width ≤ opts.max_width
  unfolding prepare downscale flatten_alpha to_grayscale resize
  prepare-width opts p = ground arith

  prepare-width_original :
      (opts : OptimizeOpts) (p : Picture c) → (prepare c fm opts p).width ≤ p.width
  unfolding prepare downscale flatten_alpha to_grayscale resize
  prepare-width_original opts p = ground arith

  prepare-height :
      (opts : OptimizeOpts) (p : Picture c) → 0 < p.height → 0 < (prepare c fm opts p).height
  unfolding prepare downscale flatten_alpha to_grayscale resize
  prepare-height opts p h = ground (arith, new_height-positive opts.max_width p.width p.height)

  prepare-size :
      (opts : OptimizeOpts) (p : Picture c)
      → p.width ≤ opts.max_width
      → ((prepare c fm opts p).width ≡ p.width) × ((prepare c fm opts p).height ≡ p.height)
  unfolding prepare downscale flatten_alpha to_grayscale resize
  prepare-size opts p h = ground arith

  prepare-gray :
      (opts : OptimizeOpts) (p : Picture c)
      → opts.grayscale ≡ true
      → (x y : ℕ) → (color : c.Color) × ((prepare c fm opts p).pixel x y ≡ c.gray_of color)
  unfolding prepare to_grayscale
  prepare-gray opts p h x y = rw h (_, refl)

  prepare-Fits : (opts : OptimizeOpts) (p : Picture c) → Fits opts p (prepare c fm opts p)
  prepare-Fits opts p = record {
    fits = prepare-width opts p;
    not_wider = prepare-width_original opts p;
    has_rows = prepare-height opts p;
    same_size = prepare-size opts p;
    is_gray = prepare-gray opts p;
  }

  encoded-Outcome :
      (opts : OptimizeOpts) (mime payload raw : Text) (p : Picture c) (jpeg : Option Text)
      → decode_base_64 c payload ≡ some raw
      → is_passed_through c fm raw mime ≡ false
      → fm.decode raw ≡ some p
      → fm.encode_jpeg (prepare c fm opts p) opts.quality ≡ jpeg
      → Outcome opts mime payload
          (do j ← jpeg; some (codes "data:image/jpeg;base64," ++ c.encode_base_64 j))
  encoded-Outcome opts mime payload raw p none d f r e =
      no_jpeg raw p (prepare c fm opts p) d r (prepare-Fits opts p) e
  encoded-Outcome opts mime payload raw p (some jpeg) d f r e =
      optimized raw jpeg p (prepare c fm opts p) d f r (prepare-Fits opts p) e

  optimize_image-Outcome :
      (opts : OptimizeOpts) (mime payload raw : Text)
      → decode_base_64 c payload ≡ some raw
      → Outcome opts mime payload (optimize_image c fm raw mime opts)
  unfolding optimize_image
  optimize_image-Outcome opts mime payload raw d =
      elim (Bool-cases (is_passed_through c fm raw mime)) [
        | inl passed ↦ rw passed (passed_through raw d passed)
        | inr not_passed ↦ elim (Option-cases (fm.decode raw)) [
          | inl fails ↦ rw (not_passed, fails) (no_picture raw d fails)
          | inr (p, r) ↦
              rw (not_passed, r)
                (encoded-Outcome opts mime payload raw p
                  (fm.encode_jpeg (prepare c fm opts p) opts.quality) d not_passed r refl)
        ]
      ]

  -- `tryOptimizeDataURI` gives a JPEG, in the quality and within the bounds that the options set, of
  -- the picture in the payload, unless the payload cannot be decoded, is passed through because of
  -- its format, or cannot be encoded.
  pub try_optimize_data_uri-Outcome :
      (mime payload : Text) (opts : OptimizeOpts)
      → Outcome opts mime payload (try_optimize_data_uri c fm mime payload opts)
  unfolding try_optimize_data_uri
  try_optimize_data_uri-Outcome mime payload opts = elim (Option-cases (decode_base_64 c payload)) [
    | inl fails ↦ rw fails (no_base_64 fails)
    | inr (raw, d) ↦ rw d (optimize_image-Outcome opts mime payload raw d)
  ]
