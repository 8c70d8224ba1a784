-- ===== src/Imaging/Optimize.antt =====
-- `optimizeImage`, `decodeBase64` and `tryOptimizeDataURI`.
pub mod Bounds
use deckle.Base.{
  ℕ, ltb, Bool, true, false, ◌&&◌, ◌||◌, Option, none, some, ◌>>=◌, ◌++◌, Text, codes, length,
  contains, if◌then◌else◌,
}
use deckle.Cli.Run.{OptimizeOpts}

-- What the program calls of the libraries for images, base64 and floating point numbers.
pub record Codecs : Type 1 where
  pub Color : Type 0
  -- `color.GrayModel.Convert`, and `draw.Over` on a white pixel
  pub gray_of : Color → Color
  pub over_white : Color → Color
  pub Float : Type 0
  pub of_int : ℕ → Float
  pub quotient : Float → Float → Float
  pub product : Float → Float → Float
  -- `int(math.Round(f))`, of a number that is not negative
  pub round_to_int : Float → ℕ
  -- `base64.StdEncoding.EncodeToString`, and `DecodeString` of `StdEncoding` and `RawStdEncoding`
  pub encode_base_64 : Text → Text
  pub decode_std : Text → Option Text
  pub decode_raw : Text → Option Text
  -- `gif.DecodeAll`: the number of frames
  pub gif_frames : Text → Option ℕ

-- `decodeBase64`
unfoldable pub decode_base_64 : Codecs → Text → Option Text
decode_base_64 c s = elim (c.decode_std s) [ none ↦ c.decode_raw s | some raw ↦ some raw ]

-- `isAnimatedGIF`
unfoldable pub is_animated_gif : Codecs → Text → Bool
is_animated_gif c bytes = elim (c.gif_frames bytes) [ none ↦ false | some n ↦ ltb 1 n ]

-- An `image.Image`, from its upper left corner on.
pub record Picture (c : Codecs) : Type 0 where
  pub width : ℕ
  pub height : ℕ
  pub pixel : ℕ → ℕ → c.Color

module _ (c : Codecs) where
  -- `image.Decode`, the pixels that `xdraw.BiLinear.Scale` gives for a width and a height, and
  -- `jpeg.Encode` with a quality
  pub record Formats : Type 0 where
    pub decode : Text → Option (Picture c)
    pub bilinear : Picture c → ℕ → ℕ → ℕ → ℕ → c.Color
    pub encode_jpeg : Picture c → ℕ → Option Text

  -- `flattenAlpha`
  unfoldable pub flatten_alpha : Picture c → Picture c
  flatten_alpha p = record p { pixel = λ x y. c.over_white (p.pixel x y) }

  -- `toGrayscale`
  unfoldable pub to_grayscale : Picture c → Picture c
  to_grayscale p = record p { pixel = λ x y. c.gray_of (p.pixel x y) }

  -- `newH`
  unfoldable pub new_height : ℕ → ℕ → ℕ → ℕ
  new_height max_width w h =
      let ratio = c.quotient (c.of_int max_width) (c.of_int w) in
      let scaled = c.round_to_int (c.product (c.of_int h) ratio) in
      if ltb scaled 1 then 1 else scaled

module _ (c : Codecs) (fm : Formats c) where
  -- `resize`
  unfoldable pub resize : Picture c → ℕ → ℕ → Picture c
  resize p w h = record { width = w; height = h; pixel = fm.bilinear p w h }

  unfoldable pub downscale : ℕ → Picture c → Picture c
  downscale max_width p =
      if ltb max_width p.width
      then resize p max_width (new_height c max_width p.width p.height)
      else p

  -- The picture that is encoded
  unfoldable pub prepare : OptimizeOpts → Picture c → Picture c
  prepare opts p =
      let scaled = downscale opts.max_width (flatten_alpha c p) in
      if opts.grayscale then to_grayscale c scaled else scaled

  abbrev pub is_passed_through : Text → Text → Bool
  is_passed_through bytes mime =
      contains mime (codes "svg")
      || (contains mime (codes "avif") || (contains mime (codes "gif") && is_animated_gif c bytes))

  -- `optimizeImage`, without the number of bytes; `none` is the empty string
  unfoldable pub optimize_image : Text → Text → OptimizeOpts → Option Text
  optimize_image bytes mime opts =
      let optimized = do
        p ← fm.decode bytes
        jpeg ← fm.encode_jpeg (prepare opts p) opts.quality
        some (codes "data:image/jpeg;base64," ++ c.encode_base_64 jpeg)
      in if is_passed_through bytes mime then none else optimized

  -- `tryOptimizeDataURI`
  unfoldable pub try_optimize_data_uri : Text → Text → OptimizeOpts → Option Text
  try_optimize_data_uri mime b_64_data opts = do
    raw ← decode_base_64 c b_64_data
    optimize_image raw mime opts
