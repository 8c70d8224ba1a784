-- ===== src/Sanitize/Attrs.antt =====
-- `sanitizeID`, `sanitizeDimensionAttr` and `filterAttributes`.
use deckle.Base.Int.{ℤ, pos, negsuc}
use deckle.Base.{
  ℕ, zero, suc, ◌+◌, Bool, not, ◌&&◌, ◌||◌, Option, none, some, List, [], ◌∷◌, ◌++◌, map, length,
  drop, Text, codes, ◌=?◌, has, has_prefix, trim_suffix, trim_space, is_space, if◌then◌else◌,
}
use deckle.Base.Decimal.{decimal}
use deckle.Sanitize.Dom.{Attribute}
use deckle.Sanitize.Tags.{is_allowed_key, elem_allows_dimensions}

-- `sanitizeID`
unfoldable pub sanitize_id : Text → Text
sanitize_id val =
    let v = trim_space val in if v =? [] then [] else map (λ r. if is_space r then b'-' else r) v

-- `strconv.Itoa`
unfoldable pub itoa : ℤ → Text
itoa (pos n) = decimal n
itoa (negsuc n) = b'-' ∷ decimal (suc n)

-- 64-bit floating point numbers, which the model does not compute with.
pub record Floats : Type 1 where
  pub Float : Type 0
  -- `strconv.ParseFloat(val, 64)`, with `none` for an error
  pub parse_float : Text → Option Float
  -- `f < 0`
  pub is_negative : Float → Bool
  -- `int(math.Round(f))`
  pub round_to_int : Float → ℤ

abbrev pub strip_units : Text → Text
strip_units val =
    trim_suffix
      (trim_suffix
        (trim_suffix (trim_suffix (trim_suffix val (codes "px")) (codes "em")) (codes "rem"))
        (codes "%"))
      (codes "pt")

module _ (fl : Floats) where
  open fl use {Float, parse_float, is_negative, round_to_int}

  unfoldable pub print_dimension : Option Float → Text
  print_dimension none = []
  print_dimension (some f) = if is_negative f then [] else itoa (round_to_int f)

  -- `sanitizeDimensionAttr`
  unfoldable pub sanitize_dimension_attr : Text → Text
  sanitize_dimension_attr val = print_dimension (parse_float (strip_units (trim_space val)))

-- The `i`-th candidate of the deduplication, `fmt.Sprintf("%s-%d", cleaned, i)`.
abbrev pub candidate : Text → ℕ → Text
candidate cleaned i = cleaned ++ (b'-' ∷ decimal i)

-- `for i := 2; ; i++ { … }`, with fuel.
unfoldable pub find_free : ℕ → List Text → Text → ℕ → Option Text
find_free zero used cleaned i = none
find_free (suc f) used cleaned i =
    let rest = find_free f used cleaned (i + 1) in
    if has used (candidate cleaned i) then rest else some (candidate cleaned i)

abbrev pub or_else : Text → Option Text → Text
or_else t none = t
or_else t (some s) = s

-- The ID that is emitted for `cleaned`. One candidate more than there are used IDs is enough.
unfoldable pub unique_id : List Text → Text → Text
unique_id used cleaned =
    let other = or_else cleaned (find_free (suc (length used)) used cleaned 2) in
    if has used cleaned then other else cleaned

-- What the loop of `filterAttributes` leaves: the IDs used now, and the attributes kept.
pub record Filtered : Type 0 where
  pub used : List Text
  pub attrs : List Attribute

-- An `href` to a fragment that no element has.
unfoldable pub is_broken_fragment : List Text → Attribute → Bool
is_broken_fragment ids a =
    let frag = drop 1 a.val in
    (a.key =? codes "href" && has_prefix a.val (codes "#"))
    && (not (frag =? []) && not (has ids frag))

-- The branch of `a.Key == "id"`.
unfoldable pub filter_id : List Text → Attribute → Filtered
filter_id used a =
    let cleaned = sanitize_id a.val in
    if cleaned =? [] then record { used = used; attrs = [] } else record {
      used = unique_id used cleaned ∷ used;
      attrs = record a { val = unique_id used cleaned } ∷ [];
    }

module _ (fl : Floats) (tag : Text) where
  -- The branch of `a.Key == "width" || a.Key == "height"`.
  unfoldable pub filter_dimension : List Text → Attribute → Filtered
  filter_dimension used a =
      let cleaned = sanitize_dimension_attr fl a.val in
      if not (elem_allows_dimensions tag)
      then record { used = used; attrs = [] }
      else if cleaned =? [] || cleaned =? codes "0"
      then record { used = used; attrs = [] }
      else record { used = used; attrs = record a { val = cleaned } ∷ [] }

module _ (fl : Floats) (ids : List Text) (tag : Text) where
  -- One round of the loop: the attribute is dropped, or kept with its value cleaned.
  unfoldable pub filter_attribute : List Text → Attribute → Filtered
  filter_attribute used a =
      if not (is_allowed_key a.key)
      then record { used = used; attrs = [] }
      else if is_broken_fragment ids a
      then record { used = used; attrs = [] }
      else if a.key =? codes "id"
      then filter_id used a
      else if a.key =? codes "width" || a.key =? codes "height"
      then filter_dimension fl tag used a
      else record { used = used; attrs = a ∷ [] }

  -- `filterAttributes`
  unfoldable pub filter_attributes : List Text → List Attribute → Filtered
  filter_attributes used [] = record { used = used; attrs = [] }
  filter_attributes used (a ∷ rest) =
      let first = filter_attribute used a in
      let others = filter_attributes first.used rest in
      record { used = others.used; attrs = first.attrs ++ others.attrs }
