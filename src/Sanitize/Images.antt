-- ===== src/Sanitize/Images.antt =====
-- The images that `clean` leaves are embedded ones.
use deckle.Base.{
  Bool, true, false, not, has_prefix, Bool-cases, inl, inr, ◌&&◌, ◌||◌, Option, none, some, List,
  [], ◌∷◌, ◌++◌, ◌≡◌, refl, arith, Text, codes, ◌=?◌, =?_iff, one_of, Yields, if◌then◌else◌,
  trim_space,
}
use deckle.Sanitize.Attrs.{
  Floats, filter_attributes, filter_attribute, filter_id, filter_dimension, is_broken_fragment,
}
use deckle.Sanitize.Clean.{is_kept_element, is_embedded_image, fix_figcaption}
use deckle.Sanitize.Dom.{Attribute, Node, from_option}
use deckle.Sanitize.Every.{every_in, every-clean_document}
use deckle.Sanitize.Tags.{is_allowed_key}
use deckle.Sanitize.Xhtml.{clean_document}

src_is : is_allowed_key (codes "src") ≡ true
unfolding is_allowed_key one_of ◌=?◌
src_is = refl

-- Filtering keeps the first `src` that is not blank, and its value.
filter_attribute-src :
    (fl : Floats) (ids : List Text) (tag : Text) (used : List Text) (a : Attribute)
    (rest : List Attribute)
    → is_embedded_image ((filter_attribute fl ids tag used a).attrs ++ rest) ≡ (
        if a.key =? codes "src" && not (trim_space a.val =? [])
        then is_embedded_image (a ∷ [])
        else is_embedded_image rest)
unfolding filter_attribute filter_id filter_dimension is_broken_fragment is_embedded_image
filter_attribute-src fl ids tag used a rest = ground (
  arith,
  src_is,
  =?_iff a.key (codes "src"),
  =?_iff a.key (codes "id"),
  =?_iff a.key (codes "href"),
  =?_iff a.key (codes "width"),
  =?_iff a.key (codes "height"),
)

filter_attributes-src :
    (fl : Floats) (ids : List Text) (tag : Text) (used : List Text) (attrs : List Attribute)
    → is_embedded_image (filter_attributes fl ids tag used attrs).attrs ≡ is_embedded_image attrs
unfolding filter_attributes is_embedded_image
filter_attributes-src fl ids tag used [] = refl
filter_attributes-src fl ids tag used (a ∷ attrs) =
    let r = filter_attribute fl ids tag used a in
    let s = filter_attributes fl ids tag r.used attrs in
    ground (
      arith,
      filter_attribute-src fl ids tag used a s.attrs,
      filter_attributes-src fl ids tag r.used attrs,
    )

-- The first `src` that is not blank, without the blanks around it
unfoldable src_value : List Attribute → Option Text
src_value [] = none
src_value (a ∷ attrs) =
    let rest = src_value attrs in
    if a.key =? codes "src" && not (trim_space a.val =? []) then some (trim_space a.val) else rest

-- Neither an external URL nor an AVIF image
abbrev is_embedded : Text → Bool
is_embedded src = not (
    has_prefix src (codes "http://")
    || (has_prefix src (codes "https://") || has_prefix src (codes "data:image/avif")))

-- An <img> has a `src` that is not blank, and the first one is neither external nor AVIF.
unfoldable pub is_valid_image : Text → List Attribute → Bool
unfolding src_value
is_valid_image d attrs =
    not (d =? codes "img") || elim (src_value attrs) [ none ↦ false | some src ↦ is_embedded src ]

embedded_image-valid :
    (attrs : List Attribute)
    → is_embedded_image attrs ≡ true
    → (elim (src_value attrs) [ none ↦ false | some src ↦ is_embedded src ]) ≡ true
unfolding is_embedded_image src_value
embedded_image-valid [] h = h
embedded_image-valid (a ∷ attrs) h =
    let later = embedded_image-valid attrs in
    elim (Bool-cases (a.key =? codes "src" && not (trim_space a.val =? []))) [
      | inl e ↦ rw e (ground (arith, h, e))
      | inr e ↦ rw e (later (rw e at h))
    ]

image-kept :
    (fl : Floats) (ids u : List Text) (parent : Option Text) (d : Text) (attrs : List Attribute)
    → is_kept_element d attrs ≡ true
    → is_valid_image (fix_figcaption parent d) (filter_attributes fl ids d u attrs).attrs ≡ true
unfolding is_valid_image is_kept_element fix_figcaption ◌=?◌
image-kept fl ids u none d attrs h = ground (
  arith,
  filter_attributes-src fl ids d u attrs,
  embedded_image-valid (filter_attributes fl ids d u attrs).attrs,
)
image-kept fl ids u (some p) d attrs h = ground (
  arith,
  filter_attributes-src fl ids d u attrs,
  embedded_image-valid (filter_attributes fl ids d u attrs).attrs,
)

image-link :
    (src : Text) → is_valid_image (codes "a") (record { key = codes "href"; val = src } ∷ []) ≡ true
unfolding is_valid_image ◌=?◌
image-link src = refl

-- `clean` ends on every document, and each <img> that it leaves has a `src` that is not blank, the
-- first of which is neither an external URL nor an AVIF image.
pub images_embedded :
    (fl : Floats) (doc : Node)
    → Yields (λ r. every_in is_valid_image (from_option r.result) ≡ true) (clean_document fl doc)
images_embedded fl doc = every-clean_document is_valid_image fl doc (record {
  link = image-link;
  kept = λ ids u parent d attrs h. image-kept fl ids u parent d attrs h;
})
