-- ===== src/Sanitize/Allowed.antt =====
-- The elements and attributes that `clean` leaves are those of the whitelists.
use deckle.Base.{
  Bool, true, ◌&&◌, ◌||◌, Option, none, some, List, [], ◌∷◌, ◌++◌, ◌≡◌, refl, arith, Text, codes,
  ◌=?◌, one_of, all, Yields,
}
use deckle.Sanitize.Attrs.{Floats, filter_attributes, filter_attribute, filter_id, filter_dimension}
use deckle.Sanitize.Clean.{is_kept_element, fix_figcaption}
use deckle.Sanitize.Dom.{Attribute, Node, from_option}
use deckle.Sanitize.Every.{every_in, Passes, every-clean_document}
use deckle.Sanitize.Tags.{is_allowed_tag, is_allowed_key}
use deckle.Sanitize.Xhtml.{clean_document}

-- A tag of the whitelist, or one of the three that the parser puts around a body.
abbrev pub is_allowed_or_frame : Text → Bool
is_allowed_or_frame d =
    is_allowed_tag d || (d =? codes "html" || (d =? codes "head" || d =? codes "body"))

-- The tag and the keys of the attributes are whitelisted.
unfoldable pub is_allowed : Text → List Attribute → Bool
is_allowed d attrs = is_allowed_or_frame d && all (λ a. is_allowed_key a.key) attrs

all-append {ℓ} :
    {A : Type ℓ} (p : A → Bool) (xs ys : List A) → all p (xs ++ ys) ≡ (all p xs && all p ys)
all-append p [] ys = refl
all-append p (x ∷ xs) ys = ground (arith, all-append p xs ys)

filter_attribute-allowed :
    (fl : Floats) (ids : List Text) (tag : Text) (used : List Text) (a : Attribute)
    → all (λ a. is_allowed_key a.key) (filter_attribute fl ids tag used a).attrs ≡ true
unfolding filter_attribute filter_id filter_dimension
filter_attribute-allowed fl ids tag used a = ground arith

pub filter_attributes-allowed :
    (fl : Floats) (ids : List Text) (tag : Text) (used : List Text) (attrs : List Attribute)
    → all (λ a. is_allowed_key a.key) (filter_attributes fl ids tag used attrs).attrs ≡ true
unfolding filter_attributes
filter_attributes-allowed fl ids tag used [] = refl
filter_attributes-allowed fl ids tag used (a ∷ attrs) =
    let r = filter_attribute fl ids tag used a in
    let s = filter_attributes fl ids tag r.used attrs in
    ground (
      arith,
      all-append (λ (a : Attribute). is_allowed_key a.key) r.attrs s.attrs,
      filter_attribute-allowed fl ids tag used a,
      filter_attributes-allowed fl ids tag r.used attrs,
    )

p-allowed : is_allowed_tag (codes "p") ≡ true
unfolding is_allowed_tag one_of ◌=?◌
p-allowed = refl

figcaption-allowed :
    (p : Option Text) (d : Text) (attrs : List Attribute)
    → is_kept_element d attrs ≡ true
    → is_allowed_or_frame (fix_figcaption p d) ≡ true
unfolding fix_figcaption is_kept_element
figcaption-allowed none d attrs h = ground (arith, p-allowed)
figcaption-allowed (some p) d attrs h = ground (arith, p-allowed)

link-allowed :
    (src : Text) → is_allowed (codes "a") (record { key = codes "href"; val = src } ∷ []) ≡ true
unfolding is_allowed is_allowed_tag is_allowed_key one_of ◌=?◌
link-allowed src = refl

is_allowed-Passes : (fl : Floats) → Passes is_allowed fl
unfolding is_allowed
is_allowed-Passes fl = record {
  link = link-allowed;
  kept = λ ids u parent d attrs h.
      ground
        (arith, figcaption-allowed parent d attrs h, filter_attributes-allowed fl ids d u attrs);
}

-- `clean` ends on every document, and leaves only elements whose tag is on the whitelist (or is
-- html, head or body) and whose attributes all have whitelisted keys.
pub elements_allowed :
    (fl : Floats) (doc : Node)
    → Yields (λ r. every_in is_allowed (from_option r.result) ≡ true) (clean_document fl doc)
elements_allowed fl doc = every-clean_document is_allowed fl doc (is_allowed-Passes fl)
