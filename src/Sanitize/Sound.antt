-- ===== src/Sanitize/Sound.antt =====
-- The trees that `clean` leaves can be printed: names that are names, no attribute twice, and no
-- raw text.
use deckle.Base.{
  Bool, true, false, not, ◌&&◌, ◌||◌, Option, none, some, List, [], ◌∷◌, ◌++◌, ◌≡◌, refl, arith,
  Text, ◌=?◌, one_of, one_of-all, all, Yields, Bool-cases, inl, inr,
}
use deckle.Sanitize.Allowed.{filter_attributes-allowed}
use deckle.Sanitize.Attrs.{Floats, filter_attributes, filter_attribute, filter_id, filter_dimension}
use deckle.Sanitize.Clean.{media_link, is_kept_element, fix_figcaption}
use deckle.Sanitize.Dom.{
  Attribute, NodeType, element_node, raw_node, Node, nil, cons, from_option, is_element,
}
use deckle.Sanitize.Every.{fits-clean_document}
use deckle.Sanitize.Fits.{fits, fits_in}
use deckle.Sanitize.Grammar.{is_name}
use deckle.Sanitize.Tags.{allowed_tags, allowed_keys, is_allowed_tag, is_allowed_key}
use deckle.Sanitize.Xhtml.{clean_document}

-- The key is that of one of the attributes.
unfoldable pub has_key : List Attribute → Text → Bool
has_key [] k = false
has_key (a ∷ attrs) k = a.key =? k || has_key attrs k

unfoldable pub are_distinct : List Attribute → Bool
are_distinct [] = true
are_distinct (a ∷ attrs) = not (has_key attrs a.key) && are_distinct attrs

-- What the parser promises: no raw node, and no attribute of an element twice.
unfoldable pub is_parsed : NodeType → Text → List Attribute → Bool
is_parsed raw_node d attrs = false
is_parsed element_node d attrs = are_distinct attrs
is_parsed _ d attrs = true

-- What can be printed.
unfoldable pub is_sound : NodeType → Text → List Attribute → Bool
is_sound raw_node d attrs = false
is_sound element_node d attrs = is_name d && (all (λ a. is_name a.key) attrs && are_distinct attrs)
is_sound _ d attrs = true

key_name : (k : Text) → is_allowed_key k ≡ true → is_name k ≡ true
unfolding is_allowed_key is_name one_of
key_name k h = one_of-all is_name k allowed_keys refl h

tag_name : (d : Text) (attrs : List Attribute) → is_kept_element d attrs ≡ true → is_name d ≡ true
unfolding is_kept_element is_allowed_tag is_name one_of
tag_name d attrs h = elim (Bool-cases (one_of d allowed_tags)) [
  | inl allowed ↦ one_of-all is_name d allowed_tags refl allowed
  | inr other ↦ one_of-all is_name d ("html" ∷ "head" ∷ "body" ∷ []) refl (ground arith)
]

figcaption_name :
    (p : Option Text) (d : Text) → is_name d ≡ true → is_name (fix_figcaption p d) ≡ true
unfolding fix_figcaption is_name
figcaption_name none d h = ground arith
figcaption_name (some p) d h = ground arith

has_key-append :
    (xs ys : List Attribute) (k : Text) → has_key (xs ++ ys) k ≡ (has_key xs k || has_key ys k)
unfolding has_key
has_key-append [] ys k = refl
has_key-append (a ∷ xs) ys k = ground (arith, has_key-append xs ys k)

all_names :
    (attrs : List Attribute)
    → all (λ a. is_allowed_key a.key) attrs ≡ true
    → all (λ a. is_name a.key) attrs ≡ true
all_names [] h = refl
all_names (a ∷ attrs) h = ground (arith, key_name a.key, all_names attrs)

module _ (fl : Floats) (ids : List Text) (tag : Text) where
  has_key-filter_attribute :
      (used : List Text) (a : Attribute) (k : Text)
      → has_key (filter_attribute fl ids tag used a).attrs k ≡ true
      → (a.key =? k) ≡ true
  unfolding filter_attribute filter_id filter_dimension has_key
  has_key-filter_attribute used a k h = ground arith

  has_key-filter_attributes :
      (used : List Text) (attrs : List Attribute) (k : Text)
      → has_key (filter_attributes fl ids tag used attrs).attrs k ≡ true
      → has_key attrs k ≡ true
  unfolding filter_attributes has_key
  has_key-filter_attributes used [] k h = h
  has_key-filter_attributes used (a ∷ attrs) k h =
      let r = filter_attribute fl ids tag used a in
      let s = filter_attributes fl ids tag r.used attrs in
      ground (
        arith,
        has_key-append r.attrs s.attrs k,
        has_key-filter_attribute used a k,
        has_key-filter_attributes r.used attrs k,
      )

  -- At most one attribute in front of the others, with the key of the attribute that is filtered.
  front_distinct :
      (used : List Text) (a : Attribute) (rest : List Attribute)
      → has_key rest a.key ≡ false
      → are_distinct rest ≡ true
      → are_distinct ((filter_attribute fl ids tag used a).attrs ++ rest) ≡ true
  unfolding filter_attribute filter_id filter_dimension are_distinct
  front_distinct used a rest new h = ground arith

  filter_attributes-distinct :
      (used : List Text) (attrs : List Attribute)
      → are_distinct attrs ≡ true
      → are_distinct (filter_attributes fl ids tag used attrs).attrs ≡ true
  unfolding filter_attributes are_distinct
  filter_attributes-distinct used [] h = refl
  filter_attributes-distinct used (a ∷ attrs) h =
      let r = filter_attribute fl ids tag used a in
      let s = filter_attributes fl ids tag r.used attrs in
      front_distinct used a s.attrs (ground (arith, has_key-filter_attributes r.used attrs a.key))
        (filter_attributes-distinct r.used attrs (ground arith))

sound-link : (src : Text) → fits_in is_sound (cons (media_link src) nil) ≡ true
unfolding fits is_sound is_name are_distinct has_key
sound-link src = refl

other_sound :
    (k : NodeType) (d : Text) (attrs : List Attribute)
    → is_element k ≡ false
    → is_parsed k d attrs ≡ true
    → is_sound k d attrs ≡ true
unfolding is_parsed is_sound
other_sound raw_node d attrs h g = cc
other_sound element_node d attrs h g = cc
other_sound _ d attrs h g = refl

kept_sound :
    (fl : Floats) (ids u : List Text) (parent : Option Text) (d : Text) (attrs : List Attribute)
    → is_kept_element d attrs ≡ true
    → is_parsed element_node d attrs ≡ true
    → is_sound element_node (fix_figcaption parent d) (filter_attributes fl ids d u attrs).attrs
      ≡ true
unfolding is_parsed is_sound
kept_sound fl ids u parent d attrs h g = ground (
  arith,
  figcaption_name parent d (tag_name d attrs h),
  all_names _ (filter_attributes-allowed fl ids d u attrs),
  filter_attributes-distinct fl ids d u attrs g,
)

-- All that `clean` leaves of a document with no raw node and no attribute twice can be printed.
pub clean_document_sound :
    (fl : Floats) (doc : Node)
    → fits is_parsed doc ≡ true
    → Yields (λ r. fits_in is_sound (from_option r.result) ≡ true) (clean_document fl doc)
unfolding is_parsed are_distinct
clean_document_sound fl doc ft =
    fits-clean_document fl is_parsed is_sound doc
      (record { plain = λ d. refl; media = sound-link; other = other_sound; kept = kept_sound fl })
      ft
