-- ===== src/Sanitize/Ids.antt =====
-- No ID is emitted twice: what `clean` returns holds an ID at most once.
use deckle.Base.{
  ℕ, zero, suc, ◌+◌, ◌≤◌, false, ◌&&◌, none, some, List, [], ◌∷◌, ◌++◌, ◌≡◌, ◌≢◌, refl, arith,
  length, Text, codes, ◌=?◌, =?_iff, has, bit, Option-cases, inl, inr,
}
use deckle.Base.Counting.{Injective, taken, taken-le-length}
use deckle.Base.Decimal.{decimal, decimal-injective}
use deckle.Sanitize.Attrs.{
  Floats, sanitize_id, candidate, find_free, unique_id, filter_attribute, filter_attributes,
  filter_id, filter_dimension,
}
use deckle.Sanitize.Dom.{Attribute, element_node, Node, node, Forest, nil, cons, ◌+++◌}

-- The search for a free candidate stops.
append-injective : (t a b : Text) → t ++ a ≡ t ++ b → a ≡ b
append-injective [] a b h = h
append-injective (c ∷ t) a b h = append-injective t a b cc

candidate-Injective : (t : Text) → Injective (candidate t)
candidate-Injective t i j h =
    let tails : b'-' ∷ decimal i ≡ b'-' ∷ decimal j = append-injective t _ _ h in
    decimal-injective i j cc

find_free-none :
    (f : ℕ) (used : List Text) (t : Text) (i : ℕ)
    → find_free f used t i ≡ none
    → taken (candidate t) used i f ≡ f
unfolding find_free
find_free-none zero used t i h = refl
find_free-none (suc f) used t i h = ground (arith, find_free-none f used t (i + 1))

find_free-ne-none : (used : List Text) (t : Text) → find_free (suc (length used)) used t 2 ≢ none
find_free-ne-none used t h = omega (
  arith,
  find_free-none (suc (length used)) used t 2 h,
  taken-le-length (candidate t) (candidate-Injective t) used 2 (suc (length used)),
)

find_free-free :
    (f : ℕ) (used : List Text) (t : Text) (i : ℕ) (s : Text)
    → find_free f used t i ≡ some s
    → has used s ≡ false
unfolding find_free
find_free-free zero used t i s h = cc
find_free-free (suc f) used t i s h = ground (arith, find_free-free f used t (i + 1) s)

-- The ID that is emitted is one that is not used yet.
pub unique_id-free : (used : List Text) (t : Text) → has used (unique_id used t) ≡ false
unfolding unique_id
unique_id-free used t = elim (Option-cases (find_free (suc (length used)) used t 2)) [
  | inl out ↦ absurd (find_free-ne-none used t out)
  | inr (s, found) ↦ rw found (ground (arith, find_free-free (suc (length used)) used t 2 s found))
]

-- How many `id` attributes with the value `x` a list of attributes and a tree have.
abbrev pub id_bit : Text → Attribute → ℕ
id_bit x a = bit (a.key =? codes "id" && x =? a.val)

abbrev pub attr_id_count : Text → List Attribute → ℕ
attr_id_count x [] = 0
attr_id_count x (a ∷ attrs) = id_bit x a + attr_id_count x attrs

unfoldable mutual
  pub id_count : Text → Node → ℕ
  id_count x (node element_node d attrs cs) = attr_id_count x attrs + id_counts x cs
  id_count x (node k d attrs cs) = id_counts x cs

  pub id_counts : Text → Forest → ℕ
  id_counts x nil = 0
  id_counts x (cons n ns) = id_count x n + id_counts x ns

module _ (x : Text) where
  attr_id_count-append :
      (xs ys : List Attribute)
      → attr_id_count x (xs ++ ys) ≡ attr_id_count x xs + attr_id_count x ys
  attr_id_count-append [] ys = omega arith
  attr_id_count-append (a ∷ xs) ys = omega (arith, attr_id_count-append xs ys)

  pub id_counts-append :
      (xs ys : Forest) → id_counts x (xs +++ ys) ≡ id_counts x xs + id_counts x ys
  unfolding id_count
  id_counts-append nil ys = omega arith
  id_counts-append (cons n ns) ys = omega (arith, id_counts-append ns ys)

  -- What is emitted between two sets of used IDs, `n` times `x`, was not in the first and is in the second.
  abbrev pub Fresh : List Text → ℕ → List Text → Type 0
  Fresh used n used' = n + bit (has used x) ≤ bit (has used' x)

  filter_id-Fresh :
      (used : List Text) (a : Attribute)
      → Fresh used (attr_id_count x (filter_id used a).attrs) (filter_id used a).used
  unfolding filter_id has
  filter_id-Fresh used a =
      let t = unique_id used (sanitize_id a.val) in
      ground (arith, unique_id-free used (sanitize_id a.val), =?_iff x t, =?_iff t x)

  filter_attribute-Fresh :
      (fl : Floats) (ids : List Text) (tag : Text) (used : List Text) (a : Attribute)
      → (let r = filter_attribute fl ids tag used a in Fresh used (attr_id_count x r.attrs) r.used)
  unfolding filter_attribute filter_dimension
  filter_attribute-Fresh fl ids tag used a = ground (arith, filter_id-Fresh used a)

  pub filter_attributes-Fresh :
      (fl : Floats) (ids : List Text) (tag : Text) (used : List Text) (attrs : List Attribute)
      → (let r = filter_attributes fl ids tag used attrs in
          Fresh used (attr_id_count x r.attrs) r.used)
  unfolding filter_attributes
  filter_attributes-Fresh fl ids tag used [] = omega arith
  filter_attributes-Fresh fl ids tag used (a ∷ attrs) =
      let r = filter_attribute fl ids tag used a in
      let s = filter_attributes fl ids tag r.used attrs in
      omega (
        arith,
        attr_id_count-append r.attrs s.attrs,
        filter_attribute-Fresh fl ids tag used a,
        filter_attributes-Fresh fl ids tag r.used attrs,
      )
