-- ===== src/Document/RoundTrip.antt =====
-- `extractBodyContent` finds the content of <body>, and undoes `renderFullHTML`.
use deckle.Base.{
  ℕ, suc, ◌+◌, true, not, some, [], ◌∷◌, ◌++◌, map, append_assoc, ◌≡◌, refl, sym, ap, ◌∙◌, arith,
  Text, codes, ◌==◌, length, length-append, take-length-append, drop-length-append, all, index,
  has_prefix,
}
use mathlib.Core.List.{map-append}
use deckle.Document.Body.{
  lower_byte, slice_from, slice, cut_at, cut_body, after_tag, body_from, extract_body_content,
}
use deckle.Document.Search.{skips, index-skips, lacks-skips, shift}

abbrev pub lower : Text → Text
lower = map lower_byte

length-lower : (t : Text) → length (lower t) ≡ length t
length-lower [] = refl
length-lower (c ∷ t) = ap suc (length-lower t)

slice_from-append : (xs ys : Text) → slice_from (xs ++ ys) (length xs) ≡ some ys
unfolding slice_from
slice_from-append xs ys = rw (drop-length-append xs ys) (ground (arith, length-append xs ys))

slice-append : (xs ys zs : Text) → slice (xs ++ (ys ++ zs)) (length xs) (length ys) ≡ some ys
unfolding slice
slice-append xs ys zs =
    rw (drop-length-append xs (ys ++ zs), take-length-append ys zs)
      (ground (arith, length-append xs (ys ++ zs), length-append ys zs))

has_prefix-append : (p rest : Text) → has_prefix (p ++ rest) p ≡ true
unfolding has_prefix
has_prefix-append [] [] = refl
has_prefix-append [] (c ∷ rest) = refl
has_prefix-append (c ∷ p) rest = ground (arith, has_prefix-append p rest)

index-append : (c : ℕ) (p rest : Text) → index ((c ∷ p) ++ rest) (c ∷ p) ≡ some 0
unfolding index
index-append c p rest = rw (has_prefix-append (c ∷ p) rest)

-- Behind a text in which it does not begin, the pattern is found where it stands.
index_behind :
    (s : Text) (c : ℕ) (p rest : Text)
    → skips (c ∷ p) s ≡ true
    → index (s ++ ((c ∷ p) ++ rest)) (c ∷ p) ≡ some (length s)
index_behind s c p rest h =
    index-skips (c ∷ p) s ((c ∷ p) ++ rest) h
    ∙ ap (shift (length s)) (index-append c p rest)
    ∙ ap some (omega arith)

-- The parts of a document with a <body>.
module _ (before attrs content after : Text) where
  abbrev pub tag : Text
  tag = codes "<body" ++ (attrs ++ codes ">")

  abbrev pub page : Text
  page = before ++ (tag ++ (content ++ (codes "</body>" ++ after)))

  abbrev rest : Text
  rest = content ++ (codes "</body>" ++ after)

  module _ (to_lower : Text → Text) (bytewise : to_lower page ≡ lower page)
      (no_body : skips (codes "<body") (lower before) ≡ true)
      (no_gt : all (λ c. not (c == b'>')) attrs ≡ true)
      (no_end : skips (codes "</body>") (lower content) ≡ true) where
    lower-page :
        lower page ≡ lower before ++ (codes "<body" ++ (lower (attrs ++ codes ">") ++ lower rest))
    unfolding lower_byte
    lower-page = simp map-append

    body_found : index (lower page) (codes "<body") ≡ some (length before)
    body_found =
        rw lower-page (
          index_behind (lower before) b'<' (codes "body") _ no_body ∙ ap some (length-lower before))

    gt_found : index (tag ++ rest) (codes ">") ≡ some (5 + length attrs)
    gt_found = rw (append_assoc attrs (b'>' ∷ []) rest) (
        index_behind (codes "<body" ++ attrs) b'>' [] rest
          (lacks-skips b'>' [] (codes "<body" ++ attrs) no_gt)
        ∙ ap some (omega arith))

    -- The content begins behind the tag.
    start : length before + (5 + length attrs) + 1 ≡ length (before ++ tag)
    start = omega (arith, length-append before tag, length-append attrs (codes ">"))

    split_page : page ≡ (before ++ tag) ++ rest
    split_page = sym (append_assoc before tag rest)

    lower-rest : lower rest ≡ lower content ++ (codes "</body>" ++ lower after)
    unfolding lower_byte
    lower-rest = simp map-append

    end_found : index (lower rest) (codes "</body>") ≡ some (length content)
    end_found = rw lower-rest (
        index_behind (lower content) b'<' (codes "/body>") (lower after) no_end
        ∙ ap some (length-lower content))

    lower_tail : slice_from (lower page) (length (before ++ tag)) ≡ some (lower rest)
    lower_tail =
        ap (λ t. slice_from (lower t) (length (before ++ tag))) split_page
        ∙ ap (λ t. slice_from t (length (before ++ tag)))
            (map-append lower_byte (before ++ tag) rest)
        ∙ ap (slice_from (lower (before ++ tag) ++ lower rest)) (sym (length-lower (before ++ tag)))
        ∙ slice_from-append (lower (before ++ tag)) (lower rest)

    cut_content : cut_body page (lower page) (length (before ++ tag)) ≡ some content
    unfolding cut_body cut_at
    cut_content = rw lower_tail (
        rw end_found (
          ap (λ t. slice t (length (before ++ tag)) (length content)) split_page
          ∙ slice-append (before ++ tag) content (codes "</body>" ++ after)))

    -- The content of the body is what stands between the <body> tag and the next </body>, in any
    -- document that `strings.ToLower` lowers byte by byte: if "<body" does not begin before the tag,
    -- the attributes hold no '>' and "</body>" does not begin in the content.
    pub extract_body_content_lem : extract_body_content to_lower page ≡ some content
    unfolding extract_body_content body_from after_tag
    extract_body_content_lem =
        ap (λ t. body_from page t (index t (codes "<body"))) bytewise
        ∙ ap (body_from page (lower page)) body_found
        ∙ rw (slice_from-append before (tag ++ rest)) (rw gt_found (rw start cut_content))
