-- ===== src/Document/Total.antt =====
-- When `extractBodyContent` does not panic.
use deckle.Base.{
  ℕ, zero, suc, ◌+◌, ◌≤◌, Option, none, some, Option-cases, [], ◌∷◌, ◌≡◌, refl, arith, Text, codes,
  length, drop, take, index, has_prefix, inl, inr, Bool-cases, true,
}
use deckle.Document.Body.{
  slice_from, slice, cut_at, cut_body, after_tag, body_from, extract_body_content,
}

has_prefix-length : (t p : Text) → has_prefix t p ≡ true → length p ≤ length t
unfolding has_prefix
has_prefix-length [] [] h = omega arith
has_prefix-length (c ∷ t) [] h = omega arith
has_prefix-length [] (x ∷ p) h = cc h
has_prefix-length (c ∷ t) (x ∷ p) h = ground (arith, has_prefix-length t p)

-- Where a pattern is found it has room.
index-length : (t p : Text) (i : ℕ) → index t p ≡ some i → i + length p ≤ length t
unfolding index
index-length [] p i h = ground (arith, has_prefix-length [] p)
index-length (c ∷ t) p i h = elim (Bool-cases (has_prefix (c ∷ t) p)) [
  | inl e ↦
      let first : 0 ≡ i = cc (rw e at h) in omega (arith, has_prefix-length (c ∷ t) p e, first)
  | inr e ↦ elim (Option-cases (index t p)) [
    | inl f ↦ cc (rw (e, f) at h)
    | inr (j, f) ↦
        let later : suc j ≡ i = cc (rw (e, f) at h) in omega (arith, index-length t p j f, later)
  ]
]

length-drop : (t : Text) (n : ℕ) → n ≤ length t → n + length (drop n t) ≡ length t
length-drop t zero h = omega arith
length-drop [] (suc n) h = elim h [ ]
length-drop (c ∷ t) (suc n) h = omega (arith, length-drop t n (omega arith))

slice_from-drop : (t : Text) (i : ℕ) → i ≤ length t → slice_from t i ≡ some (drop i t)
unfolding slice_from
slice_from-drop t i h = ground arith

slice-take : (t : Text) (i n : ℕ) → i + n ≤ length t → slice t i n ≡ some (take n (drop i t))
unfolding slice
slice-take t i n h = ground arith

-- A computation that gives something.
abbrev Gives : Option Text → Type 0
Gives o = (t : Text) × (o ≡ some t)

cut_body-Gives :
    (html lower : Text) (start : ℕ)
    → length lower ≡ length html
    → start ≤ length html
    → Gives (cut_body html lower start)
unfolding cut_body cut_at
cut_body-Gives html lower start same h =
    let tail = slice_from-drop lower start (omega (arith, same)) in
    elim (Option-cases (index (drop start lower) (codes "</body>"))) [
      | inl e ↦ rw (tail, e, cut_body) (_, slice_from-drop html start h)
      | inr (n, e) ↦
          let room = index-length (drop start lower) (codes "</body>") n e in
          let rest = length-drop lower start (omega (arith, same)) in
          rw (tail, e, cut_body) (_, slice-take html start n (omega (arith, same, room, rest)))
    ]

after_tag-Gives :
    (html lower : Text) (start : ℕ) (end : Option ℕ)
    → length lower ≡ length html
    → start ≤ length html
    → index (drop start html) (codes ">") ≡ end
    → Gives (after_tag html lower start end)
unfolding after_tag
after_tag-Gives html lower start none same h e = (html, refl)
after_tag-Gives html lower start (some n) same h e =
    let room = index-length (drop start html) (codes ">") n e in
    let rest = length-drop html start h in
    cut_body-Gives html lower (start + n + 1) same (omega (arith, room, rest))

-- If lowering keeps the length of the text, `extractBodyContent` does not panic.
pub extract_body_content_total :
    (to_lower : Text → Text) (html : Text)
    → length (to_lower html) ≡ length html
    → (body : Text) × (extract_body_content to_lower html ≡ some body)
unfolding extract_body_content body_from
extract_body_content_total to_lower html same =
    elim (Option-cases (index (to_lower html) (codes "<body"))) [
      | inl e ↦ rw (e, extract_body_content) (html, refl)
      | inr (start, e) ↦
          let room = index-length (to_lower html) (codes "<body") start e in
          let fits : start ≤ length html = omega (arith, room, same) in
          rw (e, slice_from-drop html start fits, extract_body_content)
            (after_tag-Gives html (to_lower html) start _ same fits refl)
    ]
