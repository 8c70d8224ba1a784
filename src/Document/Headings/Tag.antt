-- ===== src/Document/Headings/Tag.antt =====
-- The matches of `headingRe`: the tags of headings.
use deckle.Base.{
  ℕ, Bool, true, false, Option, none, some, [], ◌∷◌, ◌++◌, append_assoc, ◌≡◌, refl, ap, arith, ◌⊎◌,
  inl, inr, Text, codes, leb, ◌==◌, ◌&&◌, All,
}
use deckle.Document.Headings.{heading_re}
use deckle.Regex.{one, many, except, Groups, Ending, Next, run, run_many, ended, taken}
use deckle.Regex.Relation.{
  Matches, no_text, byte, stop_many, more_many, both, grouped, present, absent,
}

-- The tag of a heading: closing or not, the letter, the digit and the attributes
abbrev pub slash_of : Bool → Text
slash_of true = codes "/"
slash_of false = []

abbrev pub heading_text : Bool → ℕ → ℕ → Text → Text
heading_text closing letter digit attrs =
    b'<' ∷ (slash_of closing ++ (letter ∷ (digit ∷ (attrs ++ (b'>' ∷ [])))))

abbrev pub is_digit_1_6 : ℕ → Bool
is_digit_1_6 c = leb b'1' c && leb c b'6'

equal_bytes : (a b : ℕ) → (a == b) ≡ true → a ≡ b
equal_bytes a b h = ground arith

pub record HeadingText (s t : Text) : Type 0 where
  pub closing : Bool
  pub letter : ℕ
  pub digit : ℕ
  pub attrs : Text
  pub letter_is : (letter ≡ b'h') ⊎ (letter ≡ b'H')
  pub digit_is : is_digit_1_6 digit ≡ true
  pub attrs_are : All (λ c. except b'>' c ≡ true) attrs
  pub shape : s ≡ heading_text closing letter digit attrs ++ t

one_inv :
    {p : ℕ → Bool} {l m : Option ℕ} {s t : Text} {g h : Groups}
    → Matches (one p) l s g m t h
    → (c : ℕ) × (s ≡ c ∷ t) × (p c ≡ true)
one_inv (byte {c} e) = (c, refl, e)

many_inv :
    {p : ℕ → Bool} {l m : Option ℕ} {s t : Text} {g h : Groups}
    → Matches (many p) l s g m t h
    → (u : Text) × (s ≡ u ++ t) × All (λ c. p c ≡ true) u
many_inv stop_many = ([], refl, tt)
many_inv (more_many {c} e d) = let (u, h, a) = many_inv d in (c ∷ u, ap (◌∷◌ c) h, (e, a))

pub heading_inv :
    {l m : Option ℕ} {s t : Text} {g h : Groups} → Matches heading_re l s g m t h → HeadingText s t
heading_inv
      (both (both (byte lt) no_text) (
        both (grouped (present (both (byte sl) no_text))) (
          both (both (byte {c = letter} hh) no_text) (
            both
              (grouped (byte {c = digit} dd))
              (both (grouped a) (both (both (byte gt) no_text) no_text)))))) =
    let (u, e, al) = many_inv a in
    record {
      closing = true;
      letter = letter;
      digit = digit;
      attrs = u;
      letter_is = ground arith;
      digit_is = dd;
      attrs_are = al;
      shape =
          rw
            (
              equal_bytes _ _ lt,
              equal_bytes _ _ sl,
              e,
              equal_bytes _ _ gt,
              append_assoc u (b'>' ∷ []) _,
            )
            refl;
    }
heading_inv
      (both (both (byte lt) no_text) (
        both (grouped absent) (
          both (both (byte {c = letter} hh) no_text) (
            both
              (grouped (byte {c = digit} dd))
              (both (grouped a) (both (both (byte gt) no_text) no_text)))))) =
    let (u, e, al) = many_inv a in
    record {
      closing = false;
      letter = letter;
      digit = digit;
      attrs = u;
      letter_is = ground arith;
      digit_is = dd;
      attrs_are = al;
      shape = rw (equal_bytes _ _ lt, e, equal_bytes _ _ gt, append_assoc u (b'>' ∷ []) _) refl;
    }

-- The search over the attributes ends at the ">".
run_many-through :
    (p : ℕ → Bool) (l : Option ℕ) (u : Text) (x : ℕ) (t : Text) (g : Groups) (next : Next)
    (e : Ending)
    → All (λ c. p c ≡ true) u
    → p x ≡ false
    → ((k : Option ℕ) → next k (x ∷ t) g ≡ some e)
    → run_many p l (u ++ x ∷ t) g next ≡ some e
unfolding run_many
run_many-through p l [] x t g next e a stop h = rw stop (h l)
run_many-through p l (c ∷ u) x t g next e (takes, a) stop h =
    rw (takes, run_many-through p (some c) u x t g next e a stop h) refl

abbrev pub heading_groups : Bool → ℕ → ℕ → Text → Groups
heading_groups closing letter digit attrs =
    (3, taken (attrs ++ b'>' ∷ []) (b'>' ∷ []))
    ∷ (2, taken (digit ∷ (attrs ++ b'>' ∷ [])) (attrs ++ b'>' ∷ []))
    ∷ (
      1,
      taken (slash_of closing ++ letter ∷ digit ∷ (attrs ++ b'>' ∷ []))
          (letter ∷ digit ∷ (attrs ++ b'>' ∷ [])),
    )
    ∷ []

abbrev pub heading_end : Bool → ℕ → ℕ → Text → Ending
heading_end closing letter digit attrs = record {
  last = some b'>';
  rest = [];
  groups = heading_groups closing letter digit attrs;
}

-- What a search from the beginning of a tag finds.
pub run-heading :
    (closing : Bool) (letter digit : ℕ) (attrs : Text)
    → (letter ≡ b'h') ⊎ (letter ≡ b'H')
    → is_digit_1_6 digit ≡ true
    → All (λ c. except b'>' c ≡ true) attrs
    → run heading_re none (heading_text closing letter digit attrs) [] ended
      ≡ some (heading_end closing letter digit attrs)
unfolding run
run-heading true letter digit attrs (inl l) d a =
    rw (l, d, run_many-through (except b'>') _ attrs b'>' [] _ _ _ a refl (λ k. refl)) refl
run-heading true letter digit attrs (inr l) d a =
    rw (l, d, run_many-through (except b'>') _ attrs b'>' [] _ _ _ a refl (λ k. refl)) refl
run-heading false letter digit attrs (inl l) d a =
    rw (l, d, run_many-through (except b'>') _ attrs b'>' [] _ _ _ a refl (λ k. refl)) refl
run-heading false letter digit attrs (inr l) d a =
    rw (l, d, run_many-through (except b'>') _ attrs b'>' [] _ _ _ a refl (λ k. refl)) refl
