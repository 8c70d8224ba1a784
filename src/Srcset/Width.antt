-- ===== src/Srcset/Width.antt =====
-- The width of a match: the number behind its last blank.
use deckle.Base.{
  ap, sym, subst, ℕ, suc, ◌+◌, Bool, true, not, ◌&&◌, Option, none, some, [], ◌∷◌, ◌++◌, ◌≡◌, refl,
  arith, length, drop, Text, codes, ◌==◌, all, has_prefix, last_index, inl, inr, if◌then◌else◌,
  Bool-cases,
}
use deckle.Srcset.{Match, width_of, width_at}

abbrev pub no_blank : Text → Bool
no_blank t = all (λ c. not (c == b' ')) t

-- The text is cut at its last blank, if it has one.
pub data CutAtBlank : Text → Option ℕ → Type 0 where
  uncut : (t : Text) → no_blank t ≡ true → CutAtBlank t none
  cut :
      (before behind : Text)
      → no_blank behind ≡ true
      → CutAtBlank (before ++ b' ' ∷ behind) (some (length before))

CutAtBlank-cons :
    (c : ℕ) (t : Text) (o : Option ℕ)
    → CutAtBlank t o
    → CutAtBlank
        (c ∷ t)
        (elim o [ some i ↦ some (suc i) | none ↦ if c == b' ' && true then some 0 else none ])
CutAtBlank-cons c t _ (uncut _ h) = elim (Bool-cases (c == b' ')) [
  | inl e ↦ let is_blank : c ≡ b' ' = ground (arith, e) in rw (e, is_blank) (cut [] t h)
  | inr e ↦ rw e (uncut (c ∷ t) (rw (e, h) refl))
]
CutAtBlank-cons c _ _ (cut before behind h) = cut (c ∷ before) behind h

last_index-CutAtBlank : (t : Text) → CutAtBlank t (last_index t (codes " "))
unfolding last_index has_prefix
last_index-CutAtBlank [] = uncut [] refl
last_index-CutAtBlank (c ∷ t) =
    CutAtBlank-cons c t (last_index t (codes " ")) (last_index-CutAtBlank t)

-- The search finds no blank where there is none, and the last one where there is.
last_index-no_blank : (t : Text) → no_blank t ≡ true → last_index t (codes " ") ≡ none
unfolding last_index has_prefix
last_index-no_blank [] h = refl
last_index-no_blank (c ∷ t) h = ground (arith, last_index-no_blank t)

last_index-cut :
    (before behind : Text)
    → no_blank behind ≡ true
    → last_index (before ++ b' ' ∷ behind) (codes " ") ≡ some (length before)
unfolding last_index has_prefix
last_index-cut [] behind h = rw (last_index-no_blank behind h) refl
last_index-cut (c ∷ before) behind h = rw (last_index-cut before behind h) refl

drop_before : (before behind : Text) → drop (length before + 1) (before ++ b' ' ∷ behind) ≡ behind
drop_before [] behind = refl
drop_before (x ∷ before) behind =
    let longer : length (x ∷ before) + 1 ≡ suc (length before + 1) = omega arith in
    rw longer (drop_before before behind)

module _ (scan_width : Text → ℕ) where
  -- The width of a match in an attribute: the number that is read behind its last blank, and 0 if it
  -- has no blank or only its first character is one.
  pub data IsWidth (m : Match) : ℕ → Type 0 where
    no_descriptor : no_blank m.full ≡ true → IsWidth m 0
    nothing_before :
        (descriptor : Text) → no_blank descriptor ≡ true → m.full ≡ b' ' ∷ descriptor → IsWidth m 0
    descriptor :
        (c : ℕ) (before descriptor : Text)
        → no_blank descriptor ≡ true
        → m.full ≡ (c ∷ before) ++ b' ' ∷ descriptor
        → IsWidth m (scan_width descriptor)

  cut-IsWidth :
      (m : Match) (t : Text) (o : Option ℕ)
      → m.full ≡ t
      → CutAtBlank t o
      → IsWidth m (width_at scan_width t o)
  unfolding width_at
  cut-IsWidth m _ _ e (uncut t h) = no_descriptor (rw e h)
  cut-IsWidth m _ _ e (cut [] behind h) = nothing_before behind h e
  cut-IsWidth m _ _ e (cut (c ∷ before) behind h) =
      subst (λ d. IsWidth m (scan_width d)) (sym (drop_before (c ∷ before) behind))
        (descriptor c before behind h e)

  pub width_of-IsWidth : (m : Match) → IsWidth m (width_of scan_width m)
  unfolding width_of
  width_of-IsWidth m = cut-IsWidth m m.full _ refl (last_index-CutAtBlank m.full)

  -- There is no other width than the one that is read.
  pub IsWidth-width_of : (m : Match) (w : ℕ) → IsWidth m w → w ≡ width_of scan_width m
  unfolding width_of width_at
  IsWidth-width_of m _ (no_descriptor h) = rw (last_index-no_blank m.full h) refl
  IsWidth-width_of m _ (nothing_before behind h e) = rw (e, last_index-cut [] behind h) refl
  IsWidth-width_of m _ (descriptor c before behind h e) =
      rw (e, last_index-cut (c ∷ before) behind h)
        (ap scan_width (sym (drop_before (c ∷ before) behind)))
