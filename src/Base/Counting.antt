-- ===== src/Base/Counting.antt =====
-- How often a text occurs in a list of texts, and a pigeonhole principle for sets of texts.
use Prim.Native.Nat.{ℕ, zero, suc, ◌+◌, ◌≤◌, ◌<◌}
use mathlib.Core.Path.{◌≡◌, refl, sym, ◌∙◌}
use mathlib.Core.List.{List, [], ◌∷◌, ◌++◌}
use mathlib.Core.Logic.{inl, inr}
use native.Mathlib.Omega.{arith}
use deckle.Base.Lists.{length}
use deckle.Base.Tests.{bit, Bool-cases}
use deckle.Base.Strings.{Text, ◌=?◌, =?_iff, has}

abbrev pub count : Text → List Text → ℕ
count t [] = 0
count t (x ∷ xs) = bit (x =? t) + count t xs

pub count-append : (t : Text) (xs ys : List Text) → count t (xs ++ ys) ≡ count t xs + count t ys
count-append t [] ys = omega arith
count-append t (x ∷ xs) ys = omega (arith, count-append t xs ys)

-- A family of pairwise different texts.
abbrev pub Injective : (ℕ → Text) → Type 0
Injective g = (i j : ℕ) → g i ≡ g j → i ≡ j

module _ (g : ℕ → Text) where
  -- How many of the `n` texts from the `i`-th on are in the set.
  abbrev pub taken : List Text → ℕ → ℕ → ℕ
  taken set i zero = 0
  taken set i (suc n) = bit (has set (g i)) + taken set (i + 1) n

  abbrev hits : Text → ℕ → ℕ → ℕ
  hits u i zero = 0
  hits u i (suc n) = bit (u =? g i) + hits u (i + 1) n

  hits_past : Injective g → (u : Text) (k i n : ℕ) → u ≡ g k → k < i → hits u i n ≡ 0
  hits_past inj u k i zero e h = refl
  hits_past inj u k i (suc n) e h = elim (Bool-cases (u =? g i)) [
    | inl same ↦ absurd (omega (arith, inj k i (sym e ∙ (=?_iff u (g i)).0 same)))
    | inr other ↦ rw other (omega (arith, hits_past inj u k (i + 1) n e (omega arith)))
  ]

  hits-le-one : Injective g → (u : Text) (i n : ℕ) → hits u i n ≤ 1
  hits-le-one inj u i zero = omega arith
  hits-le-one inj u i (suc n) = elim (Bool-cases (u =? g i)) [
    | inl same ↦
        rw same (omega (arith, hits_past inj u i (i + 1) n ((=?_iff u (g i)).0 same) (omega arith)))
    | inr other ↦ rw other (omega (arith, hits-le-one inj u (i + 1) n))
  ]

  taken-nil : (i n : ℕ) → taken [] i n ≡ 0
  unfolding has
  taken-nil i zero = refl
  taken-nil i (suc n) = omega (arith, taken-nil (i + 1) n)

  taken-cons :
      (u : Text) (us : List Text) (i n : ℕ) → taken (u ∷ us) i n ≤ hits u i n + taken us i n
  unfolding has
  taken-cons u us i zero = omega arith
  taken-cons u us i (suc n) = ground (arith, taken-cons u us (i + 1) n)

  -- A set holds at most as many of the texts as it has members.
  pub taken-le-length : Injective g → (set : List Text) (i n : ℕ) → taken set i n ≤ length set
  taken-le-length inj [] i n = omega (arith, taken-nil i n)
  taken-le-length inj (u ∷ us) i n =
      omega (arith, taken-cons u us i n, hits-le-one inj u i n, taken-le-length inj us i n)
