-- ===== src/Base/Strings.antt =====
-- Texts: lists of numbers, which are the bytes or the code points of a Go string, as the file that
-- uses them says. Blanks are those of `unicode.IsSpace` as code points; the rest looks at single
-- numbers or at ASCII, and means the same at both.
use Prim.Native.Nat.{ℕ, suc}
use Prim.Native.Char.{code}
use Prim.Native.String.{String}
use mathlib.Core.Path.{◌≡◌, refl, sym, subst}
use mathlib.Core.Logic.{◌↔◌, inl, inr}
use mathlib.Core.Bool.{Bool, true, false, ◌&&◌, ◌||◌}
use mathlib.Core.List.{List, [], ◌∷◌, ◌++◌}
use mathlib.Core.Option
use mathlib.Core.Option.{Option, none, some}
use native.Mathlib.Omega.{arith}
use deckle.Base.Tests.{◌==◌, if◌then◌else◌, leb, Bool-cases}
use deckle.Base.Lists.{length, drop, all, any, All}

abbrev pub Text : Type 0
Text = List ℕ

abbrev pub codes : String → Text
codes String.[] = []
codes (String.◌∷◌ c s) = code c ∷ codes s

-- Go's `==` on strings.
infix 50 ◌=?◌
unfoldable pub ◌=?◌ : Text → Text → Bool
[] =? [] = true
(x ∷ xs) =? (y ∷ ys) = x == y && xs =? ys
_ =? _ = false

pub =?_iff : (a b : Text) → ((a =? b) ≡ true) ↔ (a ≡ b)
unfolding ◌=?◌
=?_iff [] [] = ground arith
=?_iff (x ∷ xs) (y ∷ ys) = ground (arith, =?_iff xs ys)
=?_iff [] (y ∷ ys) = ground arith
=?_iff (x ∷ xs) [] = ground arith

pub =?_refl : (a : Text) → (a =? a) ≡ true
=?_refl a = (=?_iff a a).1 refl

-- A `switch` on a string with these cases: is the text one of them?
unfoldable pub one_of : Text → List String → Bool
unfolding ◌=?◌
one_of t [] = false
one_of t (s ∷ ss) = t =? codes s || one_of t ss

-- A set of strings (Go's `map[string]bool`), as the list of the keys that are present.
unfoldable pub has : List Text → Text → Bool
has [] t = false
has (x ∷ xs) t = x =? t || has xs t

-- `strings.HasPrefix`
unfoldable pub has_prefix : Text → Text → Bool
has_prefix t [] = true
has_prefix [] (p ∷ ps) = false
has_prefix (x ∷ t) (p ∷ ps) = x == p && has_prefix t ps

-- `strings.TrimPrefix`
unfoldable pub trim_prefix : Text → Text → Text
unfolding has_prefix
trim_prefix t p = if has_prefix t p then drop (length p) t else t

-- `strings.HasSuffix` and `strings.TrimSuffix`
unfoldable pub has_suffix : Text → Text → Bool
unfolding ◌=?◌
has_suffix [] s = [] =? s
has_suffix (x ∷ t) s = (x ∷ t) =? s || has_suffix t s

unfoldable pub trim_suffix : Text → Text → Text
unfolding ◌=?◌
trim_suffix [] s = []
trim_suffix (x ∷ t) s = if (x ∷ t) =? s then [] else x ∷ trim_suffix t s

-- `unicode.IsSpace`
unfoldable pub is_space : ℕ → Bool
is_space c =
    any (λ s. c == s)
      (0x09 ∷ 0x0a ∷ 0x0b ∷ 0x0c ∷ 0x0d ∷ 0x20 ∷ 0x85 ∷ 0xa0 ∷ 0x1680 ∷ 0x2028 ∷ 0x2029 ∷ 0x202f
        ∷ 0x205f ∷ 0x3000 ∷ [])
    || (leb 0x2000 c && leb c 0x200a)

-- `strings.TrimSpace`
unfoldable pub trim_left : Text → Text
trim_left [] = []
trim_left (c ∷ t) = if is_space c then trim_left t else c ∷ t

unfoldable pub trim_right : Text → Text
trim_right [] = []
trim_right (c ∷ t) = let rest = trim_right t in if is_space c && rest =? [] then [] else c ∷ rest

unfoldable pub trim_space : Text → Text
unfolding trim_left trim_right is_space ◌=?◌
trim_space t = trim_right (trim_left t)

-- `strings.Index`, with `none` for -1
unfoldable pub index : Text → Text → Option ℕ
unfolding has_prefix
index [] p = if has_prefix [] p then some 0 else none
index (c ∷ t) p =
    let later = Option.map suc (index t p) in if has_prefix (c ∷ t) p then some 0 else later

-- `strings.LastIndex`
unfoldable pub last_index : Text → Text → Option ℕ
unfolding has_prefix
last_index [] p = if has_prefix [] p then some 0 else none
last_index (c ∷ t) p = elim (last_index t p) [
  | some i ↦ some (suc i)
  | none ↦ if has_prefix (c ∷ t) p then some 0 else none
]

-- `strings.Contains`
unfoldable pub contains : Text → Text → Bool
unfolding has_prefix
contains [] p = has_prefix [] p
contains (c ∷ t) p = has_prefix (c ∷ t) p || contains t p

-- `strings.Join`
unfoldable pub join : List Text → Text → Text
join [] sep = []
join (p ∷ []) sep = p
join (p ∷ q ∷ ps) sep = p ++ (sep ++ join (q ∷ ps) sep)

-- What holds of each text of a list of literals holds of a text that is one of them.
pub one_of-elim {ℓ} :
    (P : Text → Type ℓ) (t : Text) (ss : List String)
    → All (λ s. P (codes s)) ss
    → one_of t ss ≡ true
    → P t
unfolding one_of
one_of-elim P t [] ps h = cc
one_of-elim P t (s ∷ ss) ps h = elim (Bool-cases (t =? codes s)) [
  | inl same ↦ subst P (sym ((=?_iff t (codes s)).0 same)) ps.0
  | inr other ↦ one_of-elim P t ss ps.1 (rw other at h)
]

-- A test that the literals of a list pass is passed by a text that is one of them.
pub one_of-all :
    (p : Text → Bool) (t : Text) (ss : List String)
    → all (λ s. p (codes s)) ss ≡ true
    → one_of t ss ≡ true
    → p t ≡ true
unfolding one_of
one_of-all p t [] h is_one = cc
one_of-all p t (s ∷ ss) h is_one = elim (Bool-cases (t =? codes s)) [
  | inl same ↦ subst (λ u. p u ≡ true) (sym ((=?_iff t (codes s)).0 same)) (ground arith)
  | inr other ↦ one_of-all p t ss (ground arith) (rw other at is_one)
]
