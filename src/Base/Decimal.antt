-- ===== src/Base/Decimal.antt =====
-- The decimal print of a number (`%d`, `strconv.Itoa`), and that it reads back.
use Prim.Native.Nat.{ℕ, zero, suc, ◌+◌, ◌-◌, ◌*◌, ◌/◌, ◌%◌, ◌<◌}
use mathlib.Core.Path.{◌≡◌, refl, ap, sym, ◌∙◌}
use mathlib.Core.Bool.{true, false, ◌&&◌}
use mathlib.Core.List.{[], ◌∷◌, ◌++◌}
use native.Mathlib.Omega.{arith}
use deckle.Base.Tests.{◌==◌, leb, if◌then◌else◌}
use deckle.Base.Strings.{Text, codes}

-- The fuel bounds the digits that are still to come; `suc n` is more than `n` has.
digits : ℕ → ℕ → Text → Text
digits zero n out = out
digits (suc f) n out = elim (n / 10 == 0) [
  | true ↦ (b'0' + n % 10) ∷ out
  | false ↦ digits f (n / 10) ((b'0' + n % 10) ∷ out)
]

unfoldable pub decimal : ℕ → Text
unfolding digits
decimal n = digits (suc n) n []

-- The number that digits spell after `n`.
unfoldable pub read_digits : ℕ → Text → ℕ
read_digits n [] = n
read_digits n (c ∷ t) = read_digits (n * 10 + (c - b'0')) t

read_digits-digits :
    (f n : ℕ) (out : Text) → n < f → read_digits 0 (digits f n out) ≡ read_digits n out
unfolding digits read_digits
read_digits-digits zero n out h = elim h [ ]
read_digits-digits (suc f) n out h =
    ground (arith, read_digits-digits f (n / 10) ((b'0' + n % 10) ∷ out))

pub read_digits-decimal : (n : ℕ) → read_digits 0 (decimal n) ≡ n
unfolding decimal read_digits
read_digits-decimal n = read_digits-digits (suc n) n [] (omega arith)

pub decimal-injective : (a b : ℕ) → decimal a ≡ decimal b → a ≡ b
decimal-injective a b h = sym (read_digits-decimal a) ∙ ap (read_digits 0) h ∙ read_digits-decimal b

-- The number that a text begins with.
unfoldable pub leading : ℕ → Text → ℕ
leading n [] = n
leading n (c ∷ t) =
    let rest = leading (n * 10 + (c - b'0')) t in if leb b'0' c && leb c b'9' then rest else n

leading-digits :
    (f n : ℕ) (out t : Text) → n < f → leading 0 (digits f n out ++ t) ≡ leading n (out ++ t)
unfolding digits leading
leading-digits zero n out t h = elim h [ ]
leading-digits (suc f) n out t h =
    ground (arith, leading-digits f (n / 10) ((b'0' + n % 10) ∷ out) t)

pub leading-decimal : (n : ℕ) (t : Text) → leading 0 (decimal n ++ t) ≡ leading n t
unfolding decimal
leading-decimal n t = leading-digits (suc n) n [] t (omega arith)

decimal_test : decimal 1203 ≡ codes "1203"
unfolding decimal
decimal_test = refl
