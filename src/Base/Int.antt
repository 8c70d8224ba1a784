-- ===== src/Base/Int.antt =====
-- Integers over the native numbers, and Go's operations on `int` that the program uses on them.
use Prim.Native.Nat.{ℕ, suc, ◌+◌, ◌-◌, ◌/◌}
use deckle.Base.Tests.{leb, if◌then◌else◌}

pub data ℤ : Type 0 where
  pos : ℕ → ℤ
  negsuc : ℕ → ℤ

-- `a - b`
abbrev pub minus : ℕ → ℕ → ℤ
minus a b = if leb b a then pos (a - b) else negsuc (b - suc a)

-- `z + k`
abbrev pub add : ℤ → ℕ → ℤ
add (pos n) k = pos (n + k)
add (negsuc n) k = minus k (suc n)

-- `z - k`
abbrev pub subtract : ℤ → ℕ → ℤ
subtract (pos n) k = minus n k
subtract (negsuc n) k = negsuc (n + k)

-- `z / 2`, which rounds towards zero
abbrev pub half : ℤ → ℤ
half (pos n) = pos (n / 2)
half (negsuc n) = minus 0 (suc n / 2)
