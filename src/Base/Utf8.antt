-- ===== src/Base/Utf8.antt =====
-- `strings.TrimSpace` on the bytes of a text in UTF-8. `trim_space` of Strings is the same on code
-- points.
use Prim.Native.Nat.{ℕ, zero, suc}
use mathlib.Core.List.{List, [], ◌∷◌, map, reverse}
use mathlib.Core.Option.{Option, none, some}
use deckle.Base.Tests.{if◌then◌else◌}
use deckle.Base.Lists.{length, drop}
use deckle.Base.Strings.{Text, has_prefix}

-- The encodings of the characters of `unicode.IsSpace`
abbrev spaces : List Text
spaces =
    (0x09 ∷ [])
    ∷ (0x0a ∷ [])
    ∷ (0x0b ∷ [])
    ∷ (0x0c ∷ [])
    ∷ (0x0d ∷ [])
    ∷ (0x20 ∷ [])
    ∷ (0xc2 ∷ 0x85 ∷ [])
    ∷ (0xc2 ∷ 0xa0 ∷ [])
    ∷ (0xe1 ∷ 0x9a ∷ 0x80 ∷ [])
    ∷ (0xe2 ∷ 0x80 ∷ 0x80 ∷ [])
    ∷ (0xe2 ∷ 0x80 ∷ 0x81 ∷ [])
    ∷ (0xe2 ∷ 0x80 ∷ 0x82 ∷ [])
    ∷ (0xe2 ∷ 0x80 ∷ 0x83 ∷ [])
    ∷ (0xe2 ∷ 0x80 ∷ 0x84 ∷ [])
    ∷ (0xe2 ∷ 0x80 ∷ 0x85 ∷ [])
    ∷ (0xe2 ∷ 0x80 ∷ 0x86 ∷ [])
    ∷ (0xe2 ∷ 0x80 ∷ 0x87 ∷ [])
    ∷ (0xe2 ∷ 0x80 ∷ 0x88 ∷ [])
    ∷ (0xe2 ∷ 0x80 ∷ 0x89 ∷ [])
    ∷ (0xe2 ∷ 0x80 ∷ 0x8a ∷ [])
    ∷ (0xe2 ∷ 0x80 ∷ 0xa8 ∷ [])
    ∷ (0xe2 ∷ 0x80 ∷ 0xa9 ∷ [])
    ∷ (0xe2 ∷ 0x80 ∷ 0xaf ∷ [])
    ∷ (0xe2 ∷ 0x81 ∷ 0x9f ∷ [])
    ∷ (0xe3 ∷ 0x80 ∷ 0x80 ∷ [])
    ∷ []

-- The text behind the first of the prefixes that it has.
behind : List Text → Text → Option Text
behind [] t = none
behind (p ∷ ps) t = if has_prefix t p then some (drop (length p) t) else behind ps t

-- Each round drops a byte at least, so that the length is fuel enough.
skip_all : ℕ → List Text → Text → Text
skip_all zero ps t = t
skip_all (suc f) ps t = elim (behind ps t) [ none ↦ t | some rest ↦ skip_all f ps rest ]

unfoldable pub trim_bytes : Text → Text
unfolding behind skip_all has_prefix
trim_bytes t =
    let front = skip_all (length t) spaces t in
    reverse (skip_all (length front) (map reverse spaces) (reverse front))
