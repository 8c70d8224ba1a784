-- ===== src/Ssrf/Ranges.antt =====
-- `isPrivateIP` against the ranges of addresses that it means.
pub mod V6
use Prim.Native.Nat.{bit_and}
use deckle.Base.{
  if◌then◌else◌, ◌≤◌, ℕ, zero, suc, ◌*◌, ◌/◌, ◌<◌, Bool, true, false, ◌&&◌, ◌||◌, [], ◌∷◌, ◌++◌,
  ◌≡◌, refl, arith, ◌==◌, ◌=?◌, leb,
}
use deckle.Ssrf.{
  to_4, is_loopback, is_link_local_unicast, is_link_local_multicast, agree, contains, is_private_ip,
  v4_prefix,
}

-- What the masks of the blocks do to a byte.
abbrev masks_as_expected : ℕ → Bool
masks_as_expected x = bit_and x 255 == x && (bit_and x 240 == x / 16 * 16 && bit_and x 0 == 0)

pub passes_up_to : (ℕ → Bool) → ℕ → Bool
passes_up_to test zero = test 0
passes_up_to test (suc k) = if test (suc k) then passes_up_to test k else false

pub passes_up_to_lem :
    (test : ℕ → Bool) (k byte : ℕ) → byte ≤ k → passes_up_to test k ≡ true → test byte ≡ true
unfolding passes_up_to
passes_up_to_lem test zero byte le h = ground arith
passes_up_to_lem test (suc k) byte le h = ground (arith, passes_up_to_lem test k byte)

bytes_masked : passes_up_to masks_as_expected 255 ≡ true
unfolding passes_up_to
bytes_masked = refl

mask_byte :
    (x : ℕ) → x < 256 → (bit_and x 255 ≡ x) × (bit_and x 240 ≡ x / 16 * 16) × (bit_and x 0 ≡ 0)
mask_byte x h = ground (arith, passes_up_to_lem masks_as_expected 255 x (omega arith) bytes_masked)

-- The IPv4 ranges: 127/8, 10/8, 172.16/12, 192.168/16, 169.254/16 and 224.0.0/24.
abbrev pub is_private_v4 : ℕ → ℕ → ℕ → Bool
is_private_v4 a b c =
    a == 127
    || (a == 10
        || ((a == 172 && (leb 16 b && leb b 31))
            || ((a == 192 && b == 168)
                || ((a == 169 && b == 254) || (a == 224 && (b == 0 && c == 0))))))

-- Unless the test setting allows local addresses, `isPrivateIP` accepts the bytes of an IPv4 address
-- exactly if they are in one of the ranges 127/8, 10/8, 172.16/12, 192.168/16, 169.254/16 and
-- 224.0.0/24.
pub is_private_ip-v4 :
    (a b c d : ℕ)
    → a < 256
    → b < 256
    → c < 256
    → d < 256
    → is_private_ip false (a ∷ b ∷ c ∷ d ∷ []) ≡ is_private_v4 a b c
unfolding is_private_ip to_4 is_loopback is_link_local_unicast is_link_local_multicast contains
    agree
is_private_ip-v4 a b c d ha hb hc hd =
    ground (arith, mask_byte a ha, mask_byte b hb, mask_byte c hc, mask_byte d hd)

-- An IPv4 address mapped to IPv6 is judged like the IPv4 address.
pub is_private_ip-mapped :
    (allow : Bool) (a b c d : ℕ)
    → is_private_ip allow (v4_prefix ++ (a ∷ b ∷ c ∷ d ∷ []))
      ≡ is_private_ip allow (a ∷ b ∷ c ∷ d ∷ [])
unfolding is_private_ip to_4 ◌=?◌
is_private_ip-mapped allow a b c d = refl
