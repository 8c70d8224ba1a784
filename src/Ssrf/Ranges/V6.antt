-- ===== src/Ssrf/Ranges/V6.antt =====
-- `isPrivateIP` on IPv6 addresses.
use Prim.Native.Nat.{bit_and}
use deckle.Base.{
  ℕ, ◌%◌, Bool, true, false, not, ◌&&◌, ◌||◌, [], ◌∷◌, ◌≡◌, refl, ap, ◌∙◌, some, arith, length,
  take, all, any, ◌==◌, ◌=?◌, ltb, leb, if◌then◌else◌, none,
}
use deckle.Ssrf.{
  Ip, private_ip_blocks, to_4, is_loopback, is_link_local_unicast, is_link_local_multicast, agree,
  contains, is_private_ip, v4_prefix,
}
use deckle.Ssrf.Ranges.{passes_up_to, passes_up_to_lem}

abbrev same : Bool → Bool → Bool
same x y = if x then y else not y

-- What the masks of the blocks and of the tests of `net.IP` ask of a byte
abbrev masks_as_expected : ℕ → Bool
masks_as_expected x =
    bit_and x 255 == x
    && (bit_and x 0 == 0
        && (same (bit_and x 0xc0 == 0x80) (leb 0x80 x && leb x 0xbf)
            && (same (bit_and x 0xfe == 0xfc) (x == 0xfc || x == 0xfd)
                && same (bit_and x 0x0f == 0x02) (x % 16 == 2))))

bytes_masked : passes_up_to masks_as_expected 255 ≡ true
unfolding passes_up_to
bytes_masked = refl

mask_byte : (x : ℕ) → ltb x 256 ≡ true → masks_as_expected x ≡ true
mask_byte x h = passes_up_to_lem masks_as_expected 255 x (ground arith) bytes_masked

-- ::1
abbrev loopback : Ip
loopback = 0 ∷ 0 ∷ 0 ∷ 0 ∷ 0 ∷ 0 ∷ 0 ∷ 0 ∷ 0 ∷ 0 ∷ 0 ∷ 0 ∷ 0 ∷ 0 ∷ 0 ∷ 1 ∷ []

-- A mask of zeros accepts every byte.
agree_zeros :
    (ns ip : Ip)
    → all (λ n. n == 0) ns ≡ true
    → all (λ b. ltb b 256) ip ≡ true
    → agree ns ns ip ≡ true
unfolding agree
agree_zeros [] ip h g = refl
agree_zeros (n ∷ ns) [] h g = refl
agree_zeros (n ∷ ns) (b ∷ bs) h g = ground (arith, mask_byte b, agree_zeros ns bs)

-- A mask of ones asks for the same bytes.
agree_ones :
    (ns ms ip : Ip)
    → length ns ≡ length ip
    → length ms ≡ length ip
    → all (λ m. m == 255) ms ≡ true
    → all (λ n. ltb n 256) ns ≡ true
    → all (λ b. ltb b 256) ip ≡ true
    → agree ns ms ip ≡ (ip =? ns)
unfolding agree ◌=?◌
agree_ones [] [] [] l k h g i = refl
agree_ones (n ∷ ns) (m ∷ ms) (b ∷ bs) l k h g i =
    ground (arith, mask_byte n, mask_byte b, agree_ones ns ms bs)
agree_ones [] _ (b ∷ bs) l k h g i = ground arith
agree_ones (n ∷ ns) _ [] l k h g i = ground arith
agree_ones _ [] (b ∷ bs) l k h g i = ground arith
agree_ones _ (m ∷ ms) [] l k h g i = ground arith

-- ::1, fe80::/10, fc00::/7, and the multicast addresses whose scope is the link
abbrev pub is_private_v6 : ℕ → ℕ → Ip → Bool
is_private_v6 a b rest =
    (a ∷ b ∷ rest) =? loopback
    || ((a == 0xfe && (leb 0x80 b && leb b 0xbf))
        || ((a == 0xfc || a == 0xfd) || (a == 0xff && b % 16 == 2)))

-- A test that the length is not 4, and what the functions do of an address of 16 bytes
module _ (a b : ℕ) (rest : Ip) (len : length rest ≡ 14) where
  abbrev addr : Ip
  addr = a ∷ b ∷ rest

  not_four : (length addr == 4) ≡ false
  not_four = ground arith

  sixteen : (length addr == 16) ≡ true
  sixteen = ground arith

  to_4-none : (take 12 addr =? v4_prefix) ≡ false → to_4 addr ≡ none
  unfolding to_4
  to_4-none unmapped = rw (not_four, sixteen, unmapped) refl

  tests_v6 :
      (is_loopback addr ≡ (addr =? loopback))
      × (is_link_local_unicast addr ≡ (a == 0xfe && bit_and b 0xc0 == 0x80))
      × (is_link_local_multicast addr ≡ (a == 0xff && bit_and b 0x0f == 0x02))
  unfolding is_loopback is_link_local_unicast is_link_local_multicast
  tests_v6 = (rw not_four refl, rw (not_four, sixteen) refl, rw (not_four, sixteen) refl)

-- The tests of `isPrivateIP`, on an address in its short form
abbrev judge : Ip → Bool
judge addr =
    if is_loopback addr || (is_link_local_unicast addr || is_link_local_multicast addr)
    then true
    else any (λ block. contains block addr) private_ip_blocks

is_private_ip-judge : (ip : Ip) → to_4 ip ≡ none → is_private_ip false ip ≡ judge ip
unfolding is_private_ip
is_private_ip-judge ip h = ap (λ o. judge (elim o [ none ↦ ip | some v4 ↦ v4 ])) h

abbrev zeros : Ip
zeros = 0 ∷ 0 ∷ 0 ∷ 0 ∷ 0 ∷ 0 ∷ 0 ∷ 0 ∷ 0 ∷ 0 ∷ 0 ∷ 0 ∷ 0 ∷ 0 ∷ []

abbrev ones : Ip
ones =
    255 ∷ 255 ∷ 255 ∷ 255 ∷ 255 ∷ 255 ∷ 255 ∷ 255 ∷ 255 ∷ 255 ∷ 255 ∷ 255 ∷ 255 ∷ 255 ∷ 255 ∷ 255
    ∷ []

-- The tests of the first two bytes
module _ (a b : ℕ) (ha : ltb a 256 ≡ true) (hb : ltb b 256 ≡ true) where
  first_bytes :
      ((bit_and b 0xc0 == 0x80) ≡ (leb 0x80 b && leb b 0xbf))
      × ((bit_and b 0x0f == 0x02) ≡ (b % 16 == 2))
  first_bytes = (ground (arith, mask_byte b hb), ground (arith, mask_byte b hb))

  agree_fe_80 :
      (rest : Ip)
      → agree zeros zeros rest ≡ true
      → agree (0xfe ∷ 0x80 ∷ zeros) (255 ∷ 0xc0 ∷ zeros) (a ∷ b ∷ rest)
        ≡ (a == 0xfe && (leb 0x80 b && leb b 0xbf))
  unfolding agree
  agree_fe_80 rest h = ground (arith, h, mask_byte a ha, mask_byte b hb)

  agree_fc_00 :
      (rest : Ip)
      → agree zeros zeros rest ≡ true
      → agree (0xfc ∷ 0 ∷ zeros) (0xfe ∷ 0 ∷ zeros) (a ∷ b ∷ rest) ≡ (a == 0xfc || a == 0xfd)
  unfolding agree
  agree_fc_00 rest h = ground (arith, h, mask_byte a ha, mask_byte b hb)

merged :
    (l u m c : Bool)
    → (if l || (u || m) then true else l || (u || (c || false))) ≡ (l || (u || (c || m)))
merged l u m c = ground arith

-- Unless the test setting allows local addresses, `isPrivateIP` accepts the 16 bytes of an IPv6
-- address that is no mapped IPv4 address exactly if it is ::1, in fe80::/10 or fc00::/7, or a
-- multicast address with the scope of the link.
pub is_private_ip-v6 :
    (a b : ℕ) (rest : Ip)
    → length rest ≡ 14
    → all (λ x. ltb x 256) (a ∷ b ∷ rest) ≡ true
    → (take 12 (a ∷ b ∷ rest) =? v4_prefix) ≡ false
    → is_private_ip false (a ∷ b ∷ rest) ≡ is_private_v6 a b rest
unfolding contains
is_private_ip-v6 a b rest len bytes unmapped =
    let ha : ltb a 256 ≡ true = ground arith in
    let hb : ltb b 256 ≡ true = ground arith in
    let masked = agree_zeros zeros rest refl (ground arith) in
    let (is_lo, is_uni, is_multi) = tests_v6 a b rest len in
    let (uni, multi) = first_bytes a b ha hb in
    is_private_ip-judge (a ∷ b ∷ rest) (to_4-none a b rest len unmapped)
    ∙ rw
        (
          is_lo,
          is_uni,
          is_multi,
          uni,
          multi,
          len,
          agree_ones loopback ones (a ∷ b ∷ rest) (omega arith) (omega arith) refl refl bytes,
          agree_fe_80 a b ha hb rest masked,
          agree_fc_00 a b ha hb rest masked,
        )
        (merged (a ∷ b ∷ rest =? loopback) (a == 0xfe && (leb 0x80 b && leb b 0xbf))
          (a == 0xff && b % 16 == 2) (a == 0xfc || a == 0xfd))
