-- ===== src/Ssrf/Tests.antt =====
-- Addresses that connections are made to and refused at.
use deckle.Base.{
  take, false, Option, none, some, List, [], ◌∷◌, ◌≡◌, refl, arith, Text, codes, ◌=?◌,
  if◌then◌else◌,
}
use deckle.Ssrf.{
  v4_prefix, Ip, is_private_ip, dialed, safe_dial_context, first_safe, connect, dial_host,
  dial_address, to_4, is_loopback, is_link_local_unicast, is_link_local_multicast, contains, agree,
}
use deckle.Ssrf.Dial.{Explains, safe_dial_context-Explains}
use deckle.Ssrf.Ranges.{is_private_v4, is_private_ip-v4}
use deckle.Ssrf.Ranges.V6.{is_private_v6, is_private_ip-v6}

-- A resolver that knows one host, with a private and a public address.
abbrev split : Text → Option (Text × Text)
split addr = if addr =? codes "h:80" then some (codes "h", codes "80") else none

abbrev lookup : Text → Option (List Ip)
lookup host =
    if host =? codes "h" then some ((10 ∷ 0 ∷ 0 ∷ 1 ∷ []) ∷ (8 ∷ 8 ∷ 8 ∷ 8 ∷ []) ∷ []) else none

second_address :
    safe_dial_context split lookup false (codes "h:80") ≡ dialed (8 ∷ 8 ∷ 8 ∷ 8 ∷ []) (codes "80")
unfolding safe_dial_context first_safe connect dial_host dial_address is_private_ip to_4 is_loopback
    is_link_local_unicast is_link_local_multicast contains agree ◌=?◌
second_address = refl

safe_dial_context-Explains_example :
    Explains split lookup false (codes "h:80") (safe_dial_context split lookup false (codes "h:80"))
safe_dial_context-Explains_example = safe_dial_context-Explains split lookup false (codes "h:80")

is_private_ip-v4_example : is_private_ip false (172 ∷ 31 ∷ 0 ∷ 9 ∷ []) ≡ is_private_v4 172 31 0
is_private_ip-v4_example =
    is_private_ip-v4 172 31 0 9 (omega arith) (omega arith) (omega arith) (omega arith)

-- The bytes of fd00::1 behind the first two
abbrev interface : Ip
interface = 0 ∷ 0 ∷ 0 ∷ 0 ∷ 0 ∷ 0 ∷ 0 ∷ 0 ∷ 0 ∷ 0 ∷ 0 ∷ 0 ∷ 0 ∷ 1 ∷ []

unmapped : (take 12 (0xfd ∷ 0 ∷ interface) =? v4_prefix) ≡ false
unfolding ◌=?◌
unmapped = refl

is_private_ip-v6_example :
    is_private_ip false (0xfd ∷ 0 ∷ interface) ≡ is_private_v6 0xfd 0 interface
is_private_ip-v6_example = is_private_ip-v6 0xfd 0 interface refl refl unmapped

-- The unspecified addresses, at which a host reaches itself, are not refused.
unspecified_accepted :
    (is_private_ip false (0 ∷ 0 ∷ 0 ∷ 0 ∷ []) ≡ false)
    × (is_private_ip false (0 ∷ 0 ∷ 0 ∷ 0 ∷ 0 ∷ 0 ∷ 0 ∷ 0 ∷ 0 ∷ 0 ∷ 0 ∷ 0 ∷ 0 ∷ 0 ∷ 0 ∷ 0 ∷ [])
        ≡ false)
unfolding is_private_ip to_4 is_loopback is_link_local_unicast is_link_local_multicast contains
    agree ◌=?◌
unspecified_accepted = (refl, refl)
