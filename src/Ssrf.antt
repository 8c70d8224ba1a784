-- ===== src/Ssrf.antt =====
-- ssrf.go: which addresses a connection may be made to. An IP address is its bytes, 4 or 16 of
-- them, as in Go's `net.IP`; the methods of `net.IP` and `net.IPNet` are those of the standard
-- library. `net.SplitHostPort` and `net.LookupIP` are parameters.
pub mod Ranges
pub mod Dial
mod Tests
use Prim.Native.Nat.{bit_and}
use deckle.Base.{
  ℕ, suc, Bool, true, false, not, ◌&&◌, ◌||◌, Option, none, some, List, [], ◌∷◌, ◌++◌, Text, ◌==◌,
  ◌=?◌, length, take, drop, any, get_elem?, if◌then◌else◌,
}

abbrev pub Ip : Type 0
Ip = List ℕ

abbrev pub v4_prefix : Ip
v4_prefix = 0 ∷ 0 ∷ 0 ∷ 0 ∷ 0 ∷ 0 ∷ 0 ∷ 0 ∷ 0 ∷ 0 ∷ 255 ∷ 255 ∷ []

-- `ip.To4()`, with `none` for nil
unfoldable pub to_4 : Ip → Option Ip
to_4 ip =
    if length ip == 4
    then some ip
    else if length ip == 16 && take 12 ip =? v4_prefix
    then some (drop 12 ip)
    else none

abbrev byte_at : ℕ → Ip → ℕ
byte_at i ip = elim (get_elem? ip i) [ none ↦ 0 | some b ↦ b ]

-- The 4-byte form where there is one, and the address itself otherwise.
abbrev short : Ip → Ip
short ip = elim (to_4 ip) [ none ↦ ip | some v4 ↦ v4 ]

-- The three methods of `net.IP`, on the short form of the address.
unfoldable pub is_loopback : Ip → Bool
is_loopback ip =
    if length ip == 4
    then byte_at 0 ip == 127
    else ip =? (0 ∷ 0 ∷ 0 ∷ 0 ∷ 0 ∷ 0 ∷ 0 ∷ 0 ∷ 0 ∷ 0 ∷ 0 ∷ 0 ∷ 0 ∷ 0 ∷ 0 ∷ 1 ∷ [])

unfoldable pub is_link_local_unicast : Ip → Bool
is_link_local_unicast ip =
    if length ip == 4
    then byte_at 0 ip == 169 && byte_at 1 ip == 254
    else length ip == 16 && (byte_at 0 ip == 0xfe && bit_and (byte_at 1 ip) 0xc0 == 0x80)

unfoldable pub is_link_local_multicast : Ip → Bool
is_link_local_multicast ip =
    if length ip == 4
    then byte_at 0 ip == 224 && (byte_at 1 ip == 0 && byte_at 2 ip == 0)
    else length ip == 16 && (byte_at 0 ip == 0xff && bit_and (byte_at 1 ip) 0x0f == 0x02)

-- A `net.IPNet`: the network number and the mask.
pub record Block : Type 0 where
  pub network : Ip
  pub mask : Ip

-- The loop of `IPNet.Contains`: `nn[i]&m[i] != ip[i]&m[i]`
unfoldable pub agree : Ip → Ip → Ip → Bool
agree (n ∷ ns) (m ∷ ms) (b ∷ bs) = bit_and n m == bit_and b m && agree ns ms bs
agree _ _ _ = true

unfoldable pub contains : Block → Ip → Bool
contains block ip =
    if length ip == length block.network then agree block.network block.mask ip else false

abbrev v6_rest : Ip
v6_rest = 0 ∷ 0 ∷ 0 ∷ 0 ∷ 0 ∷ 0 ∷ 0 ∷ 0 ∷ 0 ∷ 0 ∷ 0 ∷ 0 ∷ 0 ∷ []

-- `privateIPBlocks`, as `net.ParseCIDR` reads the list in `init`
abbrev pub private_ip_blocks : List Block
private_ip_blocks =
    record { network = 127 ∷ 0 ∷ 0 ∷ 0 ∷ []; mask = 255 ∷ 0 ∷ 0 ∷ 0 ∷ [] }
    ∷ record { network = 10 ∷ 0 ∷ 0 ∷ 0 ∷ []; mask = 255 ∷ 0 ∷ 0 ∷ 0 ∷ [] }
    ∷ record { network = 172 ∷ 16 ∷ 0 ∷ 0 ∷ []; mask = 255 ∷ 240 ∷ 0 ∷ 0 ∷ [] }
    ∷ record { network = 192 ∷ 168 ∷ 0 ∷ 0 ∷ []; mask = 255 ∷ 255 ∷ 0 ∷ 0 ∷ [] }
    ∷ record { network = 169 ∷ 254 ∷ 0 ∷ 0 ∷ []; mask = 255 ∷ 255 ∷ 0 ∷ 0 ∷ [] }
    ∷ record {
      network = 0 ∷ 0 ∷ (v6_rest ++ (1 ∷ []));
      mask =
          255 ∷ 255 ∷ 255 ∷ 255 ∷ 255 ∷ 255 ∷ 255 ∷ 255 ∷ 255 ∷ 255 ∷ 255 ∷ 255 ∷ 255 ∷ 255 ∷ 255
          ∷ 255 ∷ [];
    }
    ∷ record {
      network = 0xfe ∷ 0x80 ∷ (v6_rest ++ (0 ∷ []));
      mask = 255 ∷ 0xc0 ∷ (v6_rest ++ (0 ∷ []));
    }
    ∷ record { network = 0xfc ∷ 0 ∷ (v6_rest ++ (0 ∷ [])); mask = 0xfe ∷ 0 ∷ (v6_rest ++ (0 ∷ [])) }
    ∷ []

-- `isPrivateIP`; the flag says that DECKLE_TEST_ALLOW_LOCAL is "1". The methods of `net.IP` and
-- `Contains` all begin with `To4`.
unfoldable pub is_private_ip : Bool → Ip → Bool
is_private_ip allow_local ip =
    let addr = short ip in
    if allow_local
    then false
    else if is_loopback addr || (is_link_local_unicast addr || is_link_local_multicast addr)
    then true
    else any (λ block. contains block addr) private_ip_blocks

-- What `safeDialContext` does for an address: an error, or one call of the dialer.
pub data Dialed : Type 0 where
  split_error lookup_error : Dialed
  blocked : Text → Dialed
  dialed : Ip → Text → Dialed

-- The loop that sets `safeIP`
unfoldable pub first_safe : Bool → List Ip → Option Ip
first_safe allow_local [] = none
first_safe allow_local (ip ∷ ips) =
    let later = first_safe allow_local ips in
    if is_private_ip allow_local ip then later else some ip

-- `if safeIP == nil`
unfoldable pub connect : Text → Text → Option Ip → Dialed
connect host port none = blocked host
connect host port (some ip) = dialed ip port

unfoldable pub dial_host : Bool → Text → Text → Option (List Ip) → Dialed
dial_host allow_local host port none = lookup_error
dial_host allow_local host port (some ips) = connect host port (first_safe allow_local ips)

unfoldable pub dial_address : (Text → Option (List Ip)) → Bool → Option (Text × Text) → Dialed
dial_address lookup_ip allow_local none = split_error
dial_address lookup_ip allow_local (some (host, port)) =
    dial_host allow_local host port (lookup_ip host)

-- `safeDialContext`
unfoldable pub safe_dial_context :
    (Text → Option (Text × Text)) → (Text → Option (List Ip)) → Bool → Text → Dialed
safe_dial_context split_host_port lookup_ip allow_local addr =
    dial_address lookup_ip allow_local (split_host_port addr)
