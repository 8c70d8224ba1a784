-- ===== src/Ssrf/Dial.antt =====
-- What `safeDialContext` connects to.
use deckle.Base.{
  Bool, true, false, Option, none, some, List, [], ◌∷◌, ◌++◌, ◌≡◌, refl, ap, subst, arith, Text,
  all, Bool-cases, inl, inr,
}
use deckle.Ssrf.{
  Ip, is_private_ip, Dialed, split_error, lookup_error, blocked, dialed, first_safe, connect,
  dial_host, dial_address, safe_dial_context,
}

-- A safe address in the list, and private ones only before it.
pub record FirstSafe (allow : Bool) (ips : List Ip) (ip : Ip) : Type 0 where
  pub before : List Ip
  pub after : List Ip
  pub splits : ips ≡ before ++ ip ∷ after
  pub skipped : all (is_private_ip allow) before ≡ true
  pub safe : is_private_ip allow ip ≡ false

FirstSafe-cons :
    (allow : Bool) (x : Ip) (ips : List Ip) (ip : Ip)
    → is_private_ip allow x ≡ true
    → FirstSafe allow ips ip
    → FirstSafe allow (x ∷ ips) ip
FirstSafe-cons allow x ips ip h f = record {
  before = x ∷ f.before;
  after = f.after;
  splits = ap (◌∷◌ x) f.splits;
  skipped = rw h f.skipped;
  safe = f.safe;
}

first_safe-FirstSafe :
    (allow : Bool) (ips : List Ip) (ip : Ip)
    → first_safe allow ips ≡ some ip
    → FirstSafe allow ips ip
unfolding first_safe
first_safe-FirstSafe allow [] ip h = cc
first_safe-FirstSafe allow (x ∷ ips) ip h = elim (Bool-cases (is_private_ip allow x)) [
  | inr e ↦
      let same : x ≡ ip = ground arith in
      record {
        before = [];
        after = ips;
        splits = ap (λ (y : Ip). y ∷ ips) same;
        skipped = refl;
        safe = subst (λ y. is_private_ip allow y ≡ false) same e;
      }
  | inl e ↦ FirstSafe-cons allow x ips ip e (first_safe-FirstSafe allow ips ip (ground arith))
]

first_safe-none :
    (allow : Bool) (ips : List Ip)
    → first_safe allow ips ≡ none
    → all (is_private_ip allow) ips ≡ true
unfolding first_safe
first_safe-none allow [] h = refl
first_safe-none allow (x ∷ ips) h = ground (arith, first_safe-none allow ips)

module _ (split_host_port : Text → Option (Text × Text)) (lookup_ip : Text → Option (List Ip))
    (allow : Bool) (addr : Text) where
  -- The address splits into a host and the port, and the host has these addresses.
  abbrev pub Resolves : Text → Text → List Ip → Type 0
  Resolves host port ips = (split_host_port addr ≡ some (host, port)) × (lookup_ip host ≡ some ips)

  -- What each outcome of `safeDialContext` says.
  abbrev pub Explains : Dialed → Type 0
  Explains split_error = split_host_port addr ≡ none
  Explains lookup_error =
      (host : Text) × (port : Text) × (split_host_port addr ≡ some (host, port))
      × (lookup_ip host ≡ none)
  Explains (blocked host) =
      (port : Text) × (ips : List Ip) × Resolves host port ips
      × (all (is_private_ip allow) ips ≡ true)
  Explains (dialed ip port) =
      (host : Text) × (ips : List Ip) × Resolves host port ips × FirstSafe allow ips ip

  connect-Explains :
      (host port : Text) (ips : List Ip) (safe : Option Ip)
      → Resolves host port ips
      → first_safe allow ips ≡ safe
      → Explains (connect host port safe)
  unfolding connect
  connect-Explains host port ips none r e = (port, ips, r, first_safe-none allow ips e)
  connect-Explains host port ips (some ip) r e = (host, ips, r, first_safe-FirstSafe allow ips ip e)

  dial_host-Explains :
      (host port : Text) (found : Option (List Ip))
      → split_host_port addr ≡ some (host, port)
      → lookup_ip host ≡ found
      → Explains (dial_host allow host port found)
  unfolding dial_host
  dial_host-Explains host port none s l = (host, port, s, l)
  dial_host-Explains host port (some ips) s l =
      connect-Explains host port ips (first_safe allow ips) (s, l) refl

  dial_address-Explains :
      (split : Option (Text × Text))
      → split_host_port addr ≡ split
      → Explains (dial_address lookup_ip allow split)
  unfolding dial_address
  dial_address-Explains none s = s
  dial_address-Explains (some (host, port)) s = dial_host-Explains host port (lookup_ip host) s refl

  -- Each outcome is explained: the dialer is called with the first address of the host that is not
  -- private, at the port of the address; the connection is blocked only if all addresses are
  -- private; and the errors are those of the split and the lookup.
  pub safe_dial_context-Explains : Explains (safe_dial_context split_host_port lookup_ip allow addr)
  unfolding safe_dial_context
  safe_dial_context-Explains = dial_address-Explains (split_host_port addr) refl
