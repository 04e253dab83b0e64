-- ===== src/Protect/Config/Ignored.antt =====
-- Ignore lists that name single addresses.
use better_firewall.Prelude.{
  ◌/◌, ◌%◌, ◌^◌, Bool, true, false, String, none, some, nat_eq, ℕ-eq, String-eq, if◌then◌else◌, ◌≡◌,
  refl, arith,
}
use better_firewall.Net.{
  NetText, Addr, v4, v6, Prefix, is4, is4in6, unmap, without_zone, contains, in_prefix,
}
use better_firewall.Protect.Detector.{addr_eq}
use better_firewall.Protect.Config.{full, parse_ignored}

abbrev pub zone_of : Addr → String
zone_of (v4 n) = ""
zone_of (v6 n zone) = zone

-- A prefix of full length holds its address alone.
contains-full :
    (a ip : Addr) → zone_of a ≡ "" → zone_of ip ≡ "" → contains (full a) ip ≡ addr_eq a ip
unfolding contains in_prefix is4 addr_eq
contains-full (v4 n) (v4 m) h k = ground arith
contains-full (v4 n) (v6 m zone) h k = refl
contains-full (v6 n zone) (v4 m) h k = refl
contains-full (v6 n zone) (v6 m other) h k = rw h (rw k (ground arith))

zone_of-unmap : (a : Addr) → zone_of (unmap (without_zone a)) ≡ ""
unfolding unmap without_zone is4in6
zone_of-unmap (v4 n) = refl
zone_of-unmap (v6 n zone) = chosen (nat_eq (n / 2 ^ 32) 65535)
  where
    chosen : (c : Bool) → zone_of (if c then v4 (n % 2 ^ 32) else v6 n "") ≡ ""
    chosen true = refl
    chosen false = refl

-- An entry of an ignore list that is an address is accepted, and it covers of all addresses without
-- zone exactly that address, taken without its zone and as IPv4 if it is IPv4-mapped.
pub parse_ignored_alone :
    (net : NetText) (raw : String) (a ip : Addr)
    → net.parse_prefix raw ≡ none
    → net.parse_addr raw ≡ some a
    → zone_of ip ≡ ""
    → (p : Prefix) × (parse_ignored net raw ≡ some p)
      × (contains p ip ≡ addr_eq (unmap (without_zone a)) ip)
unfolding parse_ignored
parse_ignored_alone net raw a ip no_prefix address z = (
  full (unmap (without_zone a)),
  rw (parse_ignored, no_prefix) (rw address refl),
  contains-full (unmap (without_zone a)) ip (zone_of-unmap a) z,
)
