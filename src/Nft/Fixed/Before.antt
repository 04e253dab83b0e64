-- ===== src/Nft/Fixed/Before.antt =====
-- internal/backend/nft/compile.go, compileBefore: RTN_LOCAL is 2, RTN_BROADCAST 3, RTN_MULTICAST 5.
use better_firewall.Prelude.{
  ℕ, ◌+◌, Bool, true, false, List, [], ◌∷◌, ◌++◌, String, Option, none, some, map, ◌==◌, String-eq,
  if◌then◌else◌,
}
use better_firewall.Net.{NetText}
use better_firewall.Nft.Expr.{Expr, counter, verdict, drop_packet, back, jump_to}
use better_firewall.Nft.Match.{
  nfproto, l4proto, iif, oif, iface_match, rh_type, ct_state, bit_invalid, bit_established,
  bit_related, icmp_type, hop_limit, addr_match, port_eq, fib_addr_type, limit3,
}
use better_firewall.Nft.Fixed.{
  threat_ban_rules, Icmpv6BeforeRule, before_icmpv6_rules, before_icmpv6_output_rules,
  before_icmpv6_forward_rules, accepted, dropped, jumping, each,
}

-- The hop limit of a rule, if it has one.
abbrev pub hop_match : Option ℕ → List Expr
hop_match none = []
hop_match (some hl) = hop_limit hl

abbrev icmp4 : ℕ → List Expr
icmp4 t = accepted (nfproto false ++ l4proto 1 ++ icmp_type t)

abbrev pub icmp6 : ℕ → List Expr
icmp6 t = accepted (nfproto true ++ l4proto 58 ++ icmp_type t)

-- Loopback and routing headers of type 0.
unfoldable pub before_start : List (String × List Expr)
unfolding iface_match nfproto rh_type
before_start =
    ("bfw-before-input", accepted (iif "lo"))
    ∷ ("bfw-before-output", accepted (oif "lo"))
    ∷ each ("bfw-before-input" ∷ "bfw-before-output" ∷ "bfw-before-forward" ∷ [])
        (dropped (nfproto true ++ rh_type 0))

-- What belongs to a connection, replies to multicast pings, and what is invalid.
unfoldable pub before_state : List (String × List Expr)
unfolding ct_state nfproto l4proto icmp_type
before_state =
    each ("bfw-before-input" ∷ "bfw-before-output" ∷ "bfw-before-forward" ∷ [])
      (accepted (ct_state (bit_established + bit_related)))
    ++ (("bfw-before-input", icmp6 129)
        ∷ ("bfw-before-input", jumping "bfw-logging-deny" (ct_state bit_invalid))
        ∷ ("bfw-before-input", dropped (ct_state bit_invalid))
        ∷ [])

-- The ICMP types that IPv4 accepts.
unfoldable pub before_icmp4 : List (String × List Expr)
unfolding nfproto l4proto icmp_type
before_icmp4 =
    map (λ t. ("bfw-before-input", icmp4 t)) (3 ∷ 11 ∷ 12 ∷ 8 ∷ [])
    ++ map (λ t. ("bfw-before-forward", icmp4 t)) (3 ∷ 11 ∷ 12 ∷ 8 ∷ [])

module _ (net : NetText) where
  -- `emit6`.
  unfoldable pub emit6 : String → List Icmpv6BeforeRule → List (String × List Expr)
  unfolding nfproto l4proto icmp_type hop_limit addr_match
  emit6 ch [] = []
  emit6 ch (r ∷ rs) =
      (
        ch,
        accepted (
            nfproto true
            ++ l4proto 58
            ++ icmp_type r.typ
            ++ (if r.src_cidr == "" then [] else addr_match net "saddr" r.src_cidr true)
            ++ hop_match r.hl),
      )
      ∷ emit6 ch rs

  -- The ICMP types that IPv6 accepts.
  unfoldable pub before_icmp6 : List (String × List Expr)
  unfolding emit6 nfproto l4proto icmp_type
  before_icmp6 =
      emit6 "bfw-before-input" before_icmpv6_rules
      ++ emit6 "bfw-before-output" before_icmpv6_output_rules
      ++ emit6 "bfw-before-forward" before_icmpv6_forward_rules
      ++ map (λ t. ("bfw-before-input", icmp6 t)) (144 ∷ 145 ∷ 146 ∷ 147 ∷ [])

  -- A service of udp that the input accepts.
  abbrev pub udp_input : Bool → List Expr → String × List Expr
  udp_input six match = ("bfw-before-input", accepted (nfproto six ++ l4proto 17 ++ match))

  -- DHCP, the drop of what is not local, mDNS and UPnP.
  unfoldable pub before_services : List (String × List Expr)
  unfolding nfproto l4proto port_eq addr_match fib_addr_type
  before_services =
      udp_input false (port_eq "sport" 67 ++ port_eq "dport" 68)
      ∷ udp_input true (
          addr_match net "saddr" "fe80::/10" true
          ++ port_eq "sport" 547
          ++ addr_match net "daddr" "fe80::/10" true
          ++ port_eq "dport" 546)
      ∷ ("bfw-before-input", jumping "bfw-not-local" (nfproto false))
      ∷ ("bfw-not-local", fib_addr_type 2 ++ (counter ∷ verdict back ∷ []))
      ∷ ("bfw-not-local", fib_addr_type 5 ++ (counter ∷ verdict back ∷ []))
      ∷ ("bfw-not-local", fib_addr_type 3 ++ (counter ∷ verdict back ∷ []))
      ∷ ("bfw-not-local", limit3 ∷ counter ∷ verdict (jump_to "bfw-logging-deny") ∷ [])
      ∷ ("bfw-not-local", counter ∷ verdict drop_packet ∷ [])
      ∷ udp_input false (addr_match net "daddr" "224.0.0.251" false ++ port_eq "dport" 5353)
      ∷ udp_input true (addr_match net "daddr" "ff02::fb" true ++ port_eq "dport" 5353)
      ∷ udp_input false (addr_match net "daddr" "239.255.255.250" false ++ port_eq "dport" 1900)
      ∷ udp_input true (addr_match net "daddr" "ff02::f" true ++ port_eq "dport" 1900)
      ∷ []

  -- `compileBefore`, with the sets of threat bans.
  unfoldable pub before_rules :
      Option (String × ℕ) → Option (String × ℕ) → List (String × List Expr)
  unfolding before_start before_state before_icmp4 before_icmp6 before_services
  before_rules bans4 bans6 =
      before_start
      ++ threat_ban_rules "bfw-before-input" bans4 bans6
      ++ threat_ban_rules "bfw-before-forward" bans4 bans6
      ++ before_state
      ++ before_icmp4
      ++ before_icmp6
      ++ before_services
