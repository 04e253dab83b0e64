-- ===== src/Nft/Frame/Match.antt =====
-- internal/backend/nft/compile.go, ruleMatch: a match has no jump, and leaves rules and chains alone.
use better_firewall.Prelude.{
  ℕ, ◌≡◌, refl, Bool, true, false, not, ◌&&◌, ◌||◌, List, [], ◌∷◌, ◌++◌, String, ◌==◌, String-eq,
  ℕ-eq, Bool-eq, if◌then◌else◌, keep, ◌<>◌, Bool-cases, inl, inr, ends_char, Option-cases,
}
use better_firewall.Prelude.Result.{ok, err, Ensures, Ensures-bind}
use better_firewall.Net.{Addr, NetText, is4, mask_addr, without_zone}
use better_firewall.Rule.{PortRange, AddrSpec, Rule, any}
use better_firewall.Rule.Icmp.{icmp_type_number, parse_uint}
use better_firewall.Nft.Expr.{
  Expr, MetaKey, key_iifname, key_oifname, set_lookup, cmp_eq, bytes, range,
}
use better_firewall.Nft.Ifaces.{given_iface, both_ifaces}
use better_firewall.Nft.Compiled.{iface_panic}
use better_firewall.Nft.Match.{
  nfproto, l4proto, proto_num, iface_match, iface_panics, icmp_type, ct_state, addr_payload,
  parse_addr_or_prefix, match_addr, addr_match, is_cached, cached_protos, zone_of, port_payload,
  port_data, fail_closed,
}
use better_firewall.Nft.Compiled.{Compiled, icmp_ipv4_only, icmp_ipv6_only, icmp_with_ports}
use better_firewall.Nft.Rules.{
  append_port_exprs, port_exprs, no_ports, is_port_proto, applies, proto_exprs, icmp_exprs, is_icmp,
  or_zero,
}
use better_firewall.Nft.UserRules.{endpoint_addr, family_match, both_ports, rule_match, with_family}
use better_firewall.Nft.Frame.{
  jump_in, jumps_in, jumps_in-append, Appends, Appends-refl, Appends-trans,
}

module _ (names : List String) where
  abbrev pub Quiet : List Expr → Type 0
  Quiet es = jumps_in names es ≡ true

  pub Quiet-append : (es fs : List Expr) → Quiet es → Quiet fs → Quiet (es ++ fs)
  Quiet-append es fs p q = rw (jumps_in-append names es fs, p, q) refl

  pub Quiet-if : (b : Bool) (es fs : List Expr) → Quiet es → Quiet fs → Quiet (if b then es else fs)
  Quiet-if true es fs p q = p
  Quiet-if false es fs p q = q

  pub nfproto-Quiet : (six : Bool) → Quiet (nfproto six)
  unfolding nfproto jumps_in
  nfproto-Quiet six = refl

  pub ct_state-Quiet : (bits : ℕ) → Quiet (ct_state bits)
  unfolding ct_state jumps_in
  ct_state-Quiet bits = refl

  pub iface_match-Quiet : (key : MetaKey) (name : String) → Quiet (iface_match key name)
  unfolding iface_match jumps_in
  iface_match-Quiet key name = Quiet-if (ends_char b'+' name) _ _ refl refl

  pub l4proto-Quiet : (num : ℕ) → Quiet (l4proto num)
  unfolding l4proto jumps_in
  l4proto-Quiet num = Quiet-if (is_cached num cached_protos) _ _ refl refl

  pub icmp_type-Quiet : (t : ℕ) → Quiet (icmp_type t)
  unfolding icmp_type jumps_in
  icmp_type-Quiet t = refl

  proto_exprs-Quiet : (r : Rule) (proto : String) → Ensures Quiet (proto_exprs r proto)
  unfolding proto_exprs jumps_in
  proto_exprs-Quiet r proto = elim (Bool-cases (proto == "any")) [
    | inl p ↦ rw p refl
    | inr p ↦ elim (Option-cases (proto_num proto)) [
      | inl q ↦ rw (p, q) tt
      | inr (num, q) ↦ rw (p, q) (l4proto-Quiet num)
    ]
  ]

  icmp_exprs-Quiet : (r : Rule) (proto : String) → Ensures Quiet (icmp_exprs r proto)
  unfolding icmp_exprs jumps_in
  icmp_exprs-Quiet r proto = elim (Bool-cases (r.icmp_type == "")) [
    | inl p ↦ rw p refl
    | inr p ↦ elim (Bool-cases (is_icmp proto)) [
      | inr q ↦ rw (p, q) tt
      | inl q ↦ elim (Option-cases (icmp_type_number proto r.icmp_type)) [
        | inl o ↦ rw (p, q, o) tt
        | inr (typ, o) ↦ rw (p, q, o) (icmp_type-Quiet (or_zero (parse_uint 8 typ)))
      ]
    ]
  ]

  addr_payload-Quiet : (which : String) (six : Bool) → jump_in names (addr_payload which six) ≡ true
  unfolding addr_payload
  addr_payload-Quiet which true = refl
  addr_payload-Quiet which false = refl

  given_iface-Quiet : (key : MetaKey) (name : String) → Ensures Quiet (given_iface key name)
  unfolding given_iface jumps_in
  given_iface-Quiet key name = go (name == "") (iface_panics name)
    where
      go :
          (a b : Bool)
          → Ensures Quiet
              (if a then ok [] else if b then err (iface_panic name) else ok (iface_match key name))
      go true b = refl
      go false true = tt
      go false false = iface_match-Quiet key name

  pub both_ifaces-Quiet : (from to : String) → Ensures Quiet (both_ifaces from to)
  unfolding both_ifaces
  both_ifaces-Quiet from to =
      Ensures-bind Quiet Quiet (given_iface key_iifname from) _ (given_iface-Quiet key_iifname from)
        λ i p.
          Ensures-bind Quiet Quiet (given_iface key_oifname to) _ (given_iface-Quiet key_oifname to)
            λ o q. Quiet-append i o p q

  family_match-Quiet :
      (r : Rule) (proto : String) (six : Bool) → Ensures Quiet (family_match r proto six)
  unfolding family_match jumps_in
  family_match-Quiet r proto six =
      go (proto == "icmp" && six) (proto == "icmpv6" && not six)
        (is_icmp proto && not (no_ports r.src.ports && no_ports r.dst.ports))
    where
      go :
          (a b c : Bool)
          → Ensures Quiet (
              if a
              then err (icmp_ipv4_only r.id)
              else if b
              then err (icmp_ipv6_only r.id)
              else if c
              then err (icmp_with_ports r.id)
              else ok (nfproto six))
      go true b c = tt
      go false true c = tt
      go false false true = tt
      go false false false = nfproto-Quiet six

  -- The expressions are quiet, and rules and chains are as before.
  abbrev pub Still : Compiled → List Expr × Compiled → Type 0
  Still c m = Quiet m.0 × Appends [] c m.1

  port_exprs-Still :
      (ports : List PortRange) (which : String) (c : Compiled) → Still c (port_exprs ports which c)
  unfolding port_exprs jumps_in port_payload
  port_exprs-Still [] which c = (refl, Appends-refl c)
  port_exprs-Still (p ∷ []) which c = go (p.lo == p.hi)
    where
      go :
          (b : Bool)
          → Still c (
              if b
              then (port_payload which ∷ cmp_eq (bytes (port_data p.lo)) ∷ [], c)
              else (port_payload which ∷ range (port_data p.lo) (port_data p.hi) ∷ [], c))
      go true = (refl, Appends-refl c)
      go false = (refl, Appends-refl c)
  port_exprs-Still (p ∷ q ∷ ps) which c = (refl, Appends-refl c)

  both_ports-Still : (r : Rule) (proto : String) (c : Compiled) → Still c (both_ports r proto c)
  unfolding both_ports append_port_exprs jumps_in
  both_ports-Still r proto c = elim (Bool-cases (is_port_proto proto)) [
    | inr p ↦ rw p (refl, Appends-refl c)
    | inl p ↦
        let src = port_exprs (keep (applies proto) r.src.ports) "sport" c in
        let (q, a) = port_exprs-Still (keep (applies proto) r.src.ports) "sport" c in
        let (q', a') = port_exprs-Still (keep (applies proto) r.dst.ports) "dport" src.1 in
        let dst = port_exprs (keep (applies proto) r.dst.ports) "dport" src.1 in
        rw p (Quiet-append src.0 dst.0 q q', Appends-trans c src.1 dst.1 [] [] a a')
  ]

  module _ (net : NetText) where
    match_addr-Quiet :
        (which : String) (six : Bool) (a : Addr) (bits : ℕ)
        → Quiet (match_addr net which six a bits)
    unfolding match_addr jumps_in addr_payload
    match_addr-Quiet which true a bits = Quiet-if (bits == 128) _ _ refl refl
    match_addr-Quiet which false a bits = Quiet-if (bits == 32) _ _ refl refl

    pub addr_match-Quiet :
        (which cidr : String) (six : Bool) → Quiet (addr_match net which cidr six)
    unfolding addr_match jumps_in
    addr_match-Quiet which cidr six = elim (Option-cases (parse_addr_or_prefix net cidr)) [
      | inl p ↦ rw (addr_match, p) refl
      | inr ((a, bits), p) ↦
          rw (addr_match, p)
            (Quiet-if (not (zone_of a == "") || is4 (mask_addr bits (without_zone a)) == six)
              fail_closed (match_addr net which six a bits) refl
              (match_addr-Quiet which six a bits))
    ]

    endpoint_addr-Quiet :
        (a : AddrSpec) (which : String) (six : Bool) → Quiet (endpoint_addr net a which six)
    unfolding endpoint_addr jumps_in
    endpoint_addr-Quiet a which six = go (not (a.set == "")) (any a)
      where
        go :
            (b b' : Bool)
            → Quiet (
                if b
                then addr_payload which six
                  ∷ set_lookup (with_family six ("bfw_set_" <> a.set)) 0
                  ∷ []
                else if b'
                then []
                else addr_match net which a.ip six)
        go true b' = rw (addr_payload-Quiet which six) refl
        go false true = refl
        go false false = addr_match-Quiet which a.ip six

    pub rule_match-Still :
        (r : Rule) (proto : String) (six : Bool) (c : Compiled)
        → Ensures (Still c) (rule_match net r proto six c)
    unfolding rule_match
    rule_match-Still r proto six c =
        Ensures-bind Quiet (Still c) (family_match r proto six) _ (family_match-Quiet r proto six)
          λ family f.
            Ensures-bind Quiet (Still c) (both_ifaces r.iface_in r.iface_out) _
              (both_ifaces-Quiet r.iface_in r.iface_out)
              λ ifaces s.
                Ensures-bind Quiet (Still c) (proto_exprs r proto) _ (proto_exprs-Quiet r proto)
                  λ l4 p.
                    Ensures-bind Quiet (Still c) (icmp_exprs r proto) _ (icmp_exprs-Quiet r proto)
                      λ icmp q.
                        let (ports, still) = both_ports-Still r proto c in
                        (
                          Quiet-append _ _
                              (Quiet-append _ _
                                (Quiet-append _ _
                                  (Quiet-append _ _
                                    (Quiet-append _ _ (Quiet-append family ifaces f s) p) q)
                                  (endpoint_addr-Quiet r.src "saddr" six))
                                (endpoint_addr-Quiet r.dst "daddr" six))
                              ports,
                          still,
                        )
