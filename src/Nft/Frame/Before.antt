-- ===== src/Nft/Frame/Before.antt =====
-- internal/backend/nft/compile.go, compileBefore: its rules, and with them all fixed rules, jump to
-- chains that exist.
use better_firewall.Prelude.{
  ℕ, ◌≡◌, refl, Bool, true, false, List, [], ◌∷◌, ◌++◌, String, Option, none, some, ◌==◌, String-eq,
  map,
}
use better_firewall.Net.{NetText}
use better_firewall.Store.{Policies}
use better_firewall.Nft.Expr.{Expr, counter, verdict, jump_to, drop_packet, back}
use better_firewall.Nft.Match.{
  nfproto, l4proto, icmp_type, hop_limit, fib_addr_type, addr_match, is_cached, port_eq,
  port_payload, limit3,
}
use better_firewall.Nft.Compiled.{Compiled, is_named}
use better_firewall.Nft.Fixed.{
  directions, threat_ban_rules, accepted, jumping, Icmpv6BeforeRule, before_icmpv6_rules,
  before_icmpv6_output_rules, before_icmpv6_forward_rules,
}
use better_firewall.Nft.Fixed.Before.{
  emit6, before_icmp6, before_services, before_rules, hop_match, icmp6, udp_input,
}
use better_firewall.Nft.Compile.{fixed_rules}
use better_firewall.Nft.Frame.{jumps_in, all_within, all_within-cons}
use better_firewall.Nft.Frame.Match.{
  Quiet, Quiet-append, Quiet-if, addr_match-Quiet, l4proto-Quiet, icmp_type-Quiet, nfproto-Quiet,
}
use better_firewall.Nft.Frame.Chains.{known_chains}
use better_firewall.Nft.Frame.Fixed.{
  Known, Known-nil, Known-append, before_start-Known, before_state-Known, before_icmp4-Known,
  after_rules-Known, ban_rule-Known, policy_rules-Known, user_limit_rules-Known,
  directions-HasChains, logging_chains-Known,
}

hop_match-Quiet : (hl : Option ℕ) → Quiet known_chains (hop_match hl)
unfolding jumps_in hop_limit
hop_match-Quiet none = refl
hop_match-Quiet (some hl) = refl

accepted-Quiet :
    (match : List Expr) → Quiet known_chains match → Quiet known_chains (accepted match)
unfolding jumps_in
accepted-Quiet match q = Quiet-append known_chains match _ q refl

port_eq-Quiet : (which : String) (p : ℕ) → Quiet known_chains (port_eq which p)
unfolding port_eq jumps_in port_payload
port_eq-Quiet which p = refl

agent_types-Known : Known (map (λ t. ("bfw-before-input", icmp6 t)) (144 ∷ 145 ∷ 146 ∷ 147 ∷ []))
unfolding all_within jumps_in is_named nfproto l4proto icmp_type is_cached
agent_types-Known = refl

not_local-Known : Known (
    ("bfw-before-input", jumping "bfw-not-local" (nfproto false))
    ∷ ("bfw-not-local", fib_addr_type 2 ++ (counter ∷ verdict back ∷ []))
    ∷ ("bfw-not-local", fib_addr_type 5 ++ (counter ∷ verdict back ∷ []))
    ∷ ("bfw-not-local", fib_addr_type 3 ++ (counter ∷ verdict back ∷ []))
    ∷ ("bfw-not-local", limit3 ∷ counter ∷ verdict (jump_to "bfw-logging-deny") ∷ [])
    ∷ ("bfw-not-local", counter ∷ verdict drop_packet ∷ [])
    ∷ [])
unfolding all_within jumps_in is_named nfproto fib_addr_type
not_local-Known = refl

forward_named : is_named "bfw-before-forward" known_chains ≡ true
unfolding is_named
forward_named = refl

nil-Quiet : Quiet known_chains []
unfolding jumps_in
nil-Quiet = refl

input_named : is_named "bfw-before-input" known_chains ≡ true
unfolding is_named
input_named = refl

egress-Known :
    Known (("bfw-before-output", counter ∷ verdict (jump_to "bfw-user-egress") ∷ []) ∷ [])
unfolding all_within jumps_in is_named
egress-Known = refl

module _ (net : NetText) where
  emit6-Known :
      (ch : String) (rs : List Icmpv6BeforeRule)
      → is_named ch known_chains ≡ true
      → Known (emit6 net ch rs)
  unfolding emit6
  emit6-Known ch [] h = Known-nil
  emit6-Known ch (r ∷ rs) h =
      let from = addr_match-Quiet known_chains net "saddr" r.src_cidr true in
      let typed =
        Quiet-append known_chains (nfproto true ++ l4proto 58) _
          (Quiet-append known_chains (nfproto true) _ (nfproto-Quiet known_chains true)
            (l4proto-Quiet known_chains 58))
          (icmp_type-Quiet known_chains r.typ) in
      all_within-cons known_chains known_chains ch _ _ h
        (accepted-Quiet _ (
          Quiet-append known_chains _ _
            (Quiet-append known_chains (nfproto true ++ l4proto 58 ++ icmp_type r.typ) _ typed
              (Quiet-if known_chains (r.src_cidr == "") [] _ nil-Quiet from))
            (hop_match-Quiet r.hl)))
        (emit6-Known ch rs h)

  before_icmp6-Known : Known (before_icmp6 net)
  unfolding before_icmp6 is_named
  before_icmp6-Known =
      Known-append _ _
        (Known-append _ _
          (Known-append _ _ (emit6-Known "bfw-before-input" before_icmpv6_rules refl)
            (emit6-Known "bfw-before-output" before_icmpv6_output_rules refl))
          (emit6-Known "bfw-before-forward" before_icmpv6_forward_rules refl))
        agent_types-Known

  -- One service, in front of the rest.
  service-Known :
      (six : Bool) (match : List Expr) (rules : List (String × List Expr))
      → Quiet known_chains match
      → Known rules
      → Known (udp_input net six match ∷ rules)
  service-Known six match rules q h =
      all_within-cons known_chains known_chains "bfw-before-input" _ rules input_named
        (accepted-Quiet _ (
          Quiet-append known_chains (nfproto six ++ l4proto 17) match
            (Quiet-append known_chains (nfproto six) _ (nfproto-Quiet known_chains six)
              (l4proto-Quiet known_chains 17))
            q))
        h

  -- An address and a port.
  addr_port-Quiet :
      (which cidr : String) (six : Bool) (side : String) (p : ℕ)
      → Quiet known_chains (addr_match net which cidr six ++ port_eq side p)
  addr_port-Quiet which cidr six side p =
      Quiet-append known_chains (addr_match net which cidr six) (port_eq side p)
        (addr_match-Quiet known_chains net which cidr six) (port_eq-Quiet side p)

  before_services-Known : Known (before_services net)
  unfolding before_services
  before_services-Known =
      service-Known false _ _
        (Quiet-append known_chains (port_eq "sport" 67) _ (port_eq-Quiet "sport" 67)
          (port_eq-Quiet "dport" 68))
        (service-Known true _ _
          (Quiet-append known_chains _ (port_eq "dport" 546)
            (Quiet-append known_chains
              (addr_match net "saddr" "fe80::/10" true ++ port_eq "sport" 547)
              (addr_match net "daddr" "fe80::/10" true)
              (addr_port-Quiet "saddr" "fe80::/10" true "sport" 547)
              (addr_match-Quiet known_chains net "daddr" "fe80::/10" true))
            (port_eq-Quiet "dport" 546))
          (Known-append _ _ not_local-Known (
            service-Known false _ _ (addr_port-Quiet "daddr" "224.0.0.251" false "dport" 5353) (
              service-Known true _ _ (addr_port-Quiet "daddr" "ff02::fb" true "dport" 5353) (
                service-Known false _ _
                  (addr_port-Quiet "daddr" "239.255.255.250" false "dport" 1900)
                  (service-Known true _ _ (addr_port-Quiet "daddr" "ff02::f" true "dport" 1900)
                    Known-nil))))))

  pub fixed_rules-Known :
      (pol : Policies) (level : String) (c : Compiled) → Known (fixed_rules net pol level c)
  unfolding fixed_rules before_rules
  fixed_rules-Known pol level c =
      Known-append _ _
        (Known-append _ _
          (Known-append _ _
            (Known-append _ _
              (Known-append _ _
                (Known-append _ _
                  (Known-append _ _
                    (Known-append _ _
                      (Known-append _ _
                        (Known-append _ _
                          (Known-append _ _ before_start-Known
                            (bans "bfw-before-input" input_named))
                          (bans "bfw-before-forward" forward_named))
                        before_state-Known)
                      before_icmp4-Known)
                    before_icmp6-Known)
                  before_services-Known)
                after_rules-Known)
              egress-Known)
            (policy_rules-Known pol directions directions-HasChains))
          (user_limit_rules-Known level))
        (logging_chains-Known level pol)
    where
      bans :
          (ch : String)
          → is_named ch known_chains ≡ true
          → Known (threat_ban_rules ch c.threat_bans4 c.threat_bans6)
      bans ch h =
          Known-append _ _ (ban_rule-Known ch false c.threat_bans4 h)
            (ban_rule-Known ch true c.threat_bans6 h)
