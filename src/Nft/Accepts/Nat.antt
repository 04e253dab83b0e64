-- ===== src/Nft/Accepts/Nat.antt =====
-- internal/backend/nft/compile.go, compileNAT: which NAT rules compile.
use better_firewall.Prelude.{
  ℕ, suc, ◌≡◌, refl, ◌∙◌, ap, Bool, true, false, not, ◌&&◌, ◌||◌, List, [], ◌∷◌, ◌++◌, String,
  Option, none, some, ◌==◌, String-eq, Bool-eq, if◌then◌else◌, Bool-cases, Option-cases, inl, inr,
}
use better_firewall.Prelude.Result.{ok, err, ◌>>=◌}
use better_firewall.Net.{NetText, Addr, is4, unmap}
use better_firewall.Store.{NatRule}
use better_firewall.Rule.Icmp.{parse_uint}
use better_firewall.Nft.Expr.{Expr, Table, nat_table4, nat_table6, masq, immediate, reg_1}
use better_firewall.Nft.Match.{proto_num, zone_of, wire_bytes, number_of}
use better_firewall.Nft.Compiled.{
  Compiled, CompileError, nat_to_dest, nat_to_dest_family, nat_unknown_kind, add_rule_object,
}
use better_firewall.Nft.Nat.{
  is_given, split_to_dest, nat_rule_v6, nat_proto, nat_match, dnat_port, dnat_target,
  compile_nat_rule, compile_nat_rules, compile_nat,
}
use better_firewall.Nft.Ifaces.{both_ifaces}
use better_firewall.Nft.Accepts.{
  is_ok, is_some, is_ok-bind, and_true_right, ifaces_ok, is_ok-both_ifaces,
}

-- The target of a DNAT rule: an address of the rule's family without a zone, and a port if there is one.
abbrev pub address_ok : Bool → Option Addr → Bool
address_ok six none = false
address_ok six (some ip) = zone_of ip == "" && not (is4 (unmap ip) == six)

abbrev pub target_ok : NetText → Bool → String → Bool
target_ok net six to_dest =
    let (host, port) = split_to_dest to_dest in
    address_ok six (net.parse_addr host) && (port == "" || is_some (parse_uint 16 port))

abbrev pub nat_ok : NetText → NatRule → Bool
nat_ok net nr =
    ifaces_ok nr.iface_in nr.iface_out
    && (not (is_given nr.proto) || is_some (proto_num nr.proto))
    && (nr.kind == "masquerade"
        || nr.kind == "dnat" && target_ok net (nat_rule_v6 net nr) nr.to_dest)

unfoldable pub nats_ok : NetText → List NatRule → Bool
nats_ok net [] = true
nats_ok net (nr ∷ nrs) = nat_ok net nr && nats_ok net nrs

is_ok-nat_proto :
    (i : ℕ) (nr : NatRule)
    → is_ok (nat_proto i nr) ≡ (not (is_given nr.proto) || is_some (proto_num nr.proto))
unfolding nat_proto
is_ok-nat_proto i nr = elim (Bool-cases (is_given nr.proto)) [
  | inr p ↦ rw p refl
  | inl p ↦ elim (Option-cases (proto_num nr.proto)) [
    | inl q ↦ rw (p, q) refl
    | inr (num, q) ↦ rw (p, q) refl
  ]
]

is_ok-dnat_port :
    (i : ℕ) (six : Bool) (port : String)
    → is_ok (dnat_port i six port) ≡ (port == "" || is_some (parse_uint 16 port))
unfolding dnat_port
is_ok-dnat_port i six port = elim (Bool-cases (port == "")) [
  | inl p ↦ rw p refl
  | inr p ↦ elim (Option-cases (parse_uint 16 port)) [
    | inl q ↦ rw (p, q) refl
    | inr (n, q) ↦ rw (p, q) refl
  ]
]

module _ (net : NetText) where
  is_ok-target :
      (i : ℕ) (six : Bool) (to_dest : String)
      → is_ok (dnat_target net i six to_dest) ≡ target_ok net six to_dest
  unfolding dnat_target
  is_ok-target i six to_dest = elim (Option-cases (net.parse_addr (split_to_dest to_dest).0)) [
    | inl p ↦ rw (dnat_target, p) refl
    | inr (ip, p) ↦ rw (dnat_target, p) (go (zone_of ip == "") (is4 (unmap ip) == six) ip)
  ]
    where
      port : String
      port = (split_to_dest to_dest).1

      go :
          (a b : Bool) (ip : Addr)
          → is_ok (
              if not a
              then err (nat_to_dest i to_dest)
              else if b
              then err (nat_to_dest_family i)
              else (dnat_port i six port >>= λ rest. ok (
                  immediate reg_1 (wire_bytes (if six then 16 else 4) (number_of (unmap ip)))
                  ∷ rest)))
            ≡ (a && not b && (port == "" || is_some (parse_uint 16 port)))
      go false b ip = refl
      go true true ip = refl
      go true false ip =
          is_ok-bind (dnat_port i six port) _ true (λ rest. refl)
          ∙ and_true_right _
          ∙ is_ok-dnat_port i six port

  is_ok-nat_match :
      (i : ℕ) (nr : NatRule) (six : Bool)
      → is_ok (nat_match net i nr six) ≡ (
          ifaces_ok nr.iface_in nr.iface_out
          && (not (is_given nr.proto) || is_some (proto_num nr.proto)))
  unfolding nat_match
  is_ok-nat_match i nr six =
      let proto = not (is_given nr.proto) || is_some (proto_num nr.proto) in
      is_ok-bind (both_ifaces nr.iface_in nr.iface_out) _ proto (λ ifaces.
        is_ok-bind (nat_proto i nr) _ true (λ l4. refl) ∙ and_true_right _ ∙ is_ok-nat_proto i nr)
      ∙ ap (λ b. b && proto) (is_ok-both_ifaces nr.iface_in nr.iface_out)

  is_ok-nat_rule :
      (i : ℕ) (nr : NatRule) (c : Compiled) → is_ok (compile_nat_rule net i nr c) ≡ nat_ok net nr
  unfolding compile_nat_rule
  is_ok-nat_rule i nr c =
      is_ok-bind (nat_match net i nr (nat_rule_v6 net nr)) _
        (nr.kind == "masquerade"
          || nr.kind == "dnat" && target_ok net (nat_rule_v6 net nr) nr.to_dest)
        (λ match.
          go (nr.kind == "masquerade") (nr.kind == "dnat")
            (if nat_rule_v6 net nr then nat_table6 else nat_table4) match)
      ∙ ap
          (λ b.
            b
            && (nr.kind == "masquerade"
                || nr.kind == "dnat" && target_ok net (nat_rule_v6 net nr) nr.to_dest))
          (is_ok-nat_match i nr (nat_rule_v6 net nr))
    where
      go :
          (a b : Bool) (t : Table) (match : List Expr)
          → is_ok {E = CompileError} (
              if a
              then ok (add_rule_object t "postrouting" (match ++ (masq ∷ [])) c)
              else if b
              then (dnat_target net i (nat_rule_v6 net nr) nr.to_dest >>= λ target.
                  ok (add_rule_object t "prerouting" (match ++ target) c))
              else err (nat_unknown_kind i nr.kind))
            ≡ (a || b && target_ok net (nat_rule_v6 net nr) nr.to_dest)
      go true b t match = refl
      go false true t match =
          is_ok-bind (dnat_target net i (nat_rule_v6 net nr) nr.to_dest) _ true (λ target. refl)
          ∙ and_true_right _
          ∙ is_ok-target i (nat_rule_v6 net nr) nr.to_dest
      go false false t match = refl

  is_ok-nat_rules :
      (i : ℕ) (nrs : List NatRule) (c : Compiled)
      → is_ok (compile_nat_rules net i nrs c) ≡ nats_ok net nrs
  unfolding compile_nat_rules nats_ok
  is_ok-nat_rules i [] c = refl
  is_ok-nat_rules i (nr ∷ nrs) c =
      is_ok-bind (compile_nat_rule net i nr c) (λ d. compile_nat_rules net (suc i) nrs d)
        (nats_ok net nrs) (is_ok-nat_rules (suc i) nrs)
      ∙ ap (λ b. b && nats_ok net nrs) (is_ok-nat_rule i nr c)

  pub is_ok-nat :
      (nrs : List NatRule) (c : Compiled) → is_ok (compile_nat net nrs c) ≡ nats_ok net nrs
  unfolding compile_nat nats_ok
  is_ok-nat [] c = refl
  is_ok-nat (nr ∷ nrs) c = is_ok-nat_rules 0 (nr ∷ nrs) _
