-- ===== src/Nft/Frame/Nat.antt =====
-- internal/backend/nft/compile.go, compileNAT: its rules stand in the two base chains of their table.
use mathlib.Core.List.{append-nil, append_assoc}
use better_firewall.Prelude.{
  ℕ, suc, ◌≡◌, refl, sym, ◌∙◌, ap, Bool, true, false, not, List, [], ◌∷◌, ◌++◌, String, ◌==◌,
  String-eq, ℕ-eq, Bool-eq, if◌then◌else◌, Bool-cases, inl, inr, All, All-append, Option-cases, ◌⊎◌,
}
use better_firewall.Prelude.Result.{ok, err, ◌>>=◌, Ensures, Ensures-bind, Ensures-map}
use better_firewall.Net.{Addr, NetText, is4, unmap}
use better_firewall.Store.{NatRule}
use better_firewall.Rule.Icmp.{parse_uint}
use better_firewall.Nft.Expr.{
  Expr, Chain, nat_table4, nat_table6, NftRule, counter, masq, immediate, reg_1,
}
use better_firewall.Nft.Match.{proto_num, port_eq, port_payload, zone_of, wire_bytes, number_of}
use better_firewall.Nft.Compiled.{
  Compiled, CompileError, is_named, add_rule_object, nat_to_dest, nat_to_dest_family,
  nat_unknown_kind,
}
use better_firewall.Nft.Ifaces.{both_ifaces}
use better_firewall.Nft.Nat.{
  is_given, nat_proto, nat_rule_v6, nat_match, dnat_port, dnat_target, split_to_dest,
  compile_nat_rule, compile_nat_rules, compile_nat, nat_chains,
}
use better_firewall.Nft.Frame.{jumps_in}
use better_firewall.Nft.Frame.Match.{
  Quiet, Quiet-append, Quiet-if, both_ifaces-Quiet, l4proto-Quiet, addr_match-Quiet,
}

abbrev pub nat_names : List String
nat_names = "prerouting" ∷ "postrouting" ∷ []

-- A rule of a NAT table, in one of its chains, without a jump.
abbrev pub IsNat : NftRule → Type 0
IsNat r =
    ((r.table ≡ nat_table4) ⊎ (r.table ≡ nat_table6))
    × (is_named r.chain nat_names ≡ true)
    × Quiet nat_names r.exprs

-- Rules of the NAT tables are added, and nothing else.
abbrev pub AddsNat : Compiled → Compiled → Type 0
AddsNat c d =
    (rules : List NftRule) × All IsNat rules × (d.rules ≡ c.rules ++ rules) × (d.chains ≡ c.chains)

AddsNat-refl : (c : Compiled) → AddsNat c c
AddsNat-refl c = ([], tt, sym (append-nil c.rules), refl)

AddsNat-trans : (c d e : Compiled) → AddsNat c d → AddsNat d e → AddsNat c e
AddsNat-trans c d e (rs, a, p, q) (rs', a', p', q') = (
  rs ++ rs',
  All-append IsNat rs rs' a a',
  p' ∙ ap (λ l. l ++ rs') p ∙ append_assoc c.rules rs rs',
  q' ∙ q,
)

port_eq-Quiet : (which : String) (p : ℕ) → Quiet nat_names (port_eq which p)
unfolding port_eq jumps_in port_payload
port_eq-Quiet which p = refl

nil-Quiet : Quiet nat_names []
unfolding jumps_in
nil-Quiet = refl

dnat_port-Quiet :
    (i : ℕ) (six : Bool) (port : String) → Ensures (Quiet nat_names) (dnat_port i six port)
unfolding dnat_port jumps_in
dnat_port-Quiet i six port = elim (Bool-cases (port == "")) [
  | inl p ↦ rw p refl
  | inr p ↦ elim (Option-cases (parse_uint 16 port)) [
    | inl q ↦ rw (p, q) tt
    | inr (n, q) ↦ rw (p, q) refl
  ]
]

nat_proto-Quiet : (i : ℕ) (nr : NatRule) → Ensures (Quiet nat_names) (nat_proto i nr)
unfolding nat_proto
nat_proto-Quiet i nr = elim (Bool-cases (is_given nr.proto)) [
  | inr p ↦ rw p nil-Quiet
  | inl p ↦ elim (Option-cases (proto_num nr.proto)) [
    | inl q ↦ rw (p, q) tt
    | inr (num, q) ↦ rw (p, q) (l4proto-Quiet nat_names num)
  ]
]

pre_named : is_named "prerouting" nat_names ≡ true
unfolding is_named
pre_named = refl

post_named : is_named "postrouting" nat_names ≡ true
unfolding is_named
post_named = refl

-- The expressions behind a match: loads, the translation, and the counter.
counter-Quiet : Quiet nat_names (counter ∷ [])
unfolding jumps_in
counter-Quiet = refl

masq-Quiet : Quiet nat_names (masq ∷ [])
unfolding jumps_in
masq-Quiet = refl

load-Quiet :
    (bs : List ℕ) (rest : List Expr)
    → Quiet nat_names rest
    → Quiet nat_names (immediate reg_1 bs ∷ rest)
unfolding jumps_in
load-Quiet bs rest q = q

module _ (net : NetText) where
  nat_match-Quiet :
      (i : ℕ) (nr : NatRule) (six : Bool) → Ensures (Quiet nat_names) (nat_match net i nr six)
  unfolding nat_match
  nat_match-Quiet i nr six =
      Ensures-bind (Quiet nat_names) (Quiet nat_names) (both_ifaces nr.iface_in nr.iface_out) _
        (both_ifaces-Quiet nat_names nr.iface_in nr.iface_out)
        λ ifaces p.
          Ensures-bind (Quiet nat_names) (Quiet nat_names) (nat_proto i nr) _ (nat_proto-Quiet i nr)
            λ l4 q.
              Quiet-append nat_names _ _
                (Quiet-append nat_names _ _
                  (Quiet-append nat_names _ _
                    (Quiet-append nat_names _ _ (Quiet-append nat_names ifaces l4 p q) (
                      Quiet-if nat_names (is_given nr.src) _ []
                        (addr_match-Quiet nat_names net "saddr" nr.src six) nil-Quiet))
                    (Quiet-if nat_names (is_given nr.dst) _ []
                      (addr_match-Quiet nat_names net "daddr" nr.dst six) nil-Quiet))
                  (Quiet-if nat_names (nr.dport == 0) [] _ nil-Quiet
                    (port_eq-Quiet "dport" nr.dport)))
                counter-Quiet

  dnat_target-Quiet :
      (i : ℕ) (six : Bool) (to_dest : String)
      → Ensures (Quiet nat_names) (dnat_target net i six to_dest)
  unfolding dnat_target
  dnat_target-Quiet i six to_dest = elim (Option-cases (net.parse_addr (split_to_dest to_dest).0)) [
    | inl p ↦ rw (dnat_target, p) tt
    | inr (ip, p) ↦ rw (dnat_target, p) (go (not (zone_of ip == "")) (is4 (unmap ip) == six) ip)
  ]
    where
      go :
          (a b : Bool) (ip : Addr)
          → Ensures (Quiet nat_names) (
              if a
              then err (nat_to_dest i to_dest)
              else if b
              then err (nat_to_dest_family i)
              else (dnat_port i six (split_to_dest to_dest).1 >>= λ rest. ok (
                  immediate reg_1 (wire_bytes (if six then 16 else 4) (number_of (unmap ip)))
                  ∷ rest)))
      go true b ip = tt
      go false true ip = tt
      go false false ip =
          Ensures-bind (Quiet nat_names) (Quiet nat_names) _ _
            (dnat_port-Quiet i six (split_to_dest to_dest).1) λ rest q. load-Quiet _ rest q

  -- One rule more, of a NAT chain.
  add-AddsNat :
      (six : Bool) (name : String) (exprs : List Expr) (c : Compiled)
      → is_named name nat_names ≡ true
      → Quiet nat_names exprs
      → AddsNat c (add_rule_object (if six then nat_table6 else nat_table4) name exprs c)
  add-AddsNat true name exprs c h q = (_ ∷ [], ((inr refl, h, q), tt), refl, refl)
  add-AddsNat false name exprs c h q = (_ ∷ [], ((inl refl, h, q), tt), refl, refl)

  compile_nat_rule-AddsNat :
      (i : ℕ) (nr : NatRule) (c : Compiled) → Ensures (AddsNat c) (compile_nat_rule net i nr c)
  unfolding compile_nat_rule
  compile_nat_rule-AddsNat i nr c =
      let six = nat_rule_v6 net nr in
      Ensures-bind (Quiet nat_names) (AddsNat c) (nat_match net i nr six) _
        (nat_match-Quiet i nr six)
        λ match q. go six (nr.kind == "masquerade") (nr.kind == "dnat") match q
    where
      go :
          (six a b : Bool) (match : List Expr)
          → Quiet nat_names match
          → Ensures {E = CompileError} (AddsNat c) (
              if a
              then ok (
                  add_rule_object
                    (if six then nat_table6 else nat_table4)
                    "postrouting"
                    (match ++ (masq ∷ []))
                    c)
              else if b
              then (dnat_target net i six nr.to_dest >>= λ target. ok (
                  add_rule_object
                    (if six then nat_table6 else nat_table4)
                    "prerouting"
                    (match ++ target)
                    c))
              else err (nat_unknown_kind i nr.kind))
      go six true b match q =
          add-AddsNat six "postrouting" _ c post_named (Quiet-append nat_names match _ q masq-Quiet)
      go six false true match q =
          Ensures-bind (Quiet nat_names) (AddsNat c) _ _ (dnat_target-Quiet i six nr.to_dest)
            λ target t.
              add-AddsNat six "prerouting" _ c pre_named (Quiet-append nat_names match target q t)
      go six false false match q = tt

  compile_nat_rules-AddsNat :
      (i : ℕ) (nrs : List NatRule) (c : Compiled)
      → Ensures (AddsNat c) (compile_nat_rules net i nrs c)
  unfolding compile_nat_rules
  compile_nat_rules-AddsNat i [] c = AddsNat-refl c
  compile_nat_rules-AddsNat i (nr ∷ nrs) c =
      Ensures-bind (AddsNat c) (AddsNat c) (compile_nat_rule net i nr c) _
        (compile_nat_rule-AddsNat i nr c)
        λ d a.
          Ensures-map (AddsNat d) (AddsNat c) _ (λ e b. AddsNat-trans c d e a b)
            (compile_nat_rules-AddsNat (suc i) nrs d)

-- The chains of the NAT tables, if there is a NAT rule.
abbrev pub nat_part : List NatRule → List Chain
nat_part [] = []
nat_part (nr ∷ nrs) = nat_chains nat_table4 ++ nat_chains nat_table6

-- The rules and chains of the NAT tables are added, if there is a NAT rule.
abbrev pub EndsNat : List NatRule → Compiled → Compiled → Type 0
EndsNat [] c d = d ≡ c
EndsNat (nr ∷ nrs) c d =
    (rules : List NftRule) × All IsNat rules
    × (d.rules ≡ c.rules ++ rules)
    × (d.chains ≡ c.chains ++ nat_part (nr ∷ nrs))

pub compile_nat-EndsNat :
    (net : NetText) (nrs : List NatRule) (c : Compiled)
    → Ensures (EndsNat nrs c) (compile_nat net nrs c)
unfolding compile_nat
compile_nat-EndsNat net [] c = refl
compile_nat-EndsNat net (nr ∷ nrs) c =
    let d = record c {
      nat_tables = nat_table4 ∷ nat_table6 ∷ [];
      chains = c.chains ++ nat_chains nat_table4 ++ nat_chains nat_table6;
    } in
    Ensures-map (AddsNat d) (EndsNat (nr ∷ nrs) c) _
      (λ e (rs, a, p, q).
        (rs, a, p, q ∙ append_assoc c.chains (nat_chains nat_table4) (nat_chains nat_table6)))
      (compile_nat_rules-AddsNat net 0 (nr ∷ nrs) d)
