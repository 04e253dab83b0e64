-- ===== src/Check/Shadows.antt =====
-- internal/cli/commands_ext.go, ruleSuperset: a rule that is taken to cover another is for all of the
-- other's packets.
use better_firewall.Prelude.{
  ℕ, subst, ◌≡◌, refl, sym, ◌⊎◌, Bool, true, false, not, ◌&&◌, ◌||◌, List, [], ◌∷◌, String, Option,
  none, some, leb, ◌==◌, String-eq, Bool-eq, if◌then◌else◌, arith, Bool-cases, inl, inr, and_true,
  and_intro,
}
use better_firewall.Rule.{Rule, PortRange, AddrSpec, any}
use better_firewall.Net.{NetText, Addr, Prefix, contains}
use better_firewall.Check.{
  prefix_contains, port_proto_covers, port_covered, ports_covered, to_prefix, address_covered,
  addr_superset, rule_superset, no_ports,
}
use better_firewall.Check.Prefixes.{guard_lem, prefix_contains_lem}
use better_firewall.Check.Packets.{
  Packet, World, for_proto, port_in, port_in_some, port_matches, iface_matches, address_in,
  addr_matches, matches,
}

-- A field of `b` that is not for any is the same as that of `a`.
field_lem :
    (P : String → Bool) (a b : String) (narrow : Bool)
    → (narrow && not (b == a)) ≡ false
    → P a ≡ true
    → (narrow ≡ false → P b ≡ true)
    → P b ≡ true
field_lem P a b narrow h p k = elim (Bool-cases (b == a)) [
  | inl e ↦ subst (λ s. P s ≡ true) (sym ((String-eq.same_iff b a).0 e)) p
  | inr e ↦ k (open_lem narrow (b == a) h e)
]
  where
    open_lem : (x y : Bool) → (x && not y) ≡ false → y ≡ false → x ≡ false
    open_lem x y h e = ground arith

open_one : (x y : Bool) → not x ≡ false → (x || y) ≡ true
open_one x y h = ground arith

open_two : (x y z : Bool) → (not x && not y) ≡ false → (x || y || z) ≡ true
open_two x y z h = ground arith

iface_lem :
    (w : World) (a b name : String)
    → (not (b == "") && not (b == a)) ≡ false
    → iface_matches w a name ≡ true
    → iface_matches w b name ≡ true
iface_lem w a b name h p =
    field_lem (λ s. iface_matches w s name) a b (not (b == "")) h p
      λ n. open_one (b == "") (w.named b name) n

proto_lem :
    (a b p : String)
    → (not (b == "") && not (b == "any") && not (b == a)) ≡ false
    → for_proto a p ≡ true
    → for_proto b p ≡ true
proto_lem a b p h q =
    field_lem (λ s. for_proto s p) a b (not (b == "") && not (b == "any")) h q
      λ n. open_two (b == "") (b == "any") (b == p) n

icmp_lem :
    (a b p : String)
    → (not (b == "") && not (b == a)) ≡ false
    → (a == "" || a == p) ≡ true
    → (b == "" || b == p) ≡ true
icmp_lem a b p h q =
    field_lem (λ s. s == "" || s == p) a b (not (b == "")) h q λ n. open_one (b == "") (b == p) n

covers_lem :
    (e g x : Bool) → (if e then true else if g then x else false) ≡ true → e ≡ false → g ≡ true
covers_lem e g x h k = ground arith

swap_lem : (x y z : Bool) → (y || x) ≡ true → (x || y || z) ≡ true
swap_lem x y z h = ground arith

for_proto-covers :
    (a b p : String) → port_proto_covers a b ≡ true → for_proto a p ≡ true → for_proto b p ≡ true
unfolding port_proto_covers
for_proto-covers a b p h q = elim (Bool-cases (a == b)) [
  | inl e ↦ subst (λ s. for_proto s p ≡ true) ((String-eq.same_iff a b).0 e) q
  | inr e ↦ swap_lem (b == "") (b == "any") (b == p) (covers_lem (a == b) _ _ h e)
]

port_in_lem :
    (proto : String) (x : ℕ) (a b : PortRange)
    → (port_proto_covers a.proto b.proto && leb b.lo a.lo && leb a.hi b.hi) ≡ true
    → port_in proto x a ≡ true
    → port_in proto x b ≡ true
unfolding port_in
port_in_lem proto x a b h p =
    let (cl, u) = and_true (port_proto_covers a.proto b.proto && leb b.lo a.lo) (leb a.hi b.hi) h in
    let (c, l) = and_true (port_proto_covers a.proto b.proto) (leb b.lo a.lo) cl in
    let (pl, pu) = and_true (for_proto a.proto proto && leb a.lo x) (leb x a.hi) p in
    let (pp, pl) = and_true (for_proto a.proto proto) (leb a.lo x) pl in
    and_intro (for_proto b.proto proto && leb b.lo x) (leb x b.hi)
      (and_intro (for_proto b.proto proto) (leb b.lo x)
        (for_proto-covers a.proto b.proto proto c pp) (ground (arith, l, pl)))
      (ground (arith, u, pu))

or_left : (x y : Bool) → x ≡ true → (x || y) ≡ true
or_left x y h = ground arith

or_cases : (x y : Bool) → (x || y) ≡ true → (x ≡ true) ⊎ (y ≡ true)
or_cases true y h = inl refl
or_cases false y h = inr h

or_right : (x y : Bool) → y ≡ true → (x || y) ≡ true
or_right x y h = ground arith

port_covered_lem :
    (proto : String) (x : ℕ) (a : PortRange) (bs : List PortRange)
    → port_covered a bs ≡ true
    → port_in proto x a ≡ true
    → port_in_some proto x bs ≡ true
unfolding port_covered port_in_some
port_covered_lem proto x a [] h p = h
port_covered_lem proto x a (b ∷ bs) h p =
    elim (or_cases (port_proto_covers a.proto b.proto && leb b.lo a.lo && leb a.hi b.hi)
      (port_covered a bs) h) [
        | inl c ↦
            or_left (port_in proto x b) (port_in_some proto x bs) (port_in_lem proto x a b c p)
        | inr c ↦
            or_right (port_in proto x b) (port_in_some proto x bs)
              (port_covered_lem proto x a bs c p)
      ]

of_negation : (b : Bool) → not b ≡ false → b ≡ true
of_negation b h = ground arith

ports_covered_lem :
    (proto : String) (x : ℕ) (as' bs : List PortRange)
    → ports_covered as' bs ≡ true
    → port_in_some proto x as' ≡ true
    → port_in_some proto x bs ≡ true
unfolding ports_covered port_in_some
ports_covered_lem proto x [] bs h p = cc
ports_covered_lem proto x (a ∷ as') bs h p =
    let (c, k) = guard_lem (not (port_covered a bs)) (ports_covered as' bs) h in
    elim (or_cases (port_in proto x a) (port_in_some proto x as') p) [
      | inl q ↦ port_covered_lem proto x a bs (of_negation (port_covered a bs) c) q
      | inr q ↦ ports_covered_lem proto x as' bs k q
    ]

-- The two tests for an empty list, and the loops.
port_matches_lem :
    (proto : String) (x : ℕ) (as' bs : List PortRange)
    → (if no_ports bs then true else if no_ports as' then false else ports_covered as' bs) ≡ true
    → port_matches proto x as' ≡ true
    → port_matches proto x bs ≡ true
port_matches_lem proto x as' [] h p = refl
port_matches_lem proto x [] (b ∷ bs) h p = cc
port_matches_lem proto x (a ∷ as') (b ∷ bs) h p = ports_covered_lem proto x (a ∷ as') (b ∷ bs) h p

plain_bool :
    (x y c p q : Bool)
    → (not x && (y || not c)) ≡ false
    → (y || p) ≡ true
    → (c ≡ true → p ≡ true → q ≡ true)
    → (x || q) ≡ true
plain_bool true y c p q h k f = refl
plain_bool false true c p q h k f = cc
plain_bool false false false p q h k f = cc
plain_bool false false true p q h k f = f refl k

no_ports_lem :
    (proto : String) (x : ℕ) (ps : List PortRange)
    → no_ports ps ≡ true
    → port_matches proto x ps ≡ true
no_ports_lem proto x [] h = refl
no_ports_lem proto x (p ∷ ps) h = cc

same_false : (u : Bool) → (u && u) ≡ false → u ≡ false
same_false u h = ground arith

open_port : (u v : Bool) → (u || v) ≡ true → u ≡ false → v ≡ true
open_port u v h k = ground arith

-- What the test for sets leaves, in three cases.
both_plain :
    (u v s r : Bool) → (if not u || not v then s else r) ≡ true → u ≡ true → v ≡ true → r ≡ true
both_plain u v s r h p q = ground arith

one_set : (u v s r : Bool) → (if not u || not v then s else r) ≡ true → (u && v) ≡ false → s ≡ true
one_set u v s r h p = ground arith

if_true : (u x y : Bool) → u ≡ true → (if u then x else y) ≡ true → x ≡ true
if_true u x y h k = ground arith

if_false : (u x y : Bool) → u ≡ false → (if u then x else y) ≡ true → y ≡ true
if_false u x y h k = ground arith

true_if : (u x y : Bool) → u ≡ true → x ≡ true → (if u then x else y) ≡ true
true_if u x y h k = ground arith

false_if : (u x y : Bool) → u ≡ false → y ≡ true → (if u then x else y) ≡ true
false_if u x y h k = ground arith

module _ (net : NetText) (w : World) where
  address_covered_lem :
      (a b : String) (ip : Addr)
      → address_covered net a b ≡ true
      → address_in net w a ip ≡ true
      → address_in net w b ip ≡ true
  unfolding address_covered address_in
  address_covered_lem a b ip h p = go (to_prefix net a) (to_prefix net b) h p
    where
      go :
          (o q : Option Prefix)
          → elim o [
            | none ↦ false
            | some pa ↦ elim q [ none ↦ false | some pb ↦ prefix_contains pa pb ]
          ]
            ≡ true
          → elim o [ none ↦ false | some pa ↦ contains pa ip ] ≡ true
          → elim q [ none ↦ false | some pb ↦ contains pb ip ] ≡ true
      go none q h p = cc
      go (some pa) none h p = h
      go (some pa) (some pb) h p = prefix_contains_lem pa pb ip h p

  -- What is left of `addrSuperset` where no set is named.
  plain_lem :
      (a b : AddrSpec) (ip : Addr)
      → (not (any b) && (any a || not (address_covered net a.ip b.ip))) ≡ false
      → (any a || address_in net w a.ip ip) ≡ true
      → (any b || address_in net w b.ip ip) ≡ true
  plain_lem a b ip h p =
      plain_bool (any b) (any a) (address_covered net a.ip b.ip) (address_in net w a.ip ip)
        (address_in net w b.ip ip) h p (address_covered_lem a.ip b.ip ip)

  -- Two endpoints of one set.
  set_lem :
      (a b : AddrSpec) (ip : Addr) (proto : String) (x : ℕ)
      → (b.set == "" || no_ports b.ports) ≡ true
      → a.set ≡ b.set
      → (b.set == "" && a.set == "") ≡ false
      → addr_matches net w a ip ≡ true
      → (addr_matches net w b ip && port_matches proto x b.ports) ≡ true
  unfolding addr_matches
  set_lem a b ip proto x n q e m =
      let eb = same_false (b.set == "") (subst (λ s. (b.set == "" && s == "") ≡ false) q e) in
      let ea = subst (λ s. (s == "") ≡ false) (sym q) eb in
      let ma =
        if_false (a.set == "") (any a || address_in net w a.ip ip) (w.members a.set ip) ea m in
      and_intro (addr_matches net w b ip) (port_matches proto x b.ports)
        (false_if (b.set == "") (any b || address_in net w b.ip ip) (w.members b.set ip) eb
          (subst (λ s. w.members s ip ≡ true) q ma))
        (no_ports_lem proto x b.ports (open_port (b.set == "") (no_ports b.ports) n eb))

  -- An endpoint, whose address and port match, is covered; where it names a set, it has no ports.
  addr_superset_lem :
      (a b : AddrSpec) (ip : Addr) (proto : String) (x : ℕ)
      → (b.set == "" || no_ports b.ports) ≡ true
      → addr_superset net a b ≡ true
      → (addr_matches net w a ip && port_matches proto x a.ports) ≡ true
      → (addr_matches net w b ip && port_matches proto x b.ports) ≡ true
  unfolding addr_superset addr_matches
  addr_superset_lem a b ip proto x n h m =
      let rest =
        if not (any b) && (any a || not (address_covered net a.ip b.ip))
        then false
        else if no_ports b.ports
        then true
        else if no_ports a.ports
        then false
        else ports_covered a.ports b.ports in
      let (ma, mp) = and_true (addr_matches net w a ip) (port_matches proto x a.ports) m in
      elim (Bool-cases (b.set == "" && a.set == "")) [
        | inl e ↦
            let (eb, ea) = and_true (b.set == "") (a.set == "") e in
            let r = both_plain (b.set == "") (a.set == "") (a.set == b.set) rest h eb ea in
            let (c, k) = guard_lem _ _ r in
            let pa =
              if_true (a.set == "") (any a || address_in net w a.ip ip) (w.members a.set ip) ea
                ma in
            and_intro (addr_matches net w b ip) (port_matches proto x b.ports)
              (true_if (b.set == "") (any b || address_in net w b.ip ip) (w.members b.set ip) eb
                (plain_lem a b ip c pa))
              (port_matches_lem proto x a.ports b.ports k mp)
        | inr e ↦
            let q =
              (String-eq.same_iff a.set b.set).0
                (one_set (b.set == "") (a.set == "") (a.set == b.set) rest h e) in
            set_lem a b ip proto x n q e ma
      ]

  -- If `ruleSuperset` takes a rule `b` to cover a rule `a`, then `b` is for every packet that `a` is
  -- for, provided that an endpoint of `b` that names a set has no ports.
  pub rule_superset-matches :
      (a b : Rule) (p : Packet)
      → (b.src.set == "" || no_ports b.src.ports) ≡ true
      → (b.dst.set == "" || no_ports b.dst.ports) ≡ true
      → rule_superset net a b ≡ true
      → matches net w a p ≡ true
      → matches net w b p ≡ true
  unfolding rule_superset matches
  rule_superset-matches a b p ns nd h m =
      let (c1, h) = guard_lem (not (a.v6 == b.v6)) _ h in
      let (c2, h) = guard_lem (not (a.direction == b.direction)) _ h in
      let (c3, h) = guard_lem (not (b.iface_in == "") && not (b.iface_in == a.iface_in)) _ h in
      let (c4, h) = guard_lem (not (b.iface_out == "") && not (b.iface_out == a.iface_out)) _ h in
      let (c5, h) =
        guard_lem (not (b.proto == "") && not (b.proto == "any") && not (b.proto == a.proto)) _ h in
      let (c6, h) = guard_lem (not (b.icmp_type == "") && not (b.icmp_type == a.icmp_type)) _ h in
      let (c7, h) = guard_lem (not (b.dapp == "") && not (b.dapp == a.dapp)) _ h in
      let (c8, h) = guard_lem (not (b.sapp == "") && not (b.sapp == a.sapp)) _ h in
      let (hs, hd) = and_true (addr_superset net a.src b.src) (addr_superset net a.dst b.dst) h in
      let (mf, me) = and_true _ _ m in
      let (ms, md) = and_true _ _ me in
      let (m1, mf) = and_true _ _ mf in
      let (m2, mf) = and_true _ _ mf in
      let (m3, mf) = and_true _ _ mf in
      let (m4, mf) = and_true _ _ mf in
      let (m5, m6) = and_true _ _ mf in
      and_intro _ _
        (and_intro _ _
          (subst (λ s. (s == p.six) ≡ true)
            ((Bool-eq.same_iff a.v6 b.v6).0 (of_negation (a.v6 == b.v6) c1)) m1)
          (and_intro _ _
            (subst (λ s. (s == p.direction) ≡ true)
              ((String-eq.same_iff a.direction b.direction).0
                (of_negation (a.direction == b.direction) c2))
              m2)
            (and_intro _ _ (iface_lem w a.iface_in b.iface_in p.iface_in c3 m3) (
              and_intro _ _ (iface_lem w a.iface_out b.iface_out p.iface_out c4 m4) (
                and_intro _ _ (proto_lem a.proto b.proto p.proto c5 m5)
                  (icmp_lem a.icmp_type b.icmp_type p.icmp_type c6 m6))))))
        (and_intro _ _ (addr_superset_lem a.src b.src p.source p.proto p.source_port ns hs ms)
          (addr_superset_lem a.dst b.dst p.dest p.proto p.dest_port nd hd md))
