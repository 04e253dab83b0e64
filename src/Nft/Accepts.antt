-- ===== src/Nft/Accepts.antt =====
-- internal/backend/nft/compile.go: which rules compile, without a look at the ruleset being built.
pub mod Whole
pub mod Nat
use better_firewall.Prelude.{
  ℕ, suc, ◌≡◌, refl, sym, ◌∙◌, ap, Bool, true, false, not, ◌&&◌, ◌||◌, List, [], ◌∷◌, ◌++◌, String,
  Option, none, some, ◌==◌, String-eq, Bool-eq, if◌then◌else◌, Bool-cases, Option-cases, inl, inr,
  arith, ltb, leb, length, length-append, codes, utf8, text_bytes, ends_char, ◌+◌,
}
use better_firewall.Prelude.Int.{ℤ}
use better_firewall.Prelude.Result.{Result, ok, err, ◌>>=◌}
use better_firewall.Net.{NetText, Addr, is4, unmap}
use better_firewall.Rule.{Rule, expired}
use better_firewall.Store.{NatRule}
use better_firewall.Rule.Icmp.{icmp_type_number, parse_uint}
use better_firewall.Nft.Expr.{
  Expr, Table, nat_table4, nat_table6, counter, verdict, accept, drop_packet, reject_port, masq,
  MetaKey, key_iifname, key_oifname, immediate, reg_1,
}
use better_firewall.Nft.Match.{
  proto_num, l4proto, init_codes, mask_panics, iface_panics, iface_match, icmp_type, nfproto,
  zone_of, wire_bytes, number_of,
}
use better_firewall.Nft.Compiled.{
  Compiled, CompileError, iface_panic, icmp_ipv4_only, icmp_ipv6_only, icmp_with_ports,
  unknown_action, nat_to_dest, nat_to_dest_family, nat_unknown_kind, add_rules, add_rule_object,
}
use better_firewall.Nft.Ifaces.{given_iface, both_ifaces}
use better_firewall.Nft.Rules.{
  is_icmp, no_ports, proto_exprs, icmp_exprs, proto_variants, user_chain_for,
}
use better_firewall.Nft.UserRules.{
  family_match, both_ports, rule_match, compile_action, compile_limit, logging_rules,
  compile_variant, compile_variants, compile_rule, compile_rules,
}

abbrev pub is_ok {ℓ κ} : {E : Type ℓ} {A : Type κ} → Result E A → Bool
is_ok (ok a) = true
is_ok (err e) = false

abbrev pub is_some {ℓ} : {A : Type ℓ} → Option A → Bool
is_some none = false
is_some (some a) = true

-- A step that succeeds or fails whatever it is given.
pub is_ok-bind :
    {A B : Type 0} (m : Result CompileError A) (f : A → Result CompileError B) (b : Bool)
    → ((a : A) → is_ok (f a) ≡ b)
    → is_ok (m >>= f) ≡ (is_ok m && b)
is_ok-bind (ok a) f b h = h a
is_ok-bind (err e) f b h = refl

pub and_true_right : (a : Bool) → (a && true) ≡ a
and_true_right a = ground arith

pub and_assoc : (a b c : Bool) → (a && (b && c)) ≡ (a && b && c)
and_assoc a b c = ground arith

abbrev pub known_action : Rule → Bool
known_action r =
    r.action == "allow" || r.action == "deny" || r.action == "reject" || r.action == "limit"

-- ICMP is IPv4's, ICMPv6 is IPv6's, and neither has ports.
abbrev pub family_ok : Rule → String → Bool → Bool
family_ok r proto six =
    not (proto == "icmp" && six)
    && not (proto == "icmpv6" && not six)
    && not (is_icmp proto && not (no_ports r.src.ports && no_ports r.dst.ports))

abbrev pub proto_ok : String → Bool
proto_ok proto = proto == "any" || is_some (proto_num proto)

abbrev pub icmp_ok : Rule → String → Bool
icmp_ok r proto = r.icmp_type == "" || is_icmp proto && is_some (icmp_type_number proto r.icmp_type)

-- An interface name ends in no plus sign, or each character before the sign begins in the first 16
-- bytes: those before the last one have fewer bytes.
abbrev pub iface_ok : String → Bool
iface_ok name =
    not (ends_char b'+' name) || ltb (length (text_bytes (init_codes (init_codes (codes name))))) 16

abbrev pub ifaces_ok : String → String → Bool
ifaces_ok from to = iface_ok from && iface_ok to

-- The match of a rule for one protocol can be written.
abbrev pub variant_ok : Rule → Bool → String → Bool
variant_ok r six proto =
    family_ok r proto six
    && (ifaces_ok r.iface_in r.iface_out && (proto_ok proto && icmp_ok r proto))

mask_panics_lem :
    (i c : ℕ) (cs : List ℕ)
    → mask_panics i (c ∷ cs) ≡ leb 16 (i + length (text_bytes (init_codes (c ∷ cs))))
unfolding mask_panics init_codes text_bytes
mask_panics_lem i c [] = ground arith
mask_panics_lem i c (d ∷ cs) =
    let more = mask_panics_lem (i + length (utf8 c)) d cs in
    let sum = length-append (utf8 c) (text_bytes (init_codes (d ∷ cs))) in
    rw more (rw sum (ground arith))

iface_panics_lem : (name : String) → iface_panics name ≡ not (iface_ok name)
unfolding iface_panics mask_panics init_codes text_bytes
iface_panics_lem name = go (ends_char b'+' name) (init_codes (codes name))
  where
    go :
        (b : Bool) (cs : List ℕ)
        → (b && mask_panics 0 cs) ≡ not (not b || ltb (length (text_bytes (init_codes cs))) 16)
    go false cs = refl
    go true [] = refl
    go true (c ∷ cs) = rw (mask_panics_lem 0 c cs) (ground arith)

is_ok-given_iface : (key : MetaKey) (name : String) → is_ok (given_iface key name) ≡ iface_ok name
unfolding given_iface ends_char
is_ok-given_iface key name = elim (Bool-cases (name == "")) [
  | inl e ↦ let empty = (String-eq.same_iff name "").0 e in rw e (sym (ap iface_ok empty))
  | inr e ↦ rw e (rw (iface_panics_lem name) (go (iface_ok name)))
]
  where
    go :
        (b : Bool)
        → is_ok {E = CompileError}
            (if not b then err (iface_panic name) else ok (iface_match key name))
          ≡ b
    go true = refl
    go false = refl

pub is_ok-both_ifaces : (from to : String) → is_ok (both_ifaces from to) ≡ ifaces_ok from to
unfolding both_ifaces
is_ok-both_ifaces from to =
    is_ok-bind (given_iface key_iifname from) _ (iface_ok to) (λ i.
      is_ok-bind (given_iface key_oifname to) _ true (λ o. refl)
      ∙ and_true_right _
      ∙ is_ok-given_iface key_oifname to)
    ∙ ap (λ b. b && iface_ok to) (is_ok-given_iface key_iifname from)

unfoldable pub variants_ok : Rule → Bool → List String → Bool
variants_ok r six [] = true
variants_ok r six (proto ∷ protos) =
    variant_ok r six proto && known_action r && variants_ok r six protos

-- A rule that is idle, or whose action, protocols and ICMP type are known and fit the family.
abbrev pub rule_ok : ℤ → Bool → Rule → Bool
rule_ok now six r = r.disabled || expired r now || variants_ok r six (proto_variants r)

module _ (r : Rule) where
  is_ok-family :
      (proto : String) (six : Bool) → is_ok (family_match r proto six) ≡ family_ok r proto six
  unfolding family_match
  is_ok-family proto six =
      go (proto == "icmp" && six) (proto == "icmpv6" && not six)
        (is_icmp proto && not (no_ports r.src.ports && no_ports r.dst.ports))
    where
      go :
          (a b c : Bool)
          → is_ok (
              if a
              then err (icmp_ipv4_only r.id)
              else if b
              then err (icmp_ipv6_only r.id)
              else if c
              then err (icmp_with_ports r.id)
              else ok (nfproto six))
            ≡ (not a && not b && not c)
      go true b c = refl
      go false true c = refl
      go false false true = refl
      go false false false = refl

  is_ok-proto : (proto : String) → is_ok (proto_exprs r proto) ≡ proto_ok proto
  unfolding proto_exprs
  is_ok-proto proto = elim (Bool-cases (proto == "any")) [
    | inl p ↦ rw p refl
    | inr p ↦ elim (Option-cases (proto_num proto)) [
      | inl q ↦ rw (p, q) refl
      | inr (num, q) ↦ rw (p, q) refl
    ]
  ]

  is_ok-icmp : (proto : String) → is_ok (icmp_exprs r proto) ≡ icmp_ok r proto
  unfolding icmp_exprs
  is_ok-icmp proto = elim (Bool-cases (r.icmp_type == "")) [
    | inl p ↦ rw p refl
    | inr p ↦ elim (Bool-cases (is_icmp proto)) [
      | inr q ↦ rw (p, q) refl
      | inl q ↦ elim (Option-cases (icmp_type_number proto r.icmp_type)) [
        | inl o ↦ rw (p, q, o) refl
        | inr (typ, o) ↦ rw (p, q, o) refl
      ]
    ]
  ]

  is_ok-action :
      (proto : String) (six : Bool) (match : List Expr) (c : Compiled)
      → is_ok (compile_action r proto six match c) ≡ known_action r
  unfolding compile_action
  is_ok-action proto six match c =
      go (r.action == "allow") (r.action == "deny") (r.action == "reject") (r.action == "limit")
    where
      last : Expr → Compiled
      last v = add_rules ((user_chain_for r.direction, match ++ (counter ∷ v ∷ [])) ∷ []) c

      go :
          (a b d e : Bool)
          → is_ok {E = CompileError} (
              if a
              then ok (last (verdict accept))
              else if b
              then ok (last (verdict drop_packet))
              else if d
              then ok (last reject_port)
              else if e
              then ok (compile_limit r proto six match (user_chain_for r.direction) c)
              else err (unknown_action r.id r.action))
            ≡ (a || b || d || e)
      go true b d e = refl
      go false true d e = refl
      go false false true e = refl
      go false false false true = refl
      go false false false false = refl

  module _ (net : NetText) where
    is_ok-match :
        (proto : String) (six : Bool) (c : Compiled)
        → is_ok (rule_match net r proto six c) ≡ variant_ok r six proto
    unfolding rule_match
    is_ok-match proto six c =
        let last = proto_ok proto && icmp_ok r proto in
        is_ok-bind (family_match r proto six) _ (ifaces_ok r.iface_in r.iface_out && last)
          (λ family.
            is_ok-bind (both_ifaces r.iface_in r.iface_out) _ last (λ ifaces.
              is_ok-bind (proto_exprs r proto) _ (icmp_ok r proto) (λ l4.
                is_ok-bind (icmp_exprs r proto) _ true (λ icmp. refl)
                ∙ and_true_right (is_ok (icmp_exprs r proto))
                ∙ is_ok-icmp proto)
              ∙ ap (λ b. b && icmp_ok r proto) (is_ok-proto proto))
            ∙ ap (λ b. b && last) (is_ok-both_ifaces r.iface_in r.iface_out))
        ∙ ap (λ b. b && (ifaces_ok r.iface_in r.iface_out && last)) (is_ok-family proto six)

    is_ok-variants :
        (six : Bool) (protos : List String) (c : Compiled)
        → is_ok (compile_variants net r six protos c) ≡ variants_ok r six protos
    unfolding compile_variants compile_variant variants_ok
    is_ok-variants six [] c = refl
    is_ok-variants six (proto ∷ protos) c =
        is_ok-bind (compile_variant net r six proto c) (λ d. compile_variants net r six protos d)
          (variants_ok r six protos) (is_ok-variants six protos)
        ∙ ap (λ b. b && variants_ok r six protos)
            (is_ok-bind (rule_match net r proto six c) _ (known_action r)
                (λ m. is_ok-action proto six m.0 (add_rules (logging_rules r m.0) m.1))
              ∙ ap (λ b. b && known_action r) (is_ok-match proto six c))

    pub is_ok-rule :
        (six : Bool) (now : ℤ) (c : Compiled)
        → is_ok (compile_rule net r six now c) ≡ rule_ok now six r
    unfolding compile_rule
    is_ok-rule six now c = elim (Bool-cases (r.disabled || expired r now)) [
      | inl p ↦ rw p refl
      | inr p ↦ rw p (is_ok-variants six (proto_variants r) c)
    ]
