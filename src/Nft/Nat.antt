-- ===== src/Nft/Nat.antt =====
-- internal/backend/nft/compile.go, compileNAT.
pub mod Target
use Prim.Native.String
use Prim.Native.Char.{code}
use better_firewall.Prelude.{
  ℕ, suc, Bool, true, false, not, ◌&&◌, ◌||◌, List, [], ◌∷◌, ◌++◌, String, Option, none, some, ltb,
  nat_eq, ◌==◌, ℕ-eq, String-eq, Bool-eq, if◌then◌else◌, starts_char, count_char, cut_char,
}
use better_firewall.Prelude.Result.{Result, ok, err, ◌>>=◌}
use better_firewall.Net.{Addr, NetText, Prefix, is4, unmap}
use better_firewall.Store.{NatRule}
use better_firewall.Rule.Icmp.{parse_uint}
use better_firewall.Nft.Expr.{
  Expr, Table, nat_table4, nat_table6, Chain, hook_prerouting, hook_postrouting, counter, masq,
  dnat, immediate, reg_1, reg_2,
}
use better_firewall.Nft.Match.{
  l4proto, proto_num, addr_match, port_eq, port_data, wire_bytes, number_of, zone_of,
}
use better_firewall.Nft.Ifaces.{both_ifaces}
use better_firewall.Nft.Compiled.{
  Compiled, CompileError, nat_unknown_proto, nat_to_dest, nat_to_dest_family, nat_to_dest_port,
  nat_unknown_kind, add_rule_object,
}

-- `s[1:]`.
abbrev tail_text : String → String
tail_text String.[] = ""
tail_text (String.◌∷◌ c s) = s

-- What follows a bracketed host.
abbrev port_behind : Option String → Option String
port_behind none = none
port_behind (some rest) = some (if starts_char b':' rest then tail_text rest else "")

abbrev pub or_empty : Option String → String
or_empty none = ""
or_empty (some s) = s

-- `splitToDest` for a text whose brackets are not both there.
unfoldable pub split_colon : String → String × String
split_colon s =
    let (host, port) = cut_char b':' s in
    if ltb 1 (count_char b':' s) then (s, "") else (host, or_empty port)

-- `splitToDest`.
unfoldable pub split_to_dest : String → String × String
unfolding split_colon
split_to_dest s =
    if starts_char b'[' s
    then elim (port_behind (cut_char b']' (tail_text s)).1) [
      | some port ↦ ((cut_char b']' (tail_text s)).0, port)
      | none ↦ split_colon s
    ]
    else split_colon s

-- What stands before the last colon, `s[:strings.LastIndex(s, ":")]`.
unfoldable pub before_last_colon : String → Option String
before_last_colon String.[] = none
before_last_colon (String.◌∷◌ c s) = elim (before_last_colon s) [
  | some t ↦ some (String.◌∷◌ c t)
  | none ↦ if nat_eq (code c) b':' then some "" else none
]

abbrev pub is_given : String → Bool
is_given s = not (s == "") && not (s == "any")

abbrev unmap? : Option Addr → Option Addr
unmap? none = none
unmap? (some a) = some (unmap a)

-- The protocol of a NAT rule.
unfoldable pub nat_proto : ℕ → NatRule → Result CompileError (List Expr)
unfolding l4proto
nat_proto i nr =
    if is_given nr.proto
    then elim (proto_num nr.proto) [
      | none ↦ err (nat_unknown_proto i nr.proto)
      | some num ↦ ok (l4proto num)
    ]
    else ok []

-- The port of a DNAT target.
unfoldable pub dnat_port : ℕ → Bool → String → Result CompileError (List Expr)
unfolding port_data
dnat_port i six port = if port == "" then ok (dnat six false ∷ []) else elim (parse_uint 16 port) [
  | none ↦ err (nat_to_dest_port i port)
  | some p ↦ ok (immediate reg_2 (port_data p) ∷ dnat six true ∷ [])
]

-- The base chains of a NAT table.
abbrev pub nat_chains : Table → List Chain
nat_chains t =
    record { name = "prerouting"; table = t; base = some (hook_prerouting, true) }
    ∷ record { name = "postrouting"; table = t; base = some (hook_postrouting, true) }
    ∷ []

module _ (net : NetText) where
  -- `natHostIP` behind the bracketed form.
  unfoldable pub host_before_colon : String → Option Addr
  unfolding before_last_colon
  host_before_colon s = elim (before_last_colon s) [
    | none ↦ none
    | some h ↦ if h == "" then none else unmap? (net.parse_addr h)
  ]

  -- `natHostIP` for what is no bare address or prefix.
  unfoldable pub host_with_port : String → Option Addr
  unfolding host_before_colon
  host_with_port s =
      if starts_char b'[' s
      then elim (cut_char b']' (tail_text s)).1 [
        | some rest ↦ unmap? (net.parse_addr (cut_char b']' (tail_text s)).0)
        | none ↦ host_before_colon s
      ]
      else host_before_colon s

  -- `natHostIP` behind the prefix form.
  unfoldable pub nat_bare_ip : String → Option Addr
  unfolding host_with_port
  nat_bare_ip s = elim (net.parse_addr s) [ some a ↦ some (unmap a) | none ↦ host_with_port s ]

  -- `natHostIP`; `none` is the invalid address.
  unfoldable pub nat_host_ip : String → Option Addr
  unfolding nat_bare_ip
  nat_host_ip s =
      if ltb 0 (count_char b'/' s)
      then elim (net.parse_prefix s) [ some p ↦ some (unmap p.addr) | none ↦ nat_bare_ip s ]
      else nat_bare_ip s

  abbrev is_v6 : Option Addr → Bool
  is_v6 none = false
  is_v6 (some a) = not (is4 a)

  -- `natRuleV6`.
  unfoldable pub nat_rule_v6 : NatRule → Bool
  unfolding nat_host_ip
  nat_rule_v6 nr =
      is_given nr.src && is_v6 (nat_host_ip nr.src)
      || is_given nr.dst && is_v6 (nat_host_ip nr.dst)
      || is_given nr.to_dest && is_v6 (nat_host_ip nr.to_dest)

  -- The match of one NAT rule, with the index of the rule.
  unfoldable pub nat_match : ℕ → NatRule → Bool → Result CompileError (List Expr)
  unfolding nat_proto port_eq addr_match both_ifaces
  nat_match i nr six = both_ifaces nr.iface_in nr.iface_out >>= λ ifaces. nat_proto i nr >>= λ l4.
      ok (
        ifaces
        ++ l4
        ++ (if is_given nr.src then addr_match net "saddr" nr.src six else [])
        ++ (if is_given nr.dst then addr_match net "daddr" nr.dst six else [])
        ++ (if nr.dport == 0 then [] else port_eq "dport" nr.dport)
        ++ (counter ∷ []))

  -- The address of a DNAT target, its port, and the translation.
  unfoldable pub dnat_target : ℕ → Bool → String → Result CompileError (List Expr)
  unfolding dnat_port wire_bytes split_to_dest
  dnat_target i six to_dest =
      let (host, port) = split_to_dest to_dest in
      elim (net.parse_addr host) [
        | none ↦ err (nat_to_dest i to_dest)
        | some ip ↦
            if not (zone_of ip == "")
            then err (nat_to_dest i to_dest)
            else if is4 (unmap ip) == six
            then err (nat_to_dest_family i)
            else (dnat_port i six port >>= λ rest. ok (
                immediate reg_1 (wire_bytes (if six then 16 else 4) (number_of (unmap ip))) ∷ rest))
      ]

  -- One pass of the loop of `compileNAT`.
  unfoldable pub compile_nat_rule : ℕ → NatRule → Compiled → Result CompileError Compiled
  compile_nat_rule i nr c =
      let six = nat_rule_v6 nr in
      let table = if six then nat_table6 else nat_table4 in
      nat_match i nr six >>= λ match.
      (if nr.kind == "masquerade"
        then ok (add_rule_object table "postrouting" (match ++ (masq ∷ [])) c)
        else if nr.kind == "dnat"
        then (dnat_target i six nr.to_dest >>= λ target.
            ok (add_rule_object table "prerouting" (match ++ target) c))
        else err (nat_unknown_kind i nr.kind))

  unfoldable pub compile_nat_rules : ℕ → List NatRule → Compiled → Result CompileError Compiled
  unfolding compile_nat_rule
  compile_nat_rules i [] c = ok c
  compile_nat_rules i (nr ∷ rest) c =
      compile_nat_rule i nr c >>= λ d. compile_nat_rules (suc i) rest d

  -- `compileNAT`.
  unfoldable pub compile_nat : List NatRule → Compiled → Result CompileError Compiled
  unfolding compile_nat_rules
  compile_nat [] c = ok c
  compile_nat (nr ∷ rest) c = compile_nat_rules 0 (nr ∷ rest) (record c {
    nat_tables = nat_table4 ∷ nat_table6 ∷ [];
    chains = c.chains ++ nat_chains nat_table4 ++ nat_chains nat_table6;
  })
