-- ===== src/Nft/Match.antt =====
-- internal/backend/nft/compile.go: the expressions of single matches. The cached expressions of the
-- source are the values that its functions build; a protocol without a cached match has none.
use better_firewall.Prelude.{
  ℕ, zero, suc, ◌+◌, ◌-◌, ◌*◌, ◌/◌, ◌%◌, ◌^◌, Bool, false, not, ◌&&◌, ◌||◌, List, [], ◌∷◌, ◌++◌,
  String, Option, none, some, ltb, leb, ◌==◌, ℕ-eq, String-eq, Bool-eq, if◌then◌else◌, codes,
  ends_char, count_char, length, take, replicate, utf8, text_bytes,
}
use better_firewall.Net.{Addr, v4, v6, NetText, is4, is4in6, unmap, without_zone, mask_addr}
use better_firewall.Nft.Expr.{
  reg_1, MetaKey, key_nfproto, key_l4proto, key_iifname, key_oifname, network, transport, bytes,
  host32, accept, drop_packet, Expr, meta, cmp_eq, cmp_neq, payload, bitwise, ct, fib_daddr_type,
  exthdr, limit, verdict, reject_port,
}

-- `nfproto`, `appendNFProto`: NFPROTO_IPV4 is 2 and NFPROTO_IPV6 is 10.
unfoldable pub nfproto : Bool → List Expr
nfproto six = meta key_nfproto ∷ cmp_eq (bytes ((if six then 10 else 2) ∷ [])) ∷ []

abbrev pub cached_protos : List ℕ
cached_protos = 6 ∷ 17 ∷ 1 ∷ 58 ∷ 51 ∷ 50 ∷ 47 ∷ 2 ∷ 41 ∷ 112 ∷ []

unfoldable pub is_cached : ℕ → List ℕ → Bool
is_cached num [] = false
is_cached num (n ∷ ns) = n == num || is_cached num ns

-- `l4proto`, `appendL4Proto`, `cachedL4Proto`.
unfoldable pub l4proto : ℕ → List Expr
unfolding is_cached
l4proto num =
    if is_cached num cached_protos then meta key_l4proto ∷ cmp_eq (bytes (num ∷ [])) ∷ [] else []

-- `protoNum`; `none` is its error.
unfoldable pub proto_num : String → Option ℕ
proto_num p =
    if p == "tcp"
    then some 6
    else if p == "udp"
    then some 17
    else if p == "icmp"
    then some 1
    else if p == "icmpv6"
    then some 58
    else if p == "ah"
    then some 51
    else if p == "esp"
    then some 50
    else if p == "gre"
    then some 47
    else if p == "igmp"
    then some 2
    else if p == "ipv6"
    then some 41
    else if p == "vrrp"
    then some 112
    else none

-- `copy(b, name)` into 16 zero bytes.
unfoldable pub name_bytes : String → List ℕ
name_bytes name = take 16 (text_bytes (codes name) ++ replicate 16 0)

-- A text without its last character.
unfoldable pub init_codes : List ℕ → List ℕ
init_codes [] = []
init_codes (c ∷ []) = []
init_codes (c ∷ d ∷ cs) = c ∷ init_codes (d ∷ cs)

-- The writes of `mask`, at the first byte of each character.
unfoldable pub start_mask : List ℕ → List ℕ
start_mask [] = []
start_mask (c ∷ cs) = 255 ∷ replicate (length (utf8 c) - 1) 0 ++ start_mask cs

-- One of these writes, from byte `i` on, is outside the 16 bytes of the mask.
unfoldable pub mask_panics : ℕ → List ℕ → Bool
mask_panics i [] = false
mask_panics i (c ∷ cs) = leb 16 i || mask_panics (i + length (utf8 c)) cs

-- `appendIfaceMatch` panics.
unfoldable pub iface_panics : String → Bool
unfolding mask_panics init_codes
iface_panics name = ends_char b'+' name && mask_panics 0 (init_codes (codes name))

-- `appendIfaceMatch`, where it does not panic: a name that ends in "+" stands for its prefix.
unfoldable pub iface_match : MetaKey → String → List Expr
unfolding name_bytes init_codes start_mask
iface_match key name =
    let prefix = init_codes (codes name) in
    if ends_char b'+' name
    then meta key
      ∷ bitwise 16 (bytes (take 16 (start_mask prefix ++ replicate 16 0))) (bytes (replicate 16 0))
      ∷ cmp_eq (bytes (take 16 (text_bytes prefix ++ replicate 16 0)))
      ∷ []
    else meta key ∷ cmp_eq (bytes (name_bytes name)) ∷ []

abbrev pub iif : String → List Expr
iif name = iface_match key_iifname name

abbrev pub oif : String → List Expr
oif name = iface_match key_oifname name

-- The last `k` bytes of a number, in the order of the wire.
unfoldable pub wire_bytes : ℕ → ℕ → List ℕ
wire_bytes zero n = []
wire_bytes (suc k) n = n / 2 ^ (8 * k) % 256 ∷ wire_bytes k n

-- `portData`.
unfoldable pub port_data : ℕ → List ℕ
port_data port = port / 256 % 256 ∷ port % 256 ∷ []

-- `cachedPortPayload`.
unfoldable pub port_payload : String → Expr
port_payload which = payload reg_1 transport (if which == "dport" then 2 else 0) 2

-- `portEq`, `makePortEq`.
unfoldable pub port_eq : String → ℕ → List Expr
unfolding port_payload port_data
port_eq which p = port_payload which ∷ cmp_eq (bytes (port_data p)) ∷ []

-- `icmpType`, `hopLimit`, `rhType`.
unfoldable pub icmp_type : ℕ → List Expr
icmp_type t = payload reg_1 transport 0 1 ∷ cmp_eq (bytes (t ∷ [])) ∷ []

unfoldable pub hop_limit : ℕ → List Expr
hop_limit hl = payload reg_1 network 7 1 ∷ cmp_eq (bytes (hl ∷ [])) ∷ []

unfoldable pub rh_type : ℕ → List Expr
rh_type t = exthdr 43 2 1 ∷ cmp_eq (bytes (t ∷ [])) ∷ []

-- `ctState`, `newCtState`, and the bits of the states.
unfoldable pub ct_state : ℕ → List Expr
ct_state bits = ct ∷ bitwise 4 (host32 bits) (host32 0) ∷ cmp_neq (host32 0) ∷ []

abbrev pub bit_invalid : ℕ
bit_invalid = 1

abbrev pub bit_established : ℕ
bit_established = 2

abbrev pub bit_related : ℕ
bit_related = 4

abbrev pub bit_new : ℕ
bit_new = 8

-- `fibAddrType`.
unfoldable pub fib_addr_type : ℕ → List Expr
fib_addr_type rtn = fib_daddr_type ∷ cmp_eq (host32 rtn) ∷ []

-- `policyVerdict`.
unfoldable pub policy_verdict : String → Expr
policy_verdict policy =
    if policy == "allow"
    then verdict accept
    else if policy == "reject"
    then reject_port
    else verdict drop_packet

-- `limit3`.
abbrev pub limit3 : Expr
limit3 = limit 3 10 false

-- `logPrefix`.
unfoldable pub log_prefix_of : String → String
log_prefix_of action =
    if action == "allow"
    then "[BFW ALLOW] "
    else if action == "limit"
    then "[BFW LIMIT] "
    else "[BFW BLOCK] "

-- `cachedAddrPayload`.
unfoldable pub addr_payload : String → Bool → Expr
addr_payload which six =
    if six
    then payload reg_1 network (if which == "daddr" then 24 else 8) 16
    else payload reg_1 network (if which == "daddr" then 16 else 12) 4

-- `cidrMaskBytes`: byte `i` of the mask of `ones` bits, for the bytes from `i` on.
unfoldable pub mask_bytes : ℕ → ℕ → ℕ → List ℕ
mask_bytes ones i zero = []
mask_bytes ones i (suc n) =
    (if leb (8 * i + 8) ones
      then 255
      else if leb ones (8 * i)
      then 0
      else 255 * 2 ^ (8 - ones % 8) % 256)
    ∷ mask_bytes ones (suc i) n

-- Two comparisons that exclude one another.
abbrev pub fail_closed : List Expr
fail_closed = cmp_eq (bytes (0 ∷ [])) ∷ cmp_eq (bytes (1 ∷ [])) ∷ []

abbrev pub number_of : Addr → ℕ
number_of (v4 n) = n
number_of (v6 n zone) = n

abbrev pub zone_of : Addr → String
zone_of (v4 n) = ""
zone_of (v6 n zone) = zone

module _ (net : NetText) where
  -- `parseAddrOrPrefix`; `none` is its error.
  unfoldable pub parse_addr_or_prefix : String → Option (Addr × ℕ)
  parse_addr_or_prefix s =
      if ltb 0 (count_char b'/' s)
      then elim (net.parse_prefix s) [
        | none ↦ none
        | some p ↦
            if is4in6 p.addr && leb 96 p.bits
            then some (unmap p.addr, p.bits - 96)
            else some (p.addr, p.bits)
      ]
      else elim (net.parse_addr s) [
        | none ↦ none
        | some a ↦ some (unmap a, if is4 (unmap a) then 32 else 128)
      ]

  -- `appendAddrMatchTo` behind the parse. `PrefixFrom` drops the zone.
  unfoldable pub match_addr : String → Bool → Addr → ℕ → List Expr
  unfolding wire_bytes mask_bytes
  match_addr which six addr bits =
      let n = if six then 16 else 4 in
      let key = wire_bytes n (number_of (mask_addr bits (without_zone addr))) in
      if bits == 8 * n
      then addr_payload which six ∷ cmp_eq (bytes key) ∷ []
      else addr_payload which six
        ∷ bitwise n (bytes (mask_bytes bits 0 n)) (bytes (replicate n 0))
        ∷ cmp_eq (bytes key)
        ∷ []

  -- `addrMatch`, `appendAddrMatchTo`: a bad or zoned text and the wrong family match nothing.
  unfoldable pub addr_match : String → String → Bool → List Expr
  unfolding match_addr
  addr_match which cidr six = elim (parse_addr_or_prefix cidr) [
    | none ↦ fail_closed
    | some (addr, bits) ↦
        if not (zone_of addr == "") || is4 (mask_addr bits (without_zone addr)) == six
        then fail_closed
        else match_addr which six addr bits
  ]
