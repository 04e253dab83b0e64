-- ===== src/Nft/Expr.antt =====
-- The objects of github.com/google/nftables and its expr package, with the fields that compile.go
-- sets. Loads into register 1 and comparisons on it name no register; numbers of the unix package
-- are written out.
use better_firewall.Prelude.{ℕ, Bool, List, String, Option}

pub data Reg : Type 0 where
  reg_1 reg_2 reg32_00 reg32_01 : Reg

pub data MetaKey : Type 0 where
  key_nfproto key_l4proto key_iifname key_oifname : MetaKey

pub data Header : Type 0 where
  network transport : Header

-- Bytes in the order of the wire, or a number of 32 bits in the order of the host.
pub data Operand : Type 0 where
  bytes : List ℕ → Operand
  host32 : ℕ → Operand

pub data Verdict : Type 0 where
  accept drop_packet back : Verdict
  jump_to : String → Verdict

pub data Expr : Type 0 where
  meta : MetaKey → Expr
  cmp_eq : Operand → Expr
  cmp_neq : Operand → Expr
  -- the register, the header, the offset and the length
  payload : Reg → Header → ℕ → ℕ → Expr
  -- the length, the mask and the xor
  bitwise : ℕ → Operand → Operand → Expr
  range : List ℕ → List ℕ → Expr
  -- the name and the id of the set
  set_lookup : String → ℕ → Expr
  ct : Expr
  fib_daddr_type : Expr
  -- the type, the offset and the length
  exthdr : ℕ → ℕ → ℕ → Expr
  -- packets in a minute, the burst, and whether packets over the limit match
  limit : ℕ → ℕ → Bool → Expr
  -- the key's register, the set, the seconds of its timeout, and the rate that is exceeded
  dynset_update : Reg → String → ℕ → ℕ → ℕ → Expr
  immediate : Reg → List ℕ → Expr
  counter : Expr
  verdict : Verdict → Expr
  reject_port : Expr
  log_prefix : String → Expr
  masq : Expr
  -- whether the family is IPv6, and whether register 2 holds a port
  dnat : Bool → Bool → Expr

pub data Hook : Type 0 where
  hook_input hook_output hook_forward hook_prerouting hook_postrouting : Hook

-- The filter table, and the NAT tables of the two families.
pub data Table : Type 0 where
  inet_table nat_table4 nat_table6 : Table

-- A base chain's hook and whether its policy accepts.
pub record Chain : Type 0 where
  pub name : String
  pub table : Table
  pub base : Option (Hook × Bool)

pub record NftRule : Type 0 where
  pub table : Table
  pub chain : String
  pub exprs : List Expr

pub data KeyType : Type 0 where
  ipv4_addr ipv6_addr inet_service ipv4_addr_service ipv6_addr_service : KeyType

-- Seconds of a timeout, 0 being none.
pub record NftSet : Type 0 where
  pub name : String
  pub id : ℕ
  pub key_type : KeyType
  pub interval : Bool
  pub anonymous : Bool
  pub constant : Bool
  pub dynamic : Bool
  pub timeout : ℕ
  pub size : ℕ

pub record SetElement : Type 0 where
  pub key : List ℕ
  pub interval_end : Bool
