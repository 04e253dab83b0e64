-- ===== src/Store.antt =====
-- internal/store/store.go: the persistent state of the firewall.
use better_firewall.Prelude.{ℕ, Bool, true, false, List, [], String}
use better_firewall.Prelude.Int.{ℤ}
use better_firewall.Rule.{Rule}

pub record Policies : Type 0 where
  pub input : String
  pub output : String
  pub forward : String

pub record IpSet : Type 0 where
  pub name : String
  pub family : String
  pub elements : List String

pub record ThreatBan : Type 0 where
  pub address : String
  pub source : String
  pub reason : String
  pub decision_id : ℤ
  pub expires_at : ℤ

pub record NatRule : Type 0 where
  pub kind : String
  pub iface_in : String
  pub iface_out : String
  pub proto : String
  pub src : String
  pub dst : String
  pub dport : ℕ
  pub to_dest : String

pub record State : Type 0 where
  pub rules4 : List Rule
  pub rules6 : List Rule
  pub policies : Policies
  pub logging : String
  pub ipv6 : Bool
  pub app_policy : String
  pub panic : Bool
  pub sets : List IpSet
  pub bans : List ThreatBan
  pub nat : List NatRule

-- `Defaults`.
unfoldable pub defaults : State
defaults = record {
  rules4 = [];
  rules6 = [];
  policies = record { input = "deny"; output = "allow"; forward = "deny" };
  logging = "low";
  ipv6 = true;
  app_policy = "skip";
  panic = false;
  sets = [];
  bans = [];
  nat = [];
}
