-- ===== src/Nft/Sets.antt =====
-- internal/backend/nft/compile.go: named sets and the sets of threat bans.
pub mod Cover
pub mod Bans
use better_firewall.Prelude.{
  ℕ, suc, Bool, true, false, List, [], ◌∷◌, ◌++◌, String, Option, none, some, if◌then◌else◌, keep,
  map, ◌<>◌,
}
use better_firewall.Prelude.Int.{ltb_ℤ, ℤ}
use better_firewall.Prelude.Result.{Result, ok, err, ◌>>=◌}
use better_firewall.Net.{Addr, v4, v6, NetText}
use better_firewall.Store.{State, IpSet, ThreatBan}
use better_firewall.Nft.Expr.{NftSet, KeyType, ipv4_addr, ipv6_addr}
use better_firewall.Nft.Match.{parse_addr_or_prefix}
use better_firewall.Nft.Compiled.{Compiled, CompileError, bad_element, new_set_id, add_set}
use better_firewall.Nft.Intervals.{
  Interval, prefix_interval, merge_addr_intervals, interval_elements,
}

-- The intervals of the two families.
pub record Families : Type 0 where
  pub iv4 : List Interval
  pub iv6 : List Interval

-- An address's interval goes to the front of its family.
unfoldable pub add_interval : Addr → ℕ → Families → Families
add_interval (v4 n) bits f = record f { iv4 = prefix_interval 32 n bits ∷ f.iv4 }
add_interval (v6 n zone) bits f = record f { iv6 = prefix_interval 128 n bits ∷ f.iv6 }

abbrev pub interval_set : String → ℕ → KeyType → NftSet
interval_set name id key_type = record {
  name = name;
  id = id;
  key_type = key_type;
  interval = true;
  anonymous = false;
  constant = false;
  dynamic = false;
  timeout = 0;
  size = 0;
}

-- The addresses of the bans that are still in force.
unfoldable pub active_addresses : ℤ → List ThreatBan → List String
active_addresses now bans =
    map (λ (b : ThreatBan). b.address) (keep (λ (b : ThreatBan). ltb_ℤ now b.expires_at) bans)

module _ (net : NetText) where
  -- The loop of `compileAddressSet` over the elements.
  unfoldable pub element_intervals : String → List String → Result CompileError Families
  unfolding add_interval
  element_intervals source [] = ok (record { iv4 = []; iv6 = [] })
  element_intervals source (e ∷ es) = elim (parse_addr_or_prefix net e) [
    | none ↦ err (bad_element source e)
    | some (addr, bits) ↦ element_intervals source es >>= λ rest. ok (add_interval addr bits rest)
  ]

  -- `compileAddressSet`; its two sets have the last two ids. They are added before the loop in the
  -- source, which on an error drops the whole ruleset.
  unfoldable pub compile_address_set :
      String → String → String → List String → Compiled → Result CompileError Compiled
  unfolding element_intervals
  compile_address_set name4 name6 source elements c =
      let id4 = suc c.set_id in
      let id6 = suc id4 in
      element_intervals source elements >>= λ f. ok (
        add_set (interval_set name6 id6 ipv6_addr)
          (interval_elements 16 (merge_addr_intervals f.iv6))
          (add_set (interval_set name4 id4 ipv4_addr)
            (interval_elements 4 (merge_addr_intervals f.iv4)) (new_set_id (new_set_id c))))

  -- `compileNamedSets`.
  unfoldable pub compile_named_sets : List IpSet → Compiled → Result CompileError Compiled
  unfolding compile_address_set
  compile_named_sets [] c = ok c
  compile_named_sets (s ∷ ss) c =
      compile_address_set ("bfw_set_" <> s.name) ("bfw_set_" <> s.name <> "6") ("set " <> s.name)
        s.elements c
      >>= λ d. compile_named_sets ss d

  -- `compileThreatBans`.
  unfoldable pub compile_threat_bans : ℤ → List ThreatBan → Compiled → Result CompileError Compiled
  unfolding compile_address_set active_addresses
  compile_threat_bans now bans c =
      compile_address_set "bfw_threat_bans" "bfw_threat_bans6" "threat ban"
        (active_addresses now bans) c
      >>= λ d. ok (record d {
        threat_bans4 = some ("bfw_threat_bans", suc c.set_id);
        threat_bans6 = some ("bfw_threat_bans6", suc (suc c.set_id));
      })
