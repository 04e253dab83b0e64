-- ===== src/Nft/Sets/Bans.antt =====
-- internal/backend/nft/compile.go, compileThreatBans: the addresses that the sets of threat bans hold.
use better_firewall.Prelude.{
  ℕ, suc, ◌-◌, ◌^◌, ◌<◌, ◌≡◌, refl, sym, ◌∙◌, Bool, true, false, ◌&&◌, ◌||◌, Bool-cases, List, [],
  ◌∷◌, none, some, inl, inr, String-eq,
}
use better_firewall.Prelude.Int.{ℤ, ltb_ℤ}
use better_firewall.Prelude.Result.{ok}
use better_firewall.Net.{Addr, NetText}
use better_firewall.Store.{ThreatBan}
use better_firewall.Nft.Match.{parse_addr_or_prefix}
use better_firewall.Nft.Compiled.{Compiled}
use better_firewall.Nft.Intervals.Merge.{covered}
use better_firewall.Nft.Intervals.Gaps.{Separated}
use better_firewall.Nft.Sets.{compile_threat_bans, active_addresses}
use better_firewall.Nft.Sets.Cover.{
  width, address, in_element, listed, unreadable, intervals_of, with_sets,
  compile_address_set-with_sets, intervals_of-Separated, covered-intervals_of, covered-listed,
}

module _ (net : NetText) where
  -- Are a family's addresses held by a ban that is in force?
  unfoldable pub banned : ℤ → List ThreatBan → Addr → Bool
  unfolding listed
  banned now [] ip = false
  banned now (b ∷ bans) ip =
      ltb_ℤ now b.expires_at && in_element (parse_addr_or_prefix net b.address) ip
      || banned now bans ip

  banned-listed :
      (now : ℤ) (bans : List ThreatBan) (ip : Addr)
      → listed net ip (active_addresses now bans) ≡ banned now bans ip
  unfolding banned listed active_addresses
  banned-listed now [] ip = refl
  banned-listed now (b ∷ bans) ip = elim (Bool-cases (ltb_ℤ now b.expires_at)) [
    | inl p ↦ rw (p, banned-listed now bans ip) refl
    | inr p ↦ rw (p, banned-listed now bans ip) refl
  ]

  -- The state behind the compilation of the bans.
  abbrev pub with_bans : ℤ → List ThreatBan → Compiled → Compiled
  with_bans now bans c =
      record (with_sets net "bfw_threat_bans" "bfw_threat_bans6" (active_addresses now bans) c) {
        threat_bans4 = some ("bfw_threat_bans", suc c.set_id);
        threat_bans6 = some ("bfw_threat_bans6", suc (suc c.set_id));
      }

  -- Where the address of every ban in force is an address or a prefix, and none holds the last address
  -- of a family, the threat bans compile to two sets with the next two ids, which the result remembers;
  -- the intervals of that family's set neither overlap nor touch, and hold an address exactly when a
  -- ban in force does. No ban that has expired adds an address.
  pub compile_threat_bans-covers :
      (six : Bool) (now : ℤ) (bans : List ThreatBan) (c : Compiled) (x : ℕ)
      → unreadable net (active_addresses now bans) ≡ none
      → x < 2 ^ width six
      → banned now bans (address six (2 ^ width six - 1)) ≡ false
      → (compile_threat_bans net now bans c ≡ ok (with_bans now bans c))
        × Separated (intervals_of net six (active_addresses now bans))
        × (covered x (intervals_of net six (active_addresses now bans))
            ≡ banned now bans (address six x))
  unfolding compile_threat_bans
  compile_threat_bans-covers six now bans c x h p l =
      let es = active_addresses now bans in
      let e = banned-listed now bans in
      (
        rw
            (compile_address_set-with_sets net "bfw_threat_bans" "bfw_threat_bans6" "threat ban" es
              c h)
            refl,
        intervals_of-Separated net six es,
        covered-intervals_of net six es x h p (e (address six (2 ^ width six - 1)) ∙ l)
            ∙ e (address six x),
      )

  -- Where the address of every ban in force is an address or a prefix, no address is blocked that no
  -- ban in force holds, bans of the last address of a family included.
  pub covered-banned :
      (six : Bool) (now : ℤ) (bans : List ThreatBan) (x : ℕ)
      → unreadable net (active_addresses now bans) ≡ none
      → x < 2 ^ width six
      → covered x (intervals_of net six (active_addresses now bans)) ≡ true
      → banned now bans (address six x) ≡ true
  covered-banned six now bans x h p k =
      sym (banned-listed now bans (address six x))
      ∙ covered-listed net six (active_addresses now bans) x h p k
