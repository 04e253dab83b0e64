-- ===== src/Protect/Threats.antt =====
-- internal/cli/commands_protect.go: threat bans. Times are in seconds (`Unix`) where the source has
-- them so; durations and the clock of CrowdSec decisions are in nanoseconds.
pub mod Rejects
pub mod Local
use better_firewall.Prelude.{
  ℕ, suc, zero, ◌+◌, ◌-◌, ◌/◌, Bool, true, false, not, ◌&&◌, ◌||◌, List, [], ◌∷◌, ◌++◌, String,
  Option, none, some, ◌==◌, String-eq, if◌then◌else◌, keep, equal_fold, strip_prefix, to_lower,
}
use better_firewall.Prelude.Int.{ℤ, pos, negsuc, ℤ_eq, ltb_ℤ, leb_ℤ, ◌+ℤ◌}
use better_firewall.Store.{State, ThreatBan}
use better_firewall.Net.{NetText, Addr, Prefix, unmap, without_zone, masked, unmap_prefix}

-- internal/protect/types.go.
pub record Update : Type 0 where
  pub snapshot : Bool
  pub add : List ThreatBan
  pub delete_ids : List ℤ

pub data ThreatError : Type 0 where
  already_expired bad_address bad_decision_id bad_source bad_delete_id : ThreatError
  bad_duration bad_scope bad_value : ThreatError

pub data Result {ℓ} (A : Type ℓ) : Type ℓ where
  ok : A → Result A
  err : ThreatError → Result A

infixl 5 ◌>>=◌
abbrev pub ◌>>=◌ {ℓ κ} : {A : Type ℓ} {B : Type κ} → Result A → (A → Result B) → Result B
ok a >>= f = f a
err e >>= f = err e

abbrev pub is_crowdsec : ThreatBan → Bool
is_crowdsec b = b.source == "crowdsec"

-- `!HasPrefix(source, "ssh:") || TrimPrefix(source, "ssh:") == ""`, negated.
unfoldable pub is_jail_source : String → Bool
is_jail_source source = elim (strip_prefix "ssh:" source) [
  | none ↦ false
  | some name ↦ not (name == "")
]

-- Do two bans stand for one decision, or for one jail and address?
pub same_ban_key : ThreatBan → ThreatBan → Bool
same_ban_key ban old =
    is_crowdsec ban && is_crowdsec old && ℤ_eq old.decision_id ban.decision_id
    || not (is_crowdsec ban) && old.source == ban.source && old.address == ban.address

-- The first ban of the same key is replaced, or the ban is appended.
pub put_ban : ThreatBan → List ThreatBan → List ThreatBan
put_ban ban [] = ban ∷ []
put_ban ban (old ∷ bans) = if same_ban_key ban old then ban ∷ bans else old ∷ put_ban ban bans

-- `a[i] != b[i]` on structs compares every field.
unfoldable pub ban_eq : ThreatBan → ThreatBan → Bool
ban_eq a b =
    a.address == b.address
    && a.source == b.source
    && a.reason == b.reason
    && ℤ_eq a.decision_id b.decision_id
    && ℤ_eq a.expires_at b.expires_at

-- `sameThreatBans`.
pub same_threat_bans : List ThreatBan → List ThreatBan → Bool
same_threat_bans [] [] = true
same_threat_bans [] (b ∷ bs) = false
same_threat_bans (a ∷ as') [] = false
same_threat_bans (a ∷ as') (b ∷ bs) = if not (ban_eq a b) then false else same_threat_bans as' bs

pub mem_id : ℤ → List ℤ → Bool
mem_id k [] = false
mem_id k (i ∷ ids) = ℤ_eq i k || mem_id k ids

pub all_positive : List ℤ → Bool
all_positive [] = true
all_positive (i ∷ ids) = if leb_ℤ i (pos 0) then false else all_positive ids

pub drop_deleted : List ℤ → List ThreatBan → List ThreatBan
unfolding mem_id
drop_deleted ids bans = keep (λ b. not (is_crowdsec b && mem_id b.decision_id ids)) bans

module _ (net : NetText) where
  open net use {parse_addr, parse_prefix, show_addr, show_prefix}

  -- `canonicalBanAddress`.
  unfoldable pub canonical_ban_address : String → Result String
  canonical_ban_address raw = elim (parse_prefix raw) [
    | some p ↦ elim (unmap_prefix p) [ none ↦ err bad_address | some q ↦ ok (show_prefix q) ]
    | none ↦ elim (parse_addr raw) [
      | none ↦ err bad_address
      | some a ↦ ok (show_addr (unmap (without_zone a)))
    ]
  ]

  -- The checks on the source of a ban.
  unfoldable pub check_source : ThreatBan → Result ThreatBan
  unfolding is_jail_source
  check_source ban =
      if is_crowdsec ban
      then if leb_ℤ ban.decision_id (pos 0) then err bad_decision_id else ok ban
      else if not (is_jail_source ban.source) || not (ℤ_eq ban.decision_id (pos 0))
      then err bad_source
      else ok ban

  -- The checks on one ban of an update, and its canonical form.
  unfoldable pub check_ban : ℤ → ThreatBan → Result ThreatBan
  check_ban now ban =
      if leb_ℤ ban.expires_at now
      then err already_expired
      else canonical_ban_address ban.address >>= λ address.
          check_source (record ban { address = address })

  pub add_bans : ℤ → List ThreatBan → List ThreatBan → Result (List ThreatBan)
  add_bans now bans [] = ok bans
  add_bans now bans (ban ∷ add) =
      check_ban now ban >>= λ checked. add_bans now (put_ban checked bans) add

  abbrev pub after_snapshot : Update → List ThreatBan → List ThreatBan
  after_snapshot update bans =
      if update.snapshot then keep (λ b. not (is_crowdsec b)) bans else bans

  -- The deletions of a batch that is no snapshot.
  pub delete_bans : Update → List ThreatBan → Result (List ThreatBan)
  unfolding all_positive drop_deleted
  delete_bans update bans =
      if not update.snapshot
      then if all_positive update.delete_ids
        then ok (drop_deleted update.delete_ids bans)
        else err bad_delete_id
      else ok bans

  -- The bans after an update.
  pub updated_bans : State → Update → ℤ → Result (List ThreatBan)
  updated_bans st update now =
      add_bans now (after_snapshot update st.bans) update.add >>= λ bans. delete_bans update bans

  -- `applyThreatUpdateToState`: the new state and whether it changed.
  pub apply_threat_update_to_state : State → Update → ℤ → Result (State × Bool)
  unfolding same_threat_bans
  apply_threat_update_to_state st update now = updated_bans st update now >>= λ bans.
      if same_threat_bans st.bans bans then ok (st, false) else ok (record st { bans = bans }, true)

  -- `crowdSecAddress`.
  unfoldable pub crowd_sec_address : String → String → Result String
  crowd_sec_address scope value =
      if to_lower scope == "ip"
      then elim (parse_addr value) [
        | some a ↦ ok (show_addr (unmap (without_zone a)))
        | none ↦ elim (parse_prefix value) [
          | none ↦ err bad_value
          | some p ↦ elim (unmap_prefix p) [ none ↦ err bad_value | some q ↦ ok (show_prefix q) ]
        ]
      ]
      else if to_lower scope == "range"
      then elim (parse_prefix value) [ none ↦ err bad_value | some p ↦ ok (show_prefix (masked p)) ]
      else err bad_scope
