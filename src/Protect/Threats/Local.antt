-- ===== src/Protect/Threats/Local.antt =====
-- What an update does to the bans of the local jails, and to those of CrowdSec.
use better_firewall.Prelude.{
  Bool, true, false, not, List, [], ◌∷◌, String, ◌==◌, String-eq, if◌then◌else◌, ◌≡◌, refl, arith,
  ◌⊎◌, inl, inr, Bool-cases, keep, ap, ◌∙◌,
}
use better_firewall.Prelude.Int.{ℤ, leb_ℤ}
use better_firewall.Store.{State, ThreatBan}
use better_firewall.Net.{NetText}
use better_firewall.Protect.Threats.{
  Update, Result, ok, err, ◌>>=◌, is_crowdsec, same_ban_key, put_ban, check_ban, check_source,
  canonical_ban_address, add_bans, after_snapshot, delete_bans, drop_deleted, all_positive,
  updated_bans, apply_threat_update_to_state, same_threat_bans,
}

-- The bans of the local jails.
abbrev pub local_bans : List ThreatBan → List ThreatBan
local_bans = keep (λ b. not (is_crowdsec b))

-- Every added ban comes from CrowdSec.
abbrev pub FromCrowdSec : List ThreatBan → Type 0
FromCrowdSec [] = Unit
FromCrowdSec (b ∷ bs) = (is_crowdsec b ≡ true) × FromCrowdSec bs

local_bans-put_ban :
    (ban : ThreatBan) (bans : List ThreatBan)
    → is_crowdsec ban ≡ true
    → local_bans (put_ban ban bans) ≡ local_bans bans
unfolding put_ban same_ban_key
local_bans-put_ban ban [] h = ground arith
local_bans-put_ban ban (old ∷ bans) h = ground (arith, local_bans-put_ban ban bans h)

keep-keep_self : (p : ThreatBan → Bool) (bs : List ThreatBan) → keep p (keep p bs) ≡ keep p bs
keep-keep_self p [] = refl
keep-keep_self p (b ∷ bs) = ground (arith, keep-keep_self p bs)

local_bans-drop_deleted :
    (ids : List ℤ) (bans : List ThreatBan) → local_bans (drop_deleted ids bans) ≡ local_bans bans
unfolding drop_deleted
local_bans-drop_deleted ids [] = refl
local_bans-drop_deleted ids (b ∷ bans) = ground (arith, local_bans-drop_deleted ids bans)

-- A result, if there is one, has a property.
abbrev pub Ensures {ℓ} : {A : Type ℓ} → (A → Type 0) → Result A → Type 0
Ensures P (ok a) = P a
Ensures P (err e) = Unit

Ensures-bind :
    {A B : Type 0} (P : A → Type 0) (Q : B → Type 0) (m : Result A) (f : A → Result B)
    → Ensures P m
    → ((a : A) → P a → Ensures Q (f a))
    → Ensures Q (m >>= f)
Ensures-bind P Q (ok a) f p k = k a p
Ensures-bind P Q (err e) f p k = tt

Ensures-weaken :
    {A : Type 0} (P Q : A → Type 0) (m : Result A)
    → ((a : A) → P a → Q a)
    → Ensures P m
    → Ensures Q m
Ensures-weaken P Q (ok a) k p = k a p
Ensures-weaken P Q (err e) k p = tt

module _ (net : NetText) where
  check_source-same : (ban : ThreatBan) → Ensures (λ c. c ≡ ban) (check_source net ban)
  unfolding check_source
  check_source-same ban = ground arith

  check_ban-source :
      (now : ℤ) (ban : ThreatBan) → Ensures (λ c. c.source ≡ ban.source) (check_ban net now ban)
  unfolding check_ban
  check_ban-source now ban = elim (Bool-cases (leb_ℤ ban.expires_at now)) [
    | inl late ↦ rw late tt
    | inr early ↦ rw early (checked_part)
  ]
    where
      any_result : (r : Result String) → Ensures (λ a. Unit) r
      any_result (ok a) = tt
      any_result (err e) = tt

      checked_part :
          Ensures
            (λ (c : ThreatBan). c.source ≡ ban.source)
            (canonical_ban_address net ban.address >>= λ address.
              check_source net (record ban { address = address }))
      checked_part =
          Ensures-bind (λ a. Unit) (λ (c : ThreatBan). c.source ≡ ban.source)
            (canonical_ban_address net ban.address)
            (λ address. check_source net (record ban { address = address }))
            (any_result (canonical_ban_address net ban.address))
            (λ address t.
              Ensures-weaken {A = ThreatBan} (λ c. c ≡ record ban { address = address })
                (λ (c : ThreatBan). c.source ≡ ban.source)
                (check_source net (record ban { address = address }))
                (λ c e. ap (λ (b : ThreatBan). b.source) e)
                (check_source-same (record ban { address = address })))

  local_bans-add_bans :
      (now : ℤ) (bans add : List ThreatBan)
      → FromCrowdSec add
      → Ensures (λ after. local_bans after ≡ local_bans bans) (add_bans net now bans add)
  unfolding add_bans
  local_bans-add_bans now bans [] h = refl
  local_bans-add_bans now bans (ban ∷ add) (h, hs) =
      Ensures-bind _ _ (check_ban net now ban)
        (λ checked. add_bans net now (put_ban checked bans) add) (check_ban-source now ban)
        (λ checked e.
          Ensures-weaken {A = List ThreatBan}
            (λ after. local_bans after ≡ local_bans (put_ban checked bans))
            (λ after. local_bans after ≡ local_bans bans)
            (add_bans net now (put_ban checked bans) add)
            (λ after e'. e' ∙ local_bans-put_ban checked bans (ap (λ s. s == "crowdsec") e ∙ h))
            (local_bans-add_bans now (put_ban checked bans) add hs))

  local_bans-delete_bans :
      (update : Update) (bans : List ThreatBan)
      → Ensures (λ after. local_bans after ≡ local_bans bans) (delete_bans net update bans)
  unfolding delete_bans
  local_bans-delete_bans update bans = elim (Bool-cases update.snapshot) [
    | inl s ↦ rw s refl
    | inr s ↦ rw s (elim (Bool-cases (all_positive update.delete_ids)) [
      | inl p ↦ rw p (local_bans-drop_deleted update.delete_ids bans)
      | inr p ↦ rw p tt
    ])
  ]

  local_bans-after_snapshot :
      (update : Update) (bans : List ThreatBan)
      → local_bans (after_snapshot net update bans) ≡ local_bans bans
  local_bans-after_snapshot update bans = elim (Bool-cases update.snapshot) [
    | inl s ↦ rw s (keep-keep_self (λ b. not (is_crowdsec b)) bans)
    | inr s ↦ rw s refl
  ]

  -- An update of CrowdSec's decisions, full or incremental, leaves the bans of the local jails as
  -- they are, in their order, whenever it is accepted.
  pub apply_threat_update_to_state-local_bans :
      (st : State) (update : Update) (now : ℤ)
      → FromCrowdSec update.add
      → Ensures
          (λ r. local_bans (r.0).bans ≡ local_bans st.bans)
          (apply_threat_update_to_state net st update now)
  unfolding apply_threat_update_to_state updated_bans
  apply_threat_update_to_state-local_bans st update now h =
      Ensures-bind (λ after. local_bans after ≡ local_bans st.bans) _
        (updated_bans net st update now) _
        (Ensures-bind _ _ (add_bans net now (after_snapshot net update st.bans) update.add)
          (λ bans. delete_bans net update bans)
          (local_bans-add_bans now (after_snapshot net update st.bans) update.add h)
          (λ bans e.
            Ensures-weaken {A = List ThreatBan} (λ after. local_bans after ≡ local_bans bans)
              (λ after. local_bans after ≡ local_bans st.bans) (delete_bans net update bans)
              (λ after e'. e' ∙ e ∙ local_bans-after_snapshot update st.bans)
              (local_bans-delete_bans update bans)))
        (λ bans e. committed bans e (Bool-cases (same_threat_bans st.bans bans)))
    where
      committed :
          (bans : List ThreatBan)
          → local_bans bans ≡ local_bans st.bans
          → (same_threat_bans st.bans bans ≡ true) ⊎ (same_threat_bans st.bans bans ≡ false)
          → Ensures
              (λ (r : State × Bool). local_bans (r.0).bans ≡ local_bans st.bans)
              (if same_threat_bans st.bans bans
                then ok (st, false)
                else ok (record st { bans = bans }, true))
      committed bans e (inl s) = rw s refl
      committed bans e (inr s) = rw s e
