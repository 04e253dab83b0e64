-- ===== src/Protect/Threats/Rejects.antt =====
-- A batch is applied as a whole or not at all.
use better_firewall.Prelude.{true, List, [], ◌∷◌, String-eq, ◌≡◌, arith, ◌⊎◌, inl, inr}
use better_firewall.Prelude.Int.{ℤ, leb_ℤ, ◌≤ℤ◌}
use better_firewall.Store.{State, ThreatBan}
use better_firewall.Net.{NetText}
use better_firewall.Protect.Threats.{
  Update, Result, ok, err, ◌>>=◌, put_ban, check_ban, add_bans, after_snapshot, updated_bans,
  apply_threat_update_to_state,
}

-- One of the bans has run out.
abbrev pub HasExpired : ℤ → List ThreatBan → Type 0
HasExpired now [] = ⊥
HasExpired now (b ∷ bs) = (b.expires_at ≤ℤ now) ⊎ HasExpired now bs

pub HasExpired-later :
    (now later : ℤ) (bs : List ThreatBan) → now ≤ℤ later → HasExpired now bs → HasExpired later bs
HasExpired-later now later [] h e = elim e [ ]
HasExpired-later now later (b ∷ bs) h (inl e) = inl (omega arith)
HasExpired-later now later (b ∷ bs) h (inr e) = inr (HasExpired-later now later bs h e)

abbrev pub Fails {ℓ} : {A : Type ℓ} → Result A → Type 0
Fails (ok a) = ⊥
Fails (err e) = Unit

Fails-bind : {A B : Type 0} (m : Result A) (f : A → Result B) → Fails m → Fails (m >>= f)
Fails-bind (ok a) f h = elim h [ ]
Fails-bind (err e) f h = tt

module _ (net : NetText) where
  add_bans-Fails :
      (now : ℤ) (bans add : List ThreatBan) → HasExpired now add → Fails (add_bans net now bans add)
  unfolding add_bans check_ban
  add_bans-Fails now bans [] e = elim e [ ]
  add_bans-Fails now bans (b ∷ add) (inl e) =
      let late : leb_ℤ b.expires_at now ≡ true = ground arith in rw late tt
  add_bans-Fails now bans (b ∷ add) (inr e) =
      step (check_ban net now b) λ checked. add_bans-Fails now (put_ban checked bans) add e
    where
      step :
          (r : Result ThreatBan)
          → ((checked : ThreatBan) → Fails (add_bans net now (put_ban checked bans) add))
          → Fails (r >>= λ checked. add_bans net now (put_ban checked bans) add)
      step (ok c) k = k c
      step (err x) k = tt

  -- An update that holds a ban which has run out is refused, whatever the state: none of its bans
  -- and deletions is applied.
  pub apply_threat_update_to_state-Fails :
      (st : State) (update : Update) (now : ℤ)
      → HasExpired now update.add
      → Fails (apply_threat_update_to_state net st update now)
  unfolding apply_threat_update_to_state updated_bans
  apply_threat_update_to_state-Fails st update now h =
      Fails-bind _ _
        (Fails-bind _ _ (add_bans-Fails now (after_snapshot net update st.bans) update.add h))
