-- ===== src/Protect/Polling/Wedge.antt =====
-- A pending batch is retried as it is.
use better_firewall.Prelude.{
  Bool, false, List, [], ◌∷◌, String, Option, some, ◌≡◌, refl, arith, Option-cases, inl, inr,
}
use better_firewall.Prelude.Int.{ℤ, ◌≤ℤ◌}
use better_firewall.Store.{State}
use better_firewall.Net.{NetText}
use better_firewall.Protect.Threats.{Update, Result, ok, err, apply_threat_update_to_state}
use better_firewall.Protect.Threats.Rejects.{
  HasExpired, HasExpired-later, Fails, apply_threat_update_to_state-Fails,
}
use better_firewall.Protect.Polling.{
  Round, apply_threat_update, committed, fetch, deliver, poll, poll_all,
}

-- Every round takes place at `now` or later.
abbrev pub NotBefore : ℤ → List Round → Type 0
NotBefore now [] = Unit
NotBefore now (e ∷ es) = (now ≤ℤ e.now) × NotBefore now es

committed-Fails :
    (commits : State → Bool) (r : Result (State × Bool)) → Fails r → committed commits r ≡ false
unfolding committed
committed-Fails commits (ok a) h = elim h [ ]
committed-Fails commits (err e) h = refl

apply_threat_update-expired :
    (net : NetText) (e : Round) (u : Update)
    → HasExpired e.now u.add
    → apply_threat_update net e u ≡ false
unfolding apply_threat_update
apply_threat_update-expired net e u h = elim (Option-cases e.loaded) [
  | inl none' ↦ rw (none', apply_threat_update) (ground arith)
  | inr (st, some') ↦
      rw (some', apply_threat_update)
        (ground (
          arith,
          committed-Fails e.commits (apply_threat_update_to_state net st u e.now)
              (apply_threat_update_to_state-Fails net st u e.now h),
        ))
]

module _ (net : NetText) (parse_duration : String → Option ℤ) where
  poll_wedged :
      (e : Round) (startup : Bool) (u : Update)
      → HasExpired e.now u.add
      → poll net parse_duration (record { startup = startup; pending = some u }) e
        ≡ record { startup = startup; pending = some u }
  unfolding poll fetch deliver
  poll_wedged e startup u h = rw (apply_threat_update-expired net e u h)

  -- Once a pending batch holds a ban that has run out at `now`, no round that takes place at `now` or
  -- later applies the batch, gives it
  -- up or takes a new one, whatever the server, the lock, the file and the commit do.
  pub poll_all_wedged :
      (es : List Round) (now : ℤ) (startup : Bool) (u : Update)
      → HasExpired now u.add
      → NotBefore now es
      → poll_all net parse_duration (record { startup = startup; pending = some u }) es
        ≡ record { startup = startup; pending = some u }
  unfolding poll_all
  poll_all_wedged [] now startup u h late = refl
  poll_all_wedged (e ∷ es) now startup u h (le, late) =
      rw (poll_wedged e startup u (HasExpired-later now e.now u.add le h))
        (poll_all_wedged es now startup u h late)
